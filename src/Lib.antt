-- ===== src/Lib.antt =====
-- Verification of the core of ScreenerCD, a Go program that collects spot prices from centralised
-- exchanges and from Uniswap pools and writes them to Redis for an arbitrage screener.
--
-- The parts. `LoadConfig` reads the settings; the symbols of an exchange come from them or from a
-- file; the launcher finds a connector by its name and runs its session, which subscribes to the
-- symbols and puts the prices it reads into one channel; a pool of workers takes them from there
-- and writes each to two Redis hashes in batches, one under the raw and one under the canonical
-- symbol. The DEX connectors price their tokens in USD through a graph of prices, whose anchors
-- are the stable coins of a registry of tokens. Old keys in Redis are repaired at the start.
--
-- The files, with the code they model:
--   Prelude, Prelude/*   numbers, lists, integers (Go int), Go maps as association lists, errors
--   Text, Text/*         Go strings as lists of ASCII bytes, package strings, sort.Strings
--   Util/Helpers         internal/util/helpers.go: NormalizeExchangeName, BybitToGateSymbol,
--                        NormalizeSpotSymbol, AttachQuote
--   Util/Symbols         internal/util/symbols.go, internal/util/symbol_loader.go
--   Config/*             internal/config/config.go: settings, paths, defaults, checks, LoadConfig
--   Assets/*             internal/assets/{token,loader,provider}.go: the registry of tokens, its
--                        checks, and the indexes by chain, symbol and address
--   Pricing/Graph        internal/dex/pricing/graph_pricer.go: RegisterToken, RegisterStable,
--                        UpdatePair and setEdgeLocked on the edges, symbols and stable coins
--   Pricing/Resolve      the same file: ResolveUSD, with its queue, its visits and its best result
--   Pricing/Anchors      the same file: anchorsFromProvider, NewGraphPricerFromAssets
--   Uniswap/Meta         internal/dex/Etherium/Uniswap/v2_connector.go: tokens, pools, FinalizePool
--   Uniswap/Registry     the same file: TokenRegistry, Resolve
--   Uniswap/Gecko        the same file: LoadPoolsFromGeckoWithRegistry
--   Uniswap/Order        the same file: AdjustPoolsOrdering, updateTokenDecimals
--   Uniswap/Price        the same file: computeSnapshot, ratio, shouldDrop, on exact fractions
--   Uniswap/Amounts      the same file: ratToFloat, reserveWeight
--   Uniswap/Connector    the same file: registerPoolTokens, publish, updatePricing, emitUSD
--   Uniswap/Handle       the same file: handleRaw, and the map of the pools
--   Uniswap/Session      the same file: subscribeAll, nextBackoff and Run, as a loop over attempts
--   Uniswap/Configs      internal/dex/Etherium/Uniswap/{connect_uniswap_v3_all,v4_connector}.go:
--                        V3Config, V4Config, V4PoolConfig
--   UniswapV4/Fields     internal/dex/Etherium/Uniswap/v4_connector.go: bigIntField, the prices of
--                        a square root price, calcSwapWeight
--   UniswapV4/State      the same file: the pools, storeSwapMetrics
--   UniswapV4/Pools      the same file: poolFromGecko, normalizeInlinePool, buildTokenMeta
--   UniswapV4/Boot       the same file: loadPoolsFromFile, bootstrapPools
--   UniswapV4/Swap       the same file: handleSwapEvent, updatePricing, emitSpot, emitUSD
--   UniswapV4/Frames     the same file: NewV4Connector, handleLog, handleFrame
--   UniswapV4/Stream     the same file: runStream, as a machine over its select
--   Launcher/Dex         internal/launcher/register_dex.go: the configurations of the connectors
--   Launcher/Wanted      the same file: mergeWantedPairs
--   Launcher/Registry    internal/launcher/registry.go: Register, Get, Keys
--   Launcher/Cex         internal/launcher/register_cex.go: the sessions as lists of actions
--   Exchange/*           internal/exchange/{bybit,gateio,bitget,okx}.go: ReadLoop as a machine
--   Redis/Batch          internal/redisclient/client.go: HSetBatch
--   Redis/Normalize      internal/redisclient/normalize.go: the repair of old keys
--   Worker/Loop          cmd/screener-core/main.go: one worker as a machine over its select
--   Supervisor/Loop      the same file: supervisor, as a machine over its two selects
--   Market               pkg/protobuf/arbitrage.pb.go: MarketData
--   Float, Eth, Samples  float64 by its bits, go-ethereum's addresses, concrete parameters
-- The other files of a directory hold the proofs about it, and each Tests its runs and witnesses.
--
-- Conventions. A Go string is a list of bytes; case and spaces are those of ASCII. A Go int is
-- an integer without a bound; the int64 counters of the worker wrap at 2 ^ 64, and so do the
-- durations of the DEX configurations, for which Validate lets at most 120 seconds through. A
-- float64 is its 64 bits: comparisons and the tests for NaN and infinity are IEEE 754's, and the
-- rounded operations are parameters without a law. A big.Rat is a fraction, a big.Int a number.
-- A map is an association list; where the code ranges over a map the order is a parameter, or
-- the order of the list. Locks make an operation atomic, so concurrent calls are sequences of
-- operations. log.Fatalf and panic are error values. The log is left out.
--
-- Fuel. The search of ResolveUSD runs on fuel that is computed from the graph: one more than
-- (d + 1) ^ h for at most d edges out of a token and the hop limit h; it is shown to suffice, since
-- each item has at most h hops. The loop over the cursor of SCAN takes its fuel as an argument, as
-- its end is up to the server; nothing is claimed of its end. The requests of subscribeAll run on
-- the number of addresses, which suffices, as each request takes at least one address.
--
-- Parameters, for code outside the repository: yaml and json decoding, the file system and the
-- environment, fmt.Sprint, strconv, go-ethereum's conversion of addresses, what a node answers to
-- its calls, the float64 of a fraction, and the Redis commands;
-- the laws assumed of them are Eth.IsLawful and Redis.Merge.IsRedis, and Samples and Redis/Tests
-- hold instances that satisfy them.
--
-- Not modelled. The connector of Uniswap V3, and of V4 the filter of its subscription and the
-- loop of Run; the builders of the DEX connectors; and the rest of the start of the
-- program. Sockets, logging and metrics are input and output; the scripts are one-off tools.
pub mod Prelude
pub mod Text
pub mod Util
pub mod Float
pub mod Eth
pub mod Assets
pub mod Config
pub mod Market
pub mod Supervisor
pub mod Exchange
pub mod Launcher
pub mod Redis
pub mod Worker
pub mod Samples
pub mod Pricing
pub mod Uniswap
pub mod UniswapV4
