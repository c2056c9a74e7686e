-- ===== src/Util/Symbols.antt =====
-- internal/util/symbols.go and internal/util/symbol_loader.go: the tickers of a symbols file.
-- `read` stands for reading a file and `unmarshal` for json.Unmarshal: it gives the symbols of
-- the field `entries`, or the keys of an object in the order in which `range` visits them.
use screener_cd.Prelude.{
  Bool, false, ◌||◌, List, [], ◌∷◌, ◌++◌, map, Option, none, some, if◌then◌else◌,
}
use screener_cd.Prelude.Result.{Result, ok, err}
use screener_cd.Text.{Text, codes, eqb, equal_fold, ltb_text, remove_byte, to_upper, trim_space}
use screener_cd.Text.Sort.{is_in, sort_strings}

pub record CoinSymbol : Type 0 where
  pub symbol : Text
  pub bybit_symbol : Text
  pub is_valid : Bool

pub data SymbolsError : Type 0 where
  read_failed : SymbolsError
  decode_failed : SymbolsError
  no_entries : SymbolsError
  no_valid_symbols : SymbolsError

abbrev pub stablecoins : List Text
stablecoins =
    codes "BUSD"
    ∷ codes "DAI"
    ∷ codes "EUR"
    ∷ codes "GBP"
    ∷ codes "JPY"
    ∷ codes "TUSD"
    ∷ codes "USD"
    ∷ codes "USD1"
    ∷ codes "USDC"
    ∷ codes "USDE"
    ∷ codes "USDT"
    ∷ codes "USTC"
    ∷ []

-- The loop of `isStablecoinOrFiat`.
unfoldable pub folds_to_one : Text → List Text → Bool
folds_to_one symbol [] = false
folds_to_one symbol (s ∷ ss) = equal_fold symbol s || folds_to_one symbol ss

unfoldable pub is_stablecoin_or_fiat : Text → Bool
is_stablecoin_or_fiat symbol = folds_to_one symbol stablecoins

unfoldable pub coins_of : List Text → List CoinSymbol
coins_of [] = []
coins_of (ticker ∷ tickers) =
    let rest = coins_of tickers in
    if is_stablecoin_or_fiat ticker
    then rest
    else record { symbol = ticker; bybit_symbol = ticker ++ codes "USDT"; is_valid = false } ∷ rest

-- sort.Slice by the symbol; the keys of an object are all different.
unfoldable pub insert_coin : CoinSymbol → List CoinSymbol → List CoinSymbol
insert_coin c [] = c ∷ []
insert_coin c (d ∷ ds) = if ltb_text d.symbol c.symbol then d ∷ insert_coin c ds else c ∷ (d ∷ ds)

unfoldable pub sort_coins : List CoinSymbol → List CoinSymbol
sort_coins [] = []
sort_coins (c ∷ cs) = insert_coin c (sort_coins cs)

unfoldable pub load_symbols_from_json :
    (Text → Option Text)
    → (Text → Option (List Text))
    → Text
    → Result SymbolsError (List CoinSymbol)
load_symbols_from_json read unmarshal path = loaded (read path)
  where
    decoded : Option (List Text) → Result SymbolsError (List CoinSymbol)
    decoded none = err decode_failed
    decoded (some tickers) = ok (sort_coins (coins_of tickers))

    loaded : Option Text → Result SymbolsError (List CoinSymbol)
    loaded none = err read_failed
    loaded (some payload) = decoded (unmarshal payload)

unfoldable pub get_valid_bybit_symbols : List CoinSymbol → List Text
get_valid_bybit_symbols [] = []
get_valid_bybit_symbols (c ∷ cs) =
    let rest = get_valid_bybit_symbols cs in if c.is_valid then c.bybit_symbol ∷ rest else rest

unfoldable pub filter_bybit_symbols : List CoinSymbol → List Text → List CoinSymbol
filter_bybit_symbols symbols available =
    map {A = CoinSymbol}
      (λ c. record c { is_valid = is_in (to_upper c.bybit_symbol) (map to_upper available) })
      symbols

abbrev pub stable_skip_set : List Text
stable_skip_set =
    codes "BUSD"
    ∷ codes "DAI"
    ∷ codes "EUR"
    ∷ codes "TUSD"
    ∷ codes "USD"
    ∷ codes "USD1"
    ∷ codes "USDC"
    ∷ codes "USDT"
    ∷ []

unfoldable pub normalize_base_symbol : Text → Text
normalize_base_symbol raw =
    let trimmed = trim_space raw in
    if eqb trimmed []
    then []
    else remove_byte b'/' (remove_byte b'_' (remove_byte b'-' (to_upper trimmed)))

-- `symbol == ""`, or one of the skipped assets.
unfoldable pub is_skipped : Text → Bool
is_skipped symbol = eqb symbol [] || is_in symbol stable_skip_set

-- The loop of `parseGeckoEntries` and of `parseLegacySymbolMap`.
unfoldable pub collect : List Text → List Text → List Text
collect [] seen = []
collect (raw ∷ rest) seen =
    let symbol = normalize_base_symbol raw in
    let passes = is_skipped symbol || is_in symbol seen in
    let later = collect rest (if passes then seen else symbol ∷ seen) in
    if passes then later else symbol ∷ later

-- The result of the loop, which must not be empty.
abbrev pub non_empty : List Text → Result SymbolsError (List Text)
non_empty [] = err no_valid_symbols
non_empty (s ∷ ss) = ok (s ∷ ss)

-- `parseGeckoEntries` and `parseLegacySymbolMap` differ in what they decode.
unfoldable pub parse_symbols : Option (List Text) → Result SymbolsError (List Text)
parse_symbols none = err decode_failed
parse_symbols (some []) = err no_entries
parse_symbols (some (raw ∷ rest)) = non_empty (collect (raw ∷ rest) [])

abbrev sorted : Result SymbolsError (List Text) → Result SymbolsError (List Text)
sorted (ok symbols) = ok (sort_strings symbols)
sorted (err e) = err e

-- The old format is tried where the first one gives an error; it never gives an empty list.
abbrev pub or_legacy :
    Result SymbolsError (List Text)
    → Result SymbolsError (List Text)
    → Result SymbolsError (List Text)
or_legacy (ok symbols) legacy = sorted (ok symbols)
or_legacy (err e) legacy = sorted legacy

unfoldable pub load_symbols_from_file :
    (Text → Option Text)
    → (Text → Option (List Text))
    → (Text → Option (List Text))
    → Text
    → Result SymbolsError (List Text)
load_symbols_from_file read unmarshal_entries unmarshal_keys path = loaded (read path)
  where
    loaded : Option Text → Result SymbolsError (List Text)
    loaded none = err read_failed
    loaded (some payload) =
        or_legacy (parse_symbols (unmarshal_entries payload))
          (parse_symbols (unmarshal_keys payload))
