-- ===== src/Util/Tests.antt =====
-- The normalisers on concrete symbols, and the theorems about them at a witness.
use screener_cd.Prelude.{◌≡◌, refl, [], ◌∷◌, arith}
use screener_cd.Prelude.Dict.{lookup}
use screener_cd.Text.{Text, codes, to_upper, to_lower, trim_space, remove_byte, eqb, is_space}
use screener_cd.Prelude.{Option, none, some, ◌⊎◌, List}
use screener_cd.Prelude.Result.{ok}
use screener_cd.Text.{ltb_text}
use screener_cd.Text.Sort.{is_in, sort_strings, insert_sorted}
use screener_cd.Util.Symbols.{
  load_symbols_from_file, parse_symbols, collect, normalize_base_symbol, is_skipped,
}
use screener_cd.Util.Watchlist.{IsWatchlist, IsBarren, load_symbols-IsWatchlist}
use screener_cd.Util.Helpers.{
  normalize_exchange_name, bybit_to_gate_symbol, normalize_spot_symbol, attach_quote, attach,
  split_suffix, default_split, insert_at,
}
use screener_cd.Util.Gate.{IsGateForm, bybit_to_gate-IsGateForm}
use screener_cd.Util.Canonical.{normalize_spot_idem}

-- What the tests compute with.
gate_of : Text → Text
unfolding bybit_to_gate_symbol split_suffix default_split insert_at eqb
gate_of s = bybit_to_gate_symbol s

spot_of : Text → Text
unfolding normalize_spot_symbol to_upper remove_byte trim_space is_space
spot_of s = normalize_spot_symbol (codes "gate") s

gate_forms :
    (gate_of (codes "BTCUSDT") ≡ codes "BTC_USDT")
    × (gate_of (codes "ETHDAI") ≡ codes "ETH_DAI")
    × (gate_of (codes "USDT") ≡ codes "USDT")
unfolding gate_of
gate_forms = (refl, refl, refl)

-- A pair with no known quote is cut before its last four bytes.
gate_guess : gate_of (codes "ETHBTC") ≡ codes "ET_HBTC"
unfolding gate_of
gate_guess = refl

-- A symbol that is in Gate form already gets a second underscore.
gate_twice : gate_of (codes "BTC_USDT") ≡ codes "BTC__USDT"
unfolding gate_of
gate_twice = refl

spot_forms :
    (spot_of (codes "btc-usdt") ≡ codes "BTCUSDT")
    × (spot_of (codes " BTC/USDT. ") ≡ codes "BTCUSDT")
unfolding spot_of
spot_forms = (refl, refl)

quoted :
    attach_quote (codes "btc" ∷ codes " " ∷ codes "eth" ∷ []) (codes "usdt")
    ≡ codes "BTCUSDT" ∷ codes "ETHUSDT" ∷ []
unfolding attach_quote attach to_upper trim_space is_space eqb
quoted = refl

exchange_names :
    (normalize_exchange_name (codes " Gate.IO ") ≡ codes "gate")
    × (normalize_exchange_name (codes "Bybit") ≡ codes "bybit")
unfolding normalize_exchange_name to_lower trim_space is_space eqb lookup
exchange_names = (refl, refl)

bybit_to_gate-IsGateForm_example :
    IsGateForm (bybit_to_gate_symbol (codes "BTCUSDT")) (codes "BTCUSDT")
bybit_to_gate-IsGateForm_example = bybit_to_gate-IsGateForm (codes "BTCUSDT") (omega arith)

normalize_spot_idem_example :
    normalize_spot_symbol (codes "okx") (normalize_spot_symbol (codes "okx") (codes "btc-usdt"))
    ≡ normalize_spot_symbol (codes "okx") (codes "btc-usdt")
normalize_spot_idem_example = normalize_spot_idem (codes "okx") (codes "btc-usdt")

-- The tickers of a file of two entries.
abbrev one_file : Text → Option Text
one_file path = some path

abbrev two_entries : Text → Option (List Text)
two_entries payload = some (codes " eth" ∷ codes "usdt" ∷ codes "btc" ∷ codes "ETH" ∷ [])

abbrev no_entries : Text → Option (List Text)
no_entries payload = none

watched :
    load_symbols_from_file one_file two_entries no_entries (codes "f")
    ≡ ok (codes "BTC" ∷ codes "ETH" ∷ [])
unfolding load_symbols_from_file parse_symbols collect normalize_base_symbol is_skipped is_in
    sort_strings insert_sorted to_upper trim_space is_space remove_byte eqb ltb_text
watched = refl

load_symbols-IsWatchlist_example :
    (payload : Text) × (raws : List Text) × (one_file (codes "f") ≡ some payload)
    × ((two_entries payload ≡ some raws)
        ⊎ IsBarren (two_entries payload) × (no_entries payload ≡ some raws))
    × IsWatchlist raws (codes "BTC" ∷ codes "ETH" ∷ [])
load_symbols-IsWatchlist_example =
    load_symbols-IsWatchlist one_file two_entries no_entries (codes "f")
      (codes "BTC" ∷ codes "ETH" ∷ []) watched
