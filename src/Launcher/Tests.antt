-- ===== src/Launcher/Tests.antt =====
-- Sessions and the registry on concrete symbols, and the theorems about them at witnesses.
use screener_cd.Prelude.{◌≡◌, refl, List, [], ◌∷◌, some, if◌then◌else◌, ℕ}
use screener_cd.Prelude.Dict.{insert, has_key}
use screener_cd.Prelude.Result.{ok, err}
use screener_cd.Text.{
  Text, codes, eqb, to_lower, to_upper, trim_space, is_space, remove_byte, replace_byte,
  contains_byte,
}
use screener_cd.Util.Helpers.{normalize_spot_symbol, bybit_to_gate_symbol, insert_at}
use screener_cd.Config.Tests.{sample_config}
use screener_cd.Launcher.Registry.{register, get, key_of, get-register, duplicate}
use screener_cd.Launcher.Cex.{
  bitget_inst_id, okx_inst_id, bitget_session, okx_session, subscribe_batches, size_or,
}
use screener_cd.Launcher.Batches.{
  batches_of, IsBatched, bitget_session-IsBatched, okx_session-IsBatched,
}
use screener_cd.Launcher.Symbols.{names_agree}

abbrev three : List Text
three = codes "BTCUSDT" ∷ codes "eth_usdc" ∷ codes "SOL/USDT" ∷ []

okx_ids :
    (okx_inst_id (codes "BTCUSDT") ≡ codes "BTC-USDT")
    × (okx_inst_id (codes "eth_usdc") ≡ codes "ETH-USDC")
    × (okx_inst_id (codes "USDT") ≡ codes "USDT")
unfolding okx_inst_id to_upper replace_byte contains_byte insert_at
okx_ids = (refl, refl, refl)

-- The size of a batch is two.
bitget_batches :
    batches_of (bitget_session sample_config three)
    ≡ (codes "BTCUSDT" ∷ codes "ETHUSDC" ∷ []) ∷ (codes "SOL/USDT" ∷ []) ∷ []
unfolding bitget_session subscribe_batches batches_of bitget_inst_id to_upper remove_byte
bitget_batches = refl

bitget_session-IsBatched_example :
    IsBatched bitget_inst_id
      (size_or 30 sample_config.bitget_subscribe_batch_size)
      three
      (bitget_session sample_config three)
bitget_session-IsBatched_example = bitget_session-IsBatched sample_config three

okx_session-IsBatched_example :
    IsBatched okx_inst_id
      (size_or 100 sample_config.subscribe_batch_size)
      three
      (okx_session sample_config three)
okx_session-IsBatched_example = okx_session-IsBatched sample_config three

names_agree_example :
    (normalize_spot_symbol (codes "okx") (bybit_to_gate_symbol (codes "ETHUSDT"))
      ≡ normalize_spot_symbol (codes "okx") (codes "ETHUSDT"))
    × (normalize_spot_symbol (codes "okx") (bitget_inst_id (codes "ETHUSDT"))
        ≡ normalize_spot_symbol (codes "okx") (codes "ETHUSDT"))
    × (normalize_spot_symbol (codes "okx") (okx_inst_id (codes "ETHUSDT"))
        ≡ normalize_spot_symbol (codes "okx") (codes "ETHUSDT"))
names_agree_example = names_agree (codes "okx") (codes "ETHUSDT")

abbrev one : List (Text × ℕ)
one = (codes "gate", 1) ∷ []

okx_added : register (codes " OKX") (some 2) one ≡ ok ((codes "gate", 1) ∷ (codes "okx", 2) ∷ [])
unfolding register key_of to_lower trim_space is_space eqb has_key insert
okx_added = refl

gate_again : register (codes "Gate ") (some 3) one ≡ err duplicate
unfolding register key_of to_lower trim_space is_space eqb has_key
gate_again = refl

get-register_example :
    get (codes "okx") ((codes "gate", 1) ∷ (codes "okx", 2) ∷ [])
    ≡ (if eqb (key_of (codes " OKX")) (key_of (codes "okx")) then some 2 else get (codes "okx") one)
get-register_example =
    get-register (codes " OKX") (codes "okx") 2 one ((codes "gate", 1) ∷ (codes "okx", 2) ∷ [])
      okx_added
