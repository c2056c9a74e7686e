-- ===== src/Eth.antt =====
-- What the program uses of go-ethereum's package common: an address is its 20 bytes as a number,
-- zero for `common.Address{}`; the conversions to and from text are parameters.
use screener_cd.Prelude.{ℕ, ◌≡◌, ◌≢◌, Bool, List, [], ◌==◌, if◌then◌else◌}
use screener_cd.Text.{Text, to_lower}

pub record EthCommon : Type 0 where
  -- addr.Hex()
  pub hex : ℕ → Text
  pub is_hex_address : Text → Bool
  pub hex_to_address : Text → ℕ
  -- common.BytesToAddress
  pub bytes_to_address : List ℕ → ℕ

-- `Hex` writes every address in its own way, up to the case of the digits, and never nothing.
pub record IsLawful (e : EthCommon) : Type 0 where
  pub hex_injective : (a b : ℕ) → to_lower (e.hex a) ≡ to_lower (e.hex b) → a ≡ b
  pub hex-ne-nil : (a : ℕ) → to_lower (e.hex a) ≢ []

-- strings.ToLower(addr.Hex())
unfoldable pub lower_hex : EthCommon → ℕ → Text
lower_hex e a = to_lower (e.hex a)

-- `normalizeAddr` of internal/dex/pricing/graph_pricer.go
unfoldable pub normalize_addr : EthCommon → ℕ → Text
unfolding lower_hex
normalize_addr e a = if a == 0 then [] else lower_hex e a
