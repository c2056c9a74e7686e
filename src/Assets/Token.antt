-- ===== src/Assets/Token.antt =====
-- internal/assets/token.go: token metadata.
use screener_cd.Prelude.{ℕ, Bool, ◌||◌, ◌==◌, []}
use screener_cd.Text.{Text, codes, to_upper, trim_space, eqb}

-- `TokenType` is a string.
abbrev pub TokenType : Type 0
TokenType = Text

abbrev pub token_type_stable : TokenType
token_type_stable = codes "stable"

abbrev pub token_type_native : TokenType
token_type_native = codes "native"

pub record TokenInfo : Type 0 where
  pub symbol : Text
  pub address : ℕ
  pub decimals : ℕ
  pub type_tag : TokenType
  pub chain_id : ℕ
  pub wrapped : Bool

unfoldable pub is_zero : TokenInfo → Bool
is_zero t = t.address == 0 || eqb (trim_space t.symbol) []

unfoldable pub with_type : TokenInfo → TokenType → TokenInfo
with_type t typ = record t { type_tag = typ }

unfoldable pub canonical_symbol : TokenInfo → Text
canonical_symbol t = to_upper (trim_space t.symbol)
