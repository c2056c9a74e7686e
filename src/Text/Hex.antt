-- ===== src/Text/Hex.antt =====
-- encoding/hex and the bytes of a big.Int, and the words of an Ethereum call that they read.
use screener_cd.Prelude.{
  ℕ, zero, suc, ◌+◌, ◌-◌, ◌*◌, ◌/◌, ◌%◌, ◌<◌, ◌≡◌, refl, ap, ◌&&◌, List, [], ◌∷◌, ◌++◌, Option,
  none, some, arith, leb, if◌then◌else◌, length, length-append, All, All-append,
}
use screener_cd.Text.Defs.{Text}

-- The value of a hexadecimal digit.
unfoldable pub hex_value : ℕ → Option ℕ
hex_value c =
    if leb b'0' c && leb c b'9'
    then some (c - 48)
    else if leb b'a' c && leb c b'f'
    then some (c - 87)
    else if leb b'A' c && leb c b'F'
    then some (c - 55)
    else none

abbrev pub add_byte : Option ℕ → Option ℕ → Option (List ℕ) → Option (List ℕ)
add_byte none b rest = none
add_byte (some a) none rest = none
add_byte (some a) (some b) none = none
add_byte (some a) (some b) (some rest) = some ((a * 16 + b) ∷ rest)

-- hex.DecodeString; `none` is an error.
unfoldable pub decode_hex : Text → Option (List ℕ)
decode_hex [] = some []
decode_hex (c ∷ []) = none
decode_hex (c ∷ d ∷ s) = add_byte (hex_value c) (hex_value d) (decode_hex s)

-- new(big.Int).SetBytes
unfoldable pub from_bytes_onto : ℕ → List ℕ → ℕ
from_bytes_onto n [] = n
from_bytes_onto n (b ∷ bs) = from_bytes_onto (n * 256 + b) bs

unfoldable pub from_bytes : List ℕ → ℕ
from_bytes bs = from_bytes_onto 0 bs

-- The other way: the last `k` bytes of a number, and the digits of bytes.
unfoldable pub to_bytes : ℕ → ℕ → List ℕ
to_bytes zero n = []
to_bytes (suc k) n = to_bytes k (n / 256) ++ n % 256 ∷ []

unfoldable pub hex_digit : ℕ → ℕ
hex_digit v = if leb v 9 then v + 48 else v + 87

unfoldable pub encode_hex : List ℕ → Text
encode_hex [] = []
encode_hex (b ∷ bs) = hex_digit (b / 16) ∷ hex_digit (b % 16) ∷ encode_hex bs

-- 256 ^ k
unfoldable pub limit : ℕ → ℕ
limit zero = 1
limit (suc k) = 256 * limit k

hex_value-hex_digit : (v : ℕ) → v < 16 → hex_value (hex_digit v) ≡ some v
unfolding hex_value hex_digit
hex_value-hex_digit v h = ground arith

from_bytes_onto-snoc :
    (n : ℕ) (bs : List ℕ) (b : ℕ)
    → from_bytes_onto n (bs ++ b ∷ []) ≡ from_bytes_onto n bs * 256 + b
unfolding from_bytes_onto
from_bytes_onto-snoc n [] b = refl
from_bytes_onto-snoc n (c ∷ bs) b = from_bytes_onto-snoc (n * 256 + c) bs b

pub from_bytes-to_bytes : (k n : ℕ) → n < limit k → from_bytes (to_bytes k n) ≡ n
unfolding from_bytes to_bytes limit from_bytes_onto
from_bytes-to_bytes zero n h = omega arith
from_bytes-to_bytes (suc k) n h = omega (
  arith,
  from_bytes_onto-snoc 0 (to_bytes k (n / 256)) (n % 256),
  from_bytes-to_bytes k (n / 256) (omega arith),
)

pub length-to_bytes : (k n : ℕ) → length (to_bytes k n) ≡ k
unfolding to_bytes
length-to_bytes zero n = refl
length-to_bytes (suc k) n =
    omega (arith, length-append (to_bytes k (n / 256)) (n % 256 ∷ []), length-to_bytes k (n / 256))

abbrev pub IsBytes : List ℕ → Type 0
IsBytes = All (λ b. b < 256)

pub to_bytes-IsBytes : (k n : ℕ) → IsBytes (to_bytes k n)
unfolding to_bytes
to_bytes-IsBytes zero n = tt
to_bytes-IsBytes (suc k) n =
    All-append (λ b. b < 256) (to_bytes k (n / 256)) (n % 256 ∷ []) (to_bytes-IsBytes k (n / 256))
      (omega arith, tt)

pub decode_hex-encode_hex : (bs : List ℕ) → IsBytes bs → decode_hex (encode_hex bs) ≡ some bs
unfolding decode_hex encode_hex
decode_hex-encode_hex [] h = refl
decode_hex-encode_hex (b ∷ bs) (hb, h) =
    rw
      (
        hex_value-hex_digit (b / 16) (omega arith),
        hex_value-hex_digit (b % 16) (omega arith),
        decode_hex-encode_hex bs h,
      )
      (ap (λ n. some (n ∷ bs)) (omega arith))

pub length-encode_hex : (bs : List ℕ) → length (encode_hex bs) ≡ 2 * length bs
unfolding encode_hex
length-encode_hex [] = omega arith
length-encode_hex (b ∷ bs) = omega (arith, length-encode_hex bs)
