-- ===== src/Assets/Valid.antt =====
-- What a registry that loads without an error holds.
use mathlib.Core.Path.{subst}
use screener_cd.Prelude.{
  ℕ, zero, suc, ◌+◌, ◌<◌, ◌≤◌, ◌≡◌, ◌≢◌, refl, sym, ap, ◌∙◌, false, ◌||◌, List, [], ◌∷◌, map, arith,
  All, All-implies,
}
use screener_cd.Prelude.Int.{ℤ, pos, negsuc, nonpos, pos_part, ltb_ℤ}
use screener_cd.Prelude.Result.{ok, >>=-eq-ok, reject-ok}
use screener_cd.Text.{Text, to_upper, trim_space, eqb, eqb_iff}
use screener_cd.Text.Laws.{to_upper_idem, to_upper-trim_space, trim_space_idem}
use screener_cd.Eth.{EthCommon, lower_hex}
use screener_cd.Assets.Token.{TokenType, TokenInfo, is_zero, with_type, canonical_symbol}
use screener_cd.Assets.Loader.{
  FileToken, token_of, convert_token, convert_from, convert_tokens, contains, duplicate_symbol,
  duplicate_address,
}

-- A token that the loader accepts: the symbol is trimmed, in upper case and not empty, the address
-- is not zero, and the decimals fit a positive uint8.
pub record IsLoaded (chain_id : ℕ) (typ : TokenType) (t : TokenInfo) : Type 0 where
  pub canonical : canonical_symbol t ≡ t.symbol
  pub has_symbol : t.symbol ≢ []
  pub has_address : t.address ≢ 0
  pub positive : 0 < t.decimals
  pub fits : t.decimals ≤ 255
  pub on_chain : t.chain_id ≡ chain_id
  pub tagged : t.type_tag ≡ typ

canonical_twice :
    (s : Text) → to_upper (trim_space (to_upper (trim_space s))) ≡ to_upper (trim_space s)
canonical_twice s = simp (to_upper-trim_space, to_upper_idem, trim_space_idem)

decimals_range :
    (d : ℤ) → (nonpos d || ltb_ℤ (pos 255) d) ≡ false → (0 < pos_part d) × (pos_part d ≤ 255)
decimals_range (pos zero) h = cc
decimals_range (pos (suc n)) h = ground arith
decimals_range (negsuc n) h = cc

eqb-false : (s t : Text) → eqb s t ≡ false → s ≢ t
eqb-false s t h e = cc ((eqb_iff s t).1 e)

-- No two tokens of a list share a symbol or an address.
abbrev pub Distinct : List TokenInfo → Type 0
Distinct [] = Unit
Distinct (t ∷ ts) = All (λ u. (u.symbol ≢ t.symbol) × (u.address ≢ t.address)) ts × Distinct ts

module _ (e : EthCommon) where
  convert_token-eq-ok :
      (tok : FileToken) (chain_id : ℕ) (typ : TokenType) (idx : ℕ) (t : TokenInfo)
      → convert_token e tok chain_id typ idx ≡ ok t
      → (eqb (to_upper (trim_space tok.symbol)) [] ≡ false)
        × ((nonpos tok.decimals || ltb_ℤ (pos 255) tok.decimals) ≡ false)
        × (is_zero (token_of e tok chain_id typ) ≡ false)
        × (token_of e tok chain_id typ ≡ t)
  unfolding convert_token
  convert_token-eq-ok tok chain_id typ idx t h = ground arith

  token_of-IsLoaded :
      (tok : FileToken) (chain_id : ℕ) (typ : TokenType)
      → eqb (to_upper (trim_space tok.symbol)) [] ≡ false
      → (nonpos tok.decimals || ltb_ℤ (pos 255) tok.decimals) ≡ false
      → is_zero (token_of e tok chain_id typ) ≡ false
      → IsLoaded chain_id typ (token_of e tok chain_id typ)
  unfolding token_of with_type canonical_symbol is_zero
  token_of-IsLoaded tok chain_id typ h1 h2 h3 =
      let range = decimals_range tok.decimals h2 in
      record {
        canonical = canonical_twice tok.symbol;
        has_symbol = eqb-false _ _ h1;
        has_address = ground arith;
        positive = range.0;
        fits = range.1;
        on_chain = refl;
        tagged = refl;
      }

  pub convert_token-IsLoaded :
      (tok : FileToken) (chain_id : ℕ) (typ : TokenType) (idx : ℕ) (t : TokenInfo)
      → convert_token e tok chain_id typ idx ≡ ok t
      → IsLoaded chain_id typ t × (t.symbol ≡ to_upper (trim_space tok.symbol))
  unfolding token_of with_type
  convert_token-IsLoaded tok chain_id typ idx t h =
      let (h1, h2, h3, same) = convert_token-eq-ok tok chain_id typ idx t h in
      (
        subst (IsLoaded chain_id typ) same (token_of-IsLoaded tok chain_id typ h1 h2 h3),
        ap (λ (x : TokenInfo). x.symbol) (sym same),
      )

  -- What the keys that were seen exclude.
  abbrev IsFresh : List Text → List Text → TokenInfo → Type 0
  IsFresh symbols addresses t =
      (contains (canonical_symbol t) symbols ≡ false)
      × (contains (lower_hex e t.address) addresses ≡ false)

  record IsList (ts : List FileToken) (chain_id : ℕ) (typ : TokenType)
      (symbols addresses : List Text) (infos : List TokenInfo) : Type 0 where
    loaded : All (IsLoaded chain_id typ) infos
    distinct : Distinct infos
    same_symbols : map (λ t. t.symbol) infos ≡ map (λ t. to_upper (trim_space t.symbol)) ts
    fresh : All (IsFresh symbols addresses) infos

  IsFresh-cons :
      (info u : TokenInfo) (symbols addresses : List Text) (chain_id : ℕ) (typ : TokenType)
      → canonical_symbol info ≡ info.symbol
      → canonical_symbol u ≡ u.symbol
      → IsFresh (canonical_symbol info ∷ symbols) (lower_hex e info.address ∷ addresses) u
      → (u.symbol ≢ info.symbol) × (u.address ≢ info.address) × IsFresh symbols addresses u
  unfolding contains
  IsFresh-cons info u symbols addresses chain_id typ ci cu (hs, ha) =
      let symbols_differ = eqb-false (canonical_symbol info) (canonical_symbol u) (ground arith) in
      let addresses_differ =
        eqb-false (lower_hex e info.address) (lower_hex e u.address) (ground arith) in
      (
        λ p. symbols_differ (ci ∙ sym p ∙ sym cu),
        λ p. addresses_differ (ap (lower_hex e) (sym p)),
        (ground arith, ground arith),
      )

  All-zip :
      {P Q R : TokenInfo → Type 0} (xs : List TokenInfo)
      → ((x : TokenInfo) → P x → Q x → R x)
      → All P xs
      → All Q xs
      → All R xs
  All-zip [] f _ _ = tt
  All-zip (x ∷ xs) f (p, ps) (q, qs) = (f x p q, All-zip xs f ps qs)

  convert_from-cons :
      (t : FileToken) (ts : List FileToken) (chain_id : ℕ) (typ : TokenType) (idx : ℕ)
      (symbols addresses : List Text) (infos : List TokenInfo)
      → convert_from e (t ∷ ts) chain_id typ idx symbols addresses ≡ ok infos
      → (info : TokenInfo) × (rest : List TokenInfo) × (convert_token e t chain_id typ idx
          ≡ ok info)
        × IsFresh symbols addresses info
        × (convert_from e ts chain_id typ
              (idx + 1)
              (canonical_symbol info ∷ symbols)
              (lower_hex e info.address ∷ addresses)
            ≡ ok rest)
        × (info ∷ rest ≡ infos)
  unfolding convert_from
  convert_from-cons t ts chain_id typ idx symbols addresses infos h =
      let (info, h1, r1) = >>=-eq-ok (convert_token e t chain_id typ idx) _ h in
      let (h2, r2) =
        reject-ok (contains (canonical_symbol info) symbols) (duplicate_symbol info.symbol) _ r1 in
      let (h3, r3) =
        reject-ok (contains (lower_hex e info.address) addresses) (duplicate_address info.address) _
          r2 in
      let (rest, h4, r4) =
        >>=-eq-ok
          (convert_from e ts chain_id typ (idx + 1) (canonical_symbol info ∷ symbols)
            (lower_hex e info.address ∷ addresses))
          _ r3 in
      (info, rest, h1, (h2, h3), h4, ground arith)

  convert_from-nil :
      (chain_id : ℕ) (typ : TokenType) (idx : ℕ) (symbols addresses : List Text)
      (infos : List TokenInfo)
      → convert_from e [] chain_id typ idx symbols addresses ≡ ok infos
      → [] ≡ infos
  unfolding convert_from
  convert_from-nil chain_id typ idx symbols addresses infos h = ground arith

  convert_from-IsList :
      (ts : List FileToken) (chain_id : ℕ) (typ : TokenType) (idx : ℕ)
      (symbols addresses : List Text) (infos : List TokenInfo)
      → convert_from e ts chain_id typ idx symbols addresses ≡ ok infos
      → IsList ts chain_id typ symbols addresses infos
  convert_from-IsList [] chain_id typ idx symbols addresses infos h =
      subst (IsList [] chain_id typ symbols addresses)
        (convert_from-nil chain_id typ idx symbols addresses infos h)
        (record { loaded = tt; distinct = tt; same_symbols = refl; fresh = tt })
  convert_from-IsList (t ∷ ts) chain_id typ idx symbols addresses infos h =
      let (info, rest, h1, fresh, h2, same) =
        convert_from-cons t ts chain_id typ idx symbols addresses infos h in
      let (good, sym_eq) = convert_token-IsLoaded t chain_id typ idx info h1 in
      let ih =
        convert_from-IsList ts chain_id typ (idx + 1) (canonical_symbol info ∷ symbols)
          (lower_hex e info.address ∷ addresses) rest h2 in
      let apart =
        All-zip
          {R = λ u.
            (u.symbol ≢ info.symbol) × (u.address ≢ info.address) × IsFresh symbols addresses u}
          rest
          (λ u l f. IsFresh-cons info u symbols addresses chain_id typ good.canonical l.canonical f)
          ih.loaded ih.fresh in
      subst (IsList (t ∷ ts) chain_id typ symbols addresses) same (record {
        loaded = (good, ih.loaded);
        distinct = (All-implies _ _ rest (λ u d. (d.0, d.1)) apart, ih.distinct);
        same_symbols = cc (sym_eq, ih.same_symbols);
        fresh = (fresh, All-implies _ _ rest (λ u d. d.2) apart);
      })

-- A token list that loads has one token for each entry, in the order of the file, under the
-- entry's symbol; each is well formed, and no two share a symbol or an address.
pub convert_tokens-IsLoaded :
    (e : EthCommon) (ts : List FileToken) (chain_id : ℕ) (typ : TokenType) (infos : List TokenInfo)
    → convert_tokens e ts chain_id typ ≡ ok infos
    → All (IsLoaded chain_id typ) infos
      × Distinct infos
      × (map (λ t. t.symbol) infos ≡ map (λ t. to_upper (trim_space t.symbol)) ts)
unfolding convert_tokens
convert_tokens-IsLoaded e ts chain_id typ infos h =
    let r = convert_from-IsList e ts chain_id typ 0 [] [] infos h in
    (r.loaded, r.distinct, r.same_symbols)
