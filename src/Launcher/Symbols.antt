-- ===== src/Launcher/Symbols.antt =====
-- The names that the sessions subscribe to all have one canonical spot symbol.
use screener_cd.Prelude.{
  ℕ, ◌≡◌, refl, sym, ap, ◌∙◌, true, [], ◌∷◌, ◌==◌, ==_iff, ◌-◌, length, arith, Bool-cases, inl, inr,
  if_intro,
}
use screener_cd.Text.{Text, to_upper, trim_space, remove_byte, replace_byte, upper_byte}
use screener_cd.Text.Laws.{to_upper_idem}
use screener_cd.Util.Helpers.{normalize_spot_symbol, bybit_to_gate_symbol, insert_at}
use screener_cd.Util.Canonical.{
  is_separator, strip, normalize_spot-strip, normalize_spot-bybit_to_gate, strip-insert_at,
  to_upper-strip,
}
use screener_cd.Launcher.Cex.{bitget_inst_id, okx_inst_id}

is_separator_of : (c b : ℕ) → (c == b) ≡ true → is_separator b ≡ true → is_separator c ≡ true
is_separator_of c b same h = ap is_separator ((==_iff c b).0 same) ∙ h

strip-remove_byte : (b : ℕ) (s : Text) → is_separator b ≡ true → strip (remove_byte b s) ≡ strip s
unfolding strip remove_byte
strip-remove_byte b [] h = refl
strip-remove_byte b (c ∷ s) h = elim (Bool-cases (c == b)) [
  | inl same ↦ rw same (strip-remove_byte b s h ∙ rw (is_separator_of c b same h) refl)
  | inr other ↦ rw other (ground (arith, strip-remove_byte b s h))
]

strip-replace_byte :
    (b d : ℕ) (s : Text)
    → is_separator b ≡ true
    → is_separator d ≡ true
    → strip (replace_byte b d s) ≡ strip s
unfolding strip replace_byte
strip-replace_byte b d [] hb hd = refl
strip-replace_byte b d (c ∷ s) hb hd = elim (Bool-cases (c == b)) [
  | inl same ↦ rw (same, hd, is_separator_of c b same hb) (strip-replace_byte b d s hb hd)
  | inr other ↦ rw other (ground (arith, strip-replace_byte b d s hb hd))
]

-- The canonical symbol only depends on what is left without the separators.
same_spot :
    (e s t : Text) → strip s ≡ strip t → normalize_spot_symbol e s ≡ normalize_spot_symbol e t
same_spot e s t h =
    normalize_spot-strip e s
    ∙ ap trim_space (sym (to_upper-strip s) ∙ ap to_upper h ∙ to_upper-strip t)
    ∙ sym (normalize_spot-strip e t)

same_spot-to_upper : (e s : Text) → normalize_spot_symbol e (to_upper s) ≡ normalize_spot_symbol e s
same_spot-to_upper e s =
    normalize_spot-strip e (to_upper s)
    ∙ ap (λ t. trim_space (strip t)) (to_upper_idem s)
    ∙ sym (normalize_spot-strip e s)

bitget_same : (e s : Text) → normalize_spot_symbol e (bitget_inst_id s) ≡ normalize_spot_symbol e s
unfolding bitget_inst_id
bitget_same e s =
    same_spot-to_upper e (remove_byte b'_' (remove_byte b'-' s))
    ∙ same_spot e (remove_byte b'_' (remove_byte b'-' s)) s
        (strip-remove_byte b'_' (remove_byte b'-' s) refl ∙ strip-remove_byte b'-' s refl)

okx_dashed : Text → Text
okx_dashed s = to_upper (replace_byte b'/' b'-' (replace_byte b'_' b'-' s))

okx_dashed-same : (e s : Text) → normalize_spot_symbol e (okx_dashed s) ≡ normalize_spot_symbol e s
unfolding okx_dashed
okx_dashed-same e s =
    same_spot-to_upper e (replace_byte b'/' b'-' (replace_byte b'_' b'-' s))
    ∙ same_spot e (replace_byte b'/' b'-' (replace_byte b'_' b'-' s)) s (
        strip-replace_byte b'/' b'-' (replace_byte b'_' b'-' s) refl refl
        ∙ strip-replace_byte b'_' b'-' s refl refl)

inserted-same :
    (e : Text) (n : ℕ) (s : Text)
    → normalize_spot_symbol e (insert_at n b'-' s) ≡ normalize_spot_symbol e s
unfolding upper_byte
inserted-same e n s =
    normalize_spot-strip e (insert_at n b'-' s)
    ∙ ap trim_space (strip-insert_at n b'-' s refl)
    ∙ sym (normalize_spot-strip e s)

okx_same : (e s : Text) → normalize_spot_symbol e (okx_inst_id s) ≡ normalize_spot_symbol e s
unfolding okx_inst_id okx_dashed
okx_same e s =
    if_intro (λ t. normalize_spot_symbol e t ≡ normalize_spot_symbol e s) _ _ _
      (λ cut. inserted-same e (length (okx_dashed s) - 4) (okx_dashed s) ∙ okx_dashed-same e s)
      (λ whole. okx_dashed-same e s)

-- Whatever the symbol, the names that Gate, Bitget and OKX are subscribed to all have the canonical
-- spot symbol of the symbol itself, which is the name that Bybit is subscribed to.
pub names_agree :
    (e s : Text)
    → (normalize_spot_symbol e (bybit_to_gate_symbol s) ≡ normalize_spot_symbol e s)
      × (normalize_spot_symbol e (bitget_inst_id s) ≡ normalize_spot_symbol e s)
      × (normalize_spot_symbol e (okx_inst_id s) ≡ normalize_spot_symbol e s)
names_agree e s = (normalize_spot-bybit_to_gate e s, bitget_same e s, okx_same e s)
