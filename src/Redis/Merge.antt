-- ===== src/Redis/Merge.antt =====
-- What `mergeAndDelete` does to the hashes of a Redis server.
use mathlib.Core.Path.{subst}
use screener_cd.Prelude.{
  ℕ, ◌≡◌, ◌≢◌, refl, sym, ap, ◌∙◌, ◌⊎◌, inl, inr, Bool, true, false, [], ◌∷◌, Option, none, some,
  arith, Option-cases, Bool-cases,
}
use screener_cd.Prelude.Int.{ℤ}
use screener_cd.Prelude.Dict.{lookup, insert}
use screener_cd.Text.{Text, text_eq, eqb, eqb_iff}
use screener_cd.Redis.Normalize.{
  Fields, RedisOps, field_exchange, field_symbol, flatten_fields, renamed, is_fresher, is_blank,
  finish, rename_dest, merge_into, merge_fields, merge_and_delete,
}
use screener_cd.Redis.Flatten.{
  first_of, lookup-flatten_fields, Distinct, insert-Distinct, flatten_fields-Distinct,
}

-- What the code relies on of the commands: `view s k` is the hash of `k`, empty if there is none.
-- A command touches its own key and, of a hash, its own fields; it does what it says unless it
-- reports an error, and DEL does nothing else to its key.
pub record IsRedis {S : Type 0} (r : RedisOps S) (view : S → Text → Fields) : Type 0 where
  pub hget_all_eq : (s : S) (k : Text) (m : Fields) → r.hget_all s k ≡ some m → m ≡ view s k
  pub hset_other :
      (k : Text) (fs : Fields) (s : S) (j : Text) → k ≢ j → view (r.hset k fs s).0 j ≡ view s j
  pub hset_unnamed :
      (k : Text) (fs : Fields) (s : S) (f : Text)
      → lookup f fs ≡ none
      → lookup f (view (r.hset k fs s).0 k) ≡ lookup f (view s k)
  pub hset_done :
      (k : Text) (fs : Fields) (s : S) (f : Text)
      → Distinct fs
      → (r.hset k fs s).1 ≡ true
      → lookup f (view (r.hset k fs s).0 k) ≡ first_of (lookup f fs) (lookup f (view s k))
  pub del_other : (k : Text) (s : S) (j : Text) → k ≢ j → view (r.del k s).0 j ≡ view s j
  pub del_self :
      (k : Text) (s : S) → (view (r.del k s).0 k ≡ []) ⊎ (view (r.del k s).0 k ≡ view s k)
  pub del_done : (k : Text) (s : S) → (r.del k s).1 ≡ true → view (r.del k s).0 k ≡ []

module _ {S : Type 0} (r : RedisOps S) (view : S → Text → Fields)
    (parse_int : Text → Option ℤ) where
  -- From `s` to `t` the hash of `src` moved to `dest`.
  pub record IsMoved (src dest exchange symbol : Text) (s t : S) : Type 0 where
    pub gone : view t src ≡ []
    pub others_kept : (j : Text) → j ≢ src → j ≢ dest → view t j ≡ view s j
    pub fresher :
        is_blank (view s src) ≡ false
        → is_fresher parse_int (renamed exchange symbol (view s src)) (view s dest) ≡ true
        → (f : Text)
        → lookup f (view t dest)
          ≡ first_of (lookup f (renamed exchange symbol (view s src))) (lookup f (view s dest))
    pub older :
        is_fresher parse_int (renamed exchange symbol (view s src)) (view s dest) ≡ false
        → (f : Text) → f ≢ field_exchange
        → f ≢ field_symbol
        → lookup f (view t dest) ≡ lookup f (view s dest)

  renamed-Distinct : (e y : Text) (m : Fields) → Distinct m → Distinct (renamed e y m)
  unfolding renamed
  renamed-Distinct e y m d = elim (Bool-cases (eqb y [])) [
    | inl b ↦ rw b (insert-Distinct field_exchange e m d)
    | inr b ↦ rw b (
        insert-Distinct field_symbol y (insert field_exchange e m)
          (insert-Distinct field_exchange e m d))
  ]

  module _ (law : IsRedis r view) where
    -- A write of one field leaves the other fields.
    write_one :
        (k g v : Text) (s : S) (f : Text)
        → f ≢ g
        → lookup f (view (r.hset k ((g, v) ∷ []) s).0 k) ≡ lookup f (view s k)
    unfolding lookup
    write_one k g v s f ne = law.hset_unnamed k ((g, v) ∷ []) s f (ground (arith, eqb_iff g f))

    rename_dest-other :
        (dest e y : Text) (m : Fields) (s : S) (j : Text)
        → dest ≢ j
        → view (rename_dest r parse_int dest e y m s) j ≡ view s j
    unfolding rename_dest
    rename_dest-other dest e y m s j ne =
        let s1 = (r.hset dest ((field_exchange, e) ∷ []) s).0 in
        ground (
          arith,
          law.hset_other dest ((field_exchange, e) ∷ []) s j ne,
          law.hset_other dest ((field_symbol, y) ∷ []) s1 j ne,
        )

    rename_dest-field :
        (dest e y : Text) (m : Fields) (s : S) (f : Text)
        → f ≢ field_exchange
        → f ≢ field_symbol
        → lookup f (view (rename_dest r parse_int dest e y m s) dest) ≡ lookup f (view s dest)
    unfolding rename_dest
    rename_dest-field dest e y m s f ne ny =
        let s1 = (r.hset dest ((field_exchange, e) ∷ []) s).0 in
        ground
          (arith, write_one dest field_exchange e s f ne, write_one dest field_symbol y s1 f ny)

    -- A merge that ends without an error has written and deleted.
    finish-some :
        (src : Text) (p : S × Bool) (n : ℕ) (t : S)
        → finish r parse_int src p ≡ (some n, t)
        → (p.1 ≡ true) × ((r.del src p.0).1 ≡ true) × (t ≡ (r.del src p.0).0)
    unfolding finish
    finish-some src (s, true) n t h = elim (Bool-cases (r.del src s).1) [
      | inl done ↦ (refl, done, sym (ap (λ x. x.1) h))
      | inr failed ↦ absurd (cc (ap (λ x. x.0) (rw failed at h)))
    ]
    finish-some src (s, false) n t h = absurd (cc (ap (λ x. x.0) h))

    -- The three ways in which a hash moves.
    empty-IsMoved :
        (src dest e y : Text) (s : S)
        → src ≢ dest
        → [] ≡ view s src
        → IsMoved src dest e y s (r.del src s).0
    empty-IsMoved src dest e y s ne none_there = record {
      gone = elim (law.del_self src s) [ inl gone ↦ gone | inr kept ↦ kept ∙ sym none_there ];
      others_kept = λ j ns nd. law.del_other src s j (λ q. ns (sym q));
      fresher = λ filled. absurd (cc (ap is_blank none_there));
      older = λ o f nf ny. ap (lookup f) (law.del_other src s dest ne);
    }

    written-IsMoved :
        (src dest e y : Text) (s : S)
        → Distinct (view s src)
        → src ≢ dest
        → is_fresher parse_int (renamed e y (view s src)) (view s dest) ≡ true
        → (r.hset dest (flatten_fields (renamed e y (view s src))) s).1 ≡ true
        → (r.del src (r.hset dest (flatten_fields (renamed e y (view s src))) s).0).1 ≡ true
        → IsMoved src dest e y s
            (r.del src (r.hset dest (flatten_fields (renamed e y (view s src))) s).0).0
    written-IsMoved src dest e y s hash ne fresh written gone =
        let fs = renamed e y (view s src) in
        let s1 = (r.hset dest (flatten_fields fs) s).0 in
        record {
          gone = law.del_done src s1 gone;
          others_kept = λ j ns nd.
              law.del_other src s1 j (λ q. ns (sym q))
              ∙ law.hset_other dest (flatten_fields fs) s j (λ q. nd (sym q));
          fresher = λ filled again f.
              ap (lookup f) (law.del_other src s1 dest ne)
              ∙ law.hset_done dest (flatten_fields fs) s f
                  (flatten_fields-Distinct fs (renamed-Distinct e y (view s src) hash)) written
              ∙ ap (λ o. first_of o (lookup f (view s dest))) (lookup-flatten_fields f fs);
          older = λ o. absurd cc;
        }

    kept-IsMoved :
        (src dest e y : Text) (s : S)
        → src ≢ dest
        → is_fresher parse_int (renamed e y (view s src)) (view s dest) ≡ false
        → (r.del src (rename_dest r parse_int dest e y (view s dest) s)).1 ≡ true
        → IsMoved src dest e y s (r.del src (rename_dest r parse_int dest e y (view s dest) s)).0
    kept-IsMoved src dest e y s ne stale gone =
        let s1 = rename_dest r parse_int dest e y (view s dest) s in
        record {
          gone = law.del_done src s1 gone;
          others_kept = λ j ns nd.
              law.del_other src s1 j (λ q. ns (sym q))
              ∙ rename_dest-other dest e y (view s dest) s j (λ q. nd (sym q));
          fresher = λ filled again. absurd cc;
          older = λ o f nf ny.
              ap (lookup f) (law.del_other src s1 dest ne)
              ∙ rename_dest-field dest e y (view s dest) s f nf ny;
        }

    filled-IsMoved :
        (src dest e y : Text) (s t : S)
        → Distinct (view s src)
        → src ≢ dest
        → merge_into r parse_int src dest e y (renamed e y (view s src)) (some (view s dest)) s
          ≡ (some 1, t)
        → IsMoved src dest e y s t
    unfolding merge_into
    filled-IsMoved src dest e y s t hash ne h =
        let fs = renamed e y (view s src) in
        elim (Bool-cases (is_fresher parse_int fs (view s dest))) [
          | inl fresh ↦
              let (written, gone, same) =
                finish-some src (r.hset dest (flatten_fields fs) s) 1 t (rw fresh at h) in
              subst (IsMoved src dest e y s) (sym same)
                (written-IsMoved src dest e y s hash ne fresh written gone)
          | inr stale ↦
              let (_, gone, same) =
                finish-some src (rename_dest r parse_int dest e y (view s dest) s, true) 1 t
                  (rw stale at h) in
              subst (IsMoved src dest e y s) (sym same) (kept-IsMoved src dest e y s ne stale gone)
        ]

    fetched-IsMoved :
        (src dest e y : Text) (s t : S) (m : Fields)
        → Distinct (view s src)
        → src ≢ dest
        → m ≡ view s src
        → merge_fields r parse_int src dest e y (some m) s ≡ (some 1, t)
        → IsMoved src dest e y s t
    unfolding merge_fields merge_into
    fetched-IsMoved src dest e y s t [] hash ne same h =
        subst (IsMoved src dest e y s) (ap (λ x. x.1) h) (empty-IsMoved src dest e y s ne same)
    fetched-IsMoved src dest e y s t (g ∷ m) hash ne same h =
        elim (Option-cases (r.hget_all s dest)) [
          | inl failed ↦ absurd (cc (ap (λ x. x.0) (rw failed at h)))
          | inr (old, got) ↦ filled-IsMoved src dest e y s t hash ne (
              subst
                (λ x.
                  merge_into r parse_int src dest e y (renamed e y x) (some (view s dest)) s
                  ≡ (some 1, t))
                same
                (subst
                  (λ x.
                    merge_into r parse_int src dest e y (renamed e y (g ∷ m)) (some x) s
                    ≡ (some 1, t))
                  (law.hget_all_eq s dest old got) (rw got at h)))
        ]

-- If `mergeAndDelete` of two different keys, of which the old one's hash repeats no field, reports
-- a merge, and the commands do what they say,
-- the old key is gone, no third key has changed, and the hash of the new key has the fields of
-- the old one, with the new names, over its own where the old one was no older, and else its own
-- but for the names.
pub merge_and_delete-IsMoved :
    {S : Type 0} (r : RedisOps S) (view : S → Text → Fields) (parse_int : Text → Option ℤ)
    (src dest exchange symbol : Text) (s t : S)
    → IsRedis r view
    → Distinct (view s src)
    → src ≢ dest
    → merge_and_delete r parse_int src dest exchange symbol s ≡ (some 1, t)
    → IsMoved r view parse_int src dest exchange symbol s t
unfolding merge_and_delete merge_fields
merge_and_delete-IsMoved r view parse_int src dest exchange symbol s t law hash ne h =
    let differ : eqb src dest ≡ false = ground (arith, eqb_iff src dest) in
    let fetched = rw differ at h in
    elim (Option-cases (r.hget_all s src)) [
      | inl failed ↦ absurd (cc (ap (λ x. x.0) (rw failed at fetched)))
      | inr (m, got) ↦
          fetched-IsMoved r view parse_int law src dest exchange symbol s t m hash ne
            (law.hget_all_eq s src m got) (rw got at fetched)
    ]
