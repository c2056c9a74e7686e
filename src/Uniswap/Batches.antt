-- ===== src/Uniswap/Batches.antt =====
-- The requests of a subscription: every address once, in order, and no request too large.
use mathlib.Core.List.{flatten}
use screener_cd.Prelude.{
  ℕ, zero, suc, ◌+◌, ◌≤◌, ◌<◌, ◌≡◌, refl, ap, ◌∙◌, Bool, false, List, [], ◌∷◌, ◌++◌, map, Option,
  none, some, some_inj, arith, All, Bool-cases, inl, inr, length, take, drop, take-append-drop,
  length-drop, length-take,
}
use screener_cd.Prelude.Int.{ℤ, pos, negsuc}
use screener_cd.Text.{Text}
use screener_cd.Uniswap.Session.{RpcRequest, batch_size, subscribe_loop, subscribe_all}

-- A request for at least one address, and for no more than the size.
abbrev pub IsShort : ℕ → RpcRequest → Type 0
IsShort size r = (0 < length r.addresses) × (length r.addresses ≤ size)

-- The numbers of the requests are consecutive.
abbrev pub IsNumbered : ℕ → List RpcRequest → Type 0
IsNumbered id [] = Unit
IsNumbered id (r ∷ rs) = (r.id ≡ id) × IsNumbered (id + 1) rs

abbrev pub addresses_of : List RpcRequest → List Text
addresses_of rs = flatten (map (λ (r : RpcRequest). r.addresses) rs)

-- What is known of the requests that were written and of the failure, if any.
pub record IsCovering (write : ℕ → Bool) (size id : ℕ) (addresses : List Text)
    (r : List RpcRequest × Option ℕ) : Type 0 where
  pub covered : r.1 ≡ none → addresses_of r.0 ≡ addresses
  pub short : All (IsShort size) r.0
  pub numbered : IsNumbered id r.0
  pub failed : (k : ℕ) → r.1 ≡ some k → write k ≡ false

batch_size-positive : (size : ℤ) → 0 < batch_size size
unfolding batch_size
batch_size-positive (pos zero) = omega arith
batch_size-positive (pos (suc n)) = omega arith
batch_size-positive (negsuc n) = omega arith

module _ (write : ℕ → Bool) (size : ℕ) (positive : 0 < size) where
  nothing_left : (id : ℕ) → IsCovering write size id [] ([], none)
  unfolding flatten
  nothing_left id = record {
    covered = λ h. refl;
    short = tt;
    numbered = tt;
    failed = λ k h. absurd cc;
  }

  subscribe_loop-IsCovering :
      (k id : ℕ) (addresses : List Text)
      → length addresses ≤ k
      → IsCovering write size id addresses (subscribe_loop write size k id addresses)
  unfolding subscribe_loop flatten
  subscribe_loop-IsCovering zero id [] h = nothing_left id
  subscribe_loop-IsCovering (suc k) id [] h = nothing_left id
  subscribe_loop-IsCovering zero id (a ∷ more) h = absurd (omega arith)
  subscribe_loop-IsCovering (suc k) id (a ∷ more) h =
      let rest =
        subscribe_loop-IsCovering k (id + 1) (drop size (a ∷ more))
          (omega (arith, length-drop size (a ∷ more))) in
      elim (Bool-cases (write id)) [
        | inl written ↦ rw written (record {
          covered = λ done.
              ap (λ t. take size (a ∷ more) ++ t) (rest.covered done)
              ∙ take-append-drop size (a ∷ more);
          short = (
            (
              ground (arith, length-take size (a ∷ more)),
              ground (arith, length-take size (a ∷ more)),
            ),
            rest.short,
          );
          numbered = (refl, rest.numbered);
          failed = rest.failed;
        })
        | inr refused ↦ rw refused (record {
          covered = λ done. absurd cc;
          short = tt;
          numbered = tt;
          failed = λ j here. rw⁻¹ (some_inj here) refused;
        })
      ]

-- If `subscribeAll` ends without an error, its requests carry all addresses, in order and each
-- once; if it ends with one, the request of that number could not be written. In both cases each
-- request that was written has an address, and no more of them than the size, and the numbers of
-- the requests are consecutive from 1.
pub subscribe_all-IsCovering :
    (write : ℕ → Bool) (size : ℤ) (addresses : List Text)
    → IsCovering write (batch_size size) 1 addresses (subscribe_all write size addresses)
unfolding subscribe_all
subscribe_all-IsCovering write size addresses =
    subscribe_loop-IsCovering write (batch_size size) (batch_size-positive size) (length addresses)
      1 addresses (omega arith)
