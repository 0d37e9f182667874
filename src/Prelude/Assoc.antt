-- ===== src/Prelude/Assoc.antt =====
-- Maps and buckets as association lists, for a key type with a Boolean equality.
use mathlib.Core.Path.{◌≡◌, refl, sym, ◌∙◌}
use mathlib.Core.Logic.{◌≢◌, ◌↔◌, inl, inr}
use mathlib.Core.List.{List, [], ◌∷◌}
use mathlib.Core.Option.{Option, none, some}
use mathlib.Core.Bool.{Bool, true, false}
use native.Mathlib.Omega.{arith}
use bitbox_wallet_app.Prelude.Tests.{if◌then◌else◌, Bool-cases}

module _ {ℓ κ} {K : Type ℓ} {V : Type κ} (same : K → K → Bool) where
  unfoldable pub find : K → List (K × V) → Option V
  find k [] = none
  find k (e ∷ es) = let rest = find k es in if same k e.0 then some e.1 else rest

  -- A key that is there keeps its place.
  unfoldable pub put : K → V → List (K × V) → List (K × V)
  put k v [] = (k, v) ∷ []
  put k v (e ∷ es) = let rest = put k v es in if same k e.0 then (k, v) ∷ es else e ∷ rest

  unfoldable pub delete : K → List (K × V) → List (K × V)
  delete k [] = []
  delete k (e ∷ es) = let rest = delete k es in if same k e.0 then rest else e ∷ rest

module _ {ℓ} {K : Type ℓ} (same : K → K → Bool)
    (same_iff : (a b : K) → (same a b ≡ true) ↔ (a ≡ b)) where
  same_refl : (k : K) → same k k ≡ true
  same_refl k = (same_iff k k).1 refl

  same-false : (j k : K) → j ≢ k → same j k ≡ false
  same-false j k h = elim (Bool-cases (same j k)) [
    | inl e ↦ absurd (h ((same_iff j k).0 e))
    | inr e ↦ e
  ]

module _ {ℓ κ} {K : Type ℓ} {V : Type κ} (same : K → K → Bool)
    (same_iff : (a b : K) → (same a b ≡ true) ↔ (a ≡ b)) where
  pub find-put_same : (k : K) (v : V) (m : List (K × V)) → find same k (put same k v m) ≡ some v
  unfolding find put
  find-put_same k v [] = ground (arith, same_refl same same_iff k)
  find-put_same k v (e ∷ es) = ground (arith, same_refl same same_iff k, find-put_same k v es)

  pub find-put_other :
      (j k : K) (v : V) (m : List (K × V)) → j ≢ k → find same j (put same k v m) ≡ find same j m
  unfolding find put
  find-put_other j k v [] h = ground (arith, same-false same same_iff j k h)
  find-put_other j k v (e ∷ es) h = elim (Bool-cases (same k e.0)) [
    | inl s ↦
        let at : k ≡ e.0 = (same_iff k e.0).0 s in
        let differs : same j e.0 ≡ false = same-false same same_iff j e.0 (λ p. h (p ∙ sym at)) in
        rw (s, put, differs, same-false same same_iff j k h, find) refl
    | inr s ↦ rw (s, put, find-put_other j k v es h) refl
  ]

  pub find-delete_same : (k : K) (m : List (K × V)) → find same k (delete same k m) ≡ none
  unfolding find delete
  find-delete_same k [] = refl
  find-delete_same k (e ∷ es) = ground (arith, find-delete_same k es)

  pub find-delete_other :
      (j k : K) (m : List (K × V)) → j ≢ k → find same j (delete same k m) ≡ find same j m
  unfolding find delete
  find-delete_other j k [] h = refl
  find-delete_other j k (e ∷ es) h = elim (Bool-cases (same k e.0)) [
    | inl s ↦
        let at : k ≡ e.0 = (same_iff k e.0).0 s in
        let differs : same j e.0 ≡ false = same-false same same_iff j e.0 (λ p. h (p ∙ sym at)) in
        rw (s, delete, differs, find, find-delete_other j k es h) refl
    | inr s ↦ rw (s, delete, find-delete_other j k es h) refl
  ]
