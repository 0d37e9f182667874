-- ===== src/Signing/Configuration/Bytes.antt =====
-- bytes.Equal tells whether two lists are the same.
use mathlib.Core.Path.{ap₂}
use bitbox_wallet_app.Prelude.{
  ℕ, ◌≡◌, ◌≢◌, refl, true, false, List, [], ◌∷◌, ◌==◌, ==_iff, ==_self, Bool-cases, inl, inr,
}
use bitbox_wallet_app.Signing.Configuration.{same_bytes}

abbrev Text : Type 0
Text = List ℕ

pub same_bytes-true : (a b : Text) → same_bytes a b ≡ true → a ≡ b
unfolding same_bytes
same_bytes-true [] [] e = refl
same_bytes-true [] (y ∷ b) e = cc
same_bytes-true (x ∷ a) [] e = cc
same_bytes-true (x ∷ a) (y ∷ b) e = elim (Bool-cases (x == y)) [
  | inl same ↦
      ap₂ (λ (n : ℕ) (s : Text). n ∷ s) ((==_iff x y).0 same) (same_bytes-true a b (rw same at e))
  | inr differ ↦ let r = rw differ at e in cc
]

pub same_bytes_refl : (a : Text) → same_bytes a a ≡ true
unfolding same_bytes
same_bytes_refl [] = refl
same_bytes_refl (x ∷ a) = rw (==_self x, same_bytes_refl a) refl

pub same_bytes-false : (a b : Text) → same_bytes a b ≡ false → a ≢ b
same_bytes-false a b e = λ q. (let r = rw (q, same_bytes_refl b) at e in cc)

pub same_bytes_off : (a b : List ℕ) → a ≢ b → same_bytes a b ≡ false
same_bytes_off a b h = elim (Bool-cases (same_bytes a b)) [
  | inl e ↦ absurd (h (same_bytes-true a b e))
  | inr e ↦ e
]
