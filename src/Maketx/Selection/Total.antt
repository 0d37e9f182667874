-- ===== src/Maketx/Selection/Total.antt =====
-- The total of a list of coins, and what sorting and selecting make of it.
use bitbox_wallet_app.Prelude.{
  ℕ, zero, suc, ◌+◌, ◌≤◌, ◌≡◌, refl, Bool, List, [], ◌∷◌, ◌++◌, arith, length, take, select,
  select-all, true,
}
use bitbox_wallet_app.Maketx.Types.{Coin}
use bitbox_wallet_app.Maketx.Selection.{value, insert, sort_reverse}

-- The mathematical sum.
abbrev pub total : List Coin → ℕ
total [] = 0
total (c ∷ cs) = value c + total cs

pub total-append : (cs ds : List Coin) → total (cs ++ ds) ≡ total cs + total ds
total-append [] ds = omega arith
total-append (c ∷ cs) ds = omega (arith, total-append cs ds)

pub total-take-le : (k : ℕ) (cs : List Coin) → total (take k cs) ≤ total cs
total-take-le zero cs = omega arith
total-take-le (suc k) [] = omega arith
total-take-le (suc k) (c ∷ cs) = omega (arith, total-take-le k cs)

module _ (hash_string : List ℕ → List ℕ) (p : Coin → Bool) where
  total-insert :
      (c : Coin) (cs : List Coin)
      → (total (select p (insert hash_string c cs)) ≡ total (select p (c ∷ cs)))
        × (length (select p (insert hash_string c cs)) ≡ length (select p (c ∷ cs)))
  unfolding insert
  total-insert c [] = (refl, refl)
  total-insert c (d ∷ ds) = ground (arith, total-insert c ds)

  -- Sorting keeps the number and the total of the coins that pass a test.
  pub total-sort_reverse :
      (cs : List Coin)
      → (total (select p (sort_reverse hash_string cs)) ≡ total (select p cs))
        × (length (select p (sort_reverse hash_string cs)) ≡ length (select p cs))
  unfolding sort_reverse
  total-sort_reverse [] = (refl, refl)
  total-sort_reverse (c ∷ cs) =
      ground (arith, total-insert c (sort_reverse hash_string cs), total-sort_reverse cs)

pub total-sorted :
    (hash_string : List ℕ → List ℕ) (cs : List Coin)
    → (total (sort_reverse hash_string cs) ≡ total cs)
      × (length (sort_reverse hash_string cs) ≡ length cs)
total-sorted hash_string cs = simp select-all at (total-sort_reverse hash_string (λ _. true) cs)

pub total-take_mono : (j k : ℕ) (cs : List Coin) → j ≤ k → total (take j cs) ≤ total (take k cs)
total-take_mono zero k cs h = omega arith
total-take_mono (suc j) zero cs h = absurd (omega arith)
total-take_mono (suc j) (suc k) [] h = omega arith
total-take_mono (suc j) (suc k) (c ∷ cs) h = omega (arith, total-take_mono j k cs (omega arith))
