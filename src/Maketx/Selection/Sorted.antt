-- ===== src/Maketx/Selection/Sorted.antt =====
-- The order in which coinSelection takes the coins.
use bitbox_wallet_app.Prelude.{
  ℕ, zero, suc, ◌+◌, ◌-◌, ◌≤◌, ◌<◌, ◌≡◌, Bool, true, false, List, [], ◌∷◌, arith, length, take,
  select, All, Bool-cases, inl, inr,
}
use bitbox_wallet_app.Prelude.Int64.{half, lt}
use bitbox_wallet_app.Maketx.Types.{Coin}
use bitbox_wallet_app.Maketx.Selection.{value, less, insert, sort_reverse}
use bitbox_wallet_app.Maketx.Selection.Total.{total}

-- No coin is worth more than `bound`.
abbrev pub AtMost : ℕ → List Coin → Type 0
AtMost bound = All (λ c. value c ≤ bound)

abbrev pub IsDescending : List Coin → Type 0
IsDescending [] = Unit
IsDescending (c ∷ cs) = AtMost (value c) cs × IsDescending cs

AtMost-trans : (a b : ℕ) (cs : List Coin) → a ≤ b → AtMost a cs → AtMost b cs
AtMost-trans a b [] h m = tt
AtMost-trans a b (c ∷ cs) h m = (omega arith, AtMost-trans a b cs h m.1)

module _ (hash_string : List ℕ → List ℕ) where
  insert-All :
      (P : Coin → Type 0) (c : Coin) (cs : List Coin)
      → P c
      → All P cs
      → All P (insert hash_string c cs)
  unfolding insert
  insert-All P c [] h m = (h, tt)
  insert-All P c (d ∷ ds) h m = elim (Bool-cases (less hash_string c d)) [
    | inl e ↦ rw e (m.0, insert-All P c ds h m.1)
    | inr e ↦ rw e (h, m)
  ]

  pub sort_reverse-All :
      (P : Coin → Type 0) (cs : List Coin) → All P cs → All P (sort_reverse hash_string cs)
  unfolding sort_reverse
  sort_reverse-All P [] h = tt
  sort_reverse-All P (c ∷ cs) h = insert-All P c _ h.0 (sort_reverse-All P cs h.1)

  less_cases :
      (c d : Coin)
      → value c < half
      → value d < half
      → ((less hash_string c d ≡ true) → value c ≤ value d)
        × ((less hash_string c d ≡ false) → value d ≤ value c)
  unfolding less lt
  less_cases c d h k = ground arith

  insert-IsDescending :
      (c : Coin) (cs : List Coin)
      → value c < half
      → AtMost (half - 1) cs
      → IsDescending cs
      → IsDescending (insert hash_string c cs)
  unfolding insert
  insert-IsDescending c [] h k s = (tt, tt)
  insert-IsDescending c (d ∷ ds) h k s =
      let (below, above) = less_cases c d h (omega arith) in
      elim (Bool-cases (less hash_string c d)) [
        | inl e ↦ rw e (
          insert-All (λ x. value x ≤ value d) c ds (below e) s.0,
          insert-IsDescending c ds h k.1 s.1,
        )
        | inr e ↦ rw e ((above e, AtMost-trans (value d) (value c) ds (above e) s.0), s)
      ]

  pub sort_reverse-IsDescending :
      (cs : List Coin) → AtMost (half - 1) cs → IsDescending (sort_reverse hash_string cs)
  unfolding sort_reverse
  sort_reverse-IsDescending [] h = tt
  sort_reverse-IsDescending (c ∷ cs) h =
      insert-IsDescending c _ (omega arith) (sort_reverse-All (λ x. value x ≤ half - 1) cs h.1)
        (sort_reverse-IsDescending cs h.1)

pub AtMost-total : (bound : ℕ) (cs : List Coin) → total cs ≤ bound → AtMost bound cs
AtMost-total bound [] h = tt
AtMost-total bound (c ∷ cs) h = (omega arith, AtMost-total bound cs (omega arith))

-- A coin before the others replaces the last of those taken.
total-take_shift :
    (c : Coin) (k : ℕ) (cs : List Coin)
    → AtMost (value c) cs
    → total (take (suc k) cs) ≤ value c + total (take k cs)
total-take_shift c k [] m = omega arith
total-take_shift c zero (d ∷ ds) m = omega arith
total-take_shift c (suc k) (d ∷ ds) m = omega (arith, total-take_shift c k ds m.1)

-- Among descending coins, no choice of so many is worth more than the first so many.
pub total-select-le :
    (p : Coin → Bool) (cs : List Coin)
    → IsDescending cs
    → total (select p cs) ≤ total (take (length (select p cs)) cs)
total-select-le p [] s = omega arith
total-select-le p (c ∷ cs) s =
    let n = length (select p cs) in
    elim (Bool-cases (p c)) [
      | inl e ↦ rw e (omega (arith, total-select-le p cs s.1))
      | inr e ↦ rw e (
          elim n
              as (λ k.
                total (select p cs) ≤ total (take k cs)
                → total (select p cs) ≤ total (take k (c ∷ cs))) [
                  | zero ↦ λ h. h
                  | suc k ↦ λ h. omega (arith, total-take_shift c k cs s.0)
                ]
            (total-select-le p cs s.1))
    ]
