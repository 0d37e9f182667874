-- ===== src/Maketx/Selection/Enough.antt =====
-- What coinSelection returns: the shortest prefix of the descending coins that reaches the amount.
use bitbox_wallet_app.Prelude.{
  ℕ, zero, suc, ◌+◌, ◌≤◌, ◌<◌, ◌≡◌, refl, ◌∙◌, ap, Bool, List, [], ◌∷◌, ◌++◌, arith, length, take,
  select, Bool-cases, inl, inr, ◌⊎◌, length-take, take-length, leb, ltb,
}
use native.Mathlib.Nat.{zero-add}
use mathlib.Core.Path.{ap₂}
use mathlib.Core.List.{append-nil, append_assoc}
use bitbox_wallet_app.Prelude.Run.{ok, err}
use bitbox_wallet_app.Prelude.Int64.{half, add-eq, le→true, lt→le_false, lt→true, le→lt_false}
use bitbox_wallet_app.Maketx.Types.{Coin, insufficient_funds}
use bitbox_wallet_app.Maketx.Selection.{value, sort_reverse, select_loop, coin_selection}
use bitbox_wallet_app.Maketx.Selection.Total.{
  total, total-take-le, total-sort_reverse, total-sorted,
}
use bitbox_wallet_app.Maketx.Selection.Sorted.{
  AtMost-total, sort_reverse-IsDescending, total-select-le,
}

-- The loop takes `count` coins of `coins` on top of `sum`.
pub record IsPrefix (min_amount sum : ℕ) (coins : List Coin) (count : ℕ) : Type 0 where
  pub inside : count ≤ length coins
  pub reached : (min_amount ≤ sum + total (take count coins)) ⊎ (count ≡ length coins)
  pub shortest : (j : ℕ) → j < count → sum + total (take j coins) < min_amount

select_loop-IsPrefix :
    (min_amount : ℕ) (coins : List Coin) (sum : ℕ) (selected : List Coin)
    → sum + total coins < half
    → min_amount < half
    → (count : ℕ) × IsPrefix min_amount sum coins count
      × (select_loop min_amount coins sum selected
          ≡ (sum + total (take count coins), selected ++ take count coins))
unfolding select_loop
select_loop-IsPrefix m [] sum sel h k = (
  0,
  record { inside = omega arith; reached = inr refl; shortest = λ j p. absurd (omega arith) },
  rw append-nil (ap₂ (λ a b. (a, b)) (omega arith) refl),
)
select_loop-IsPrefix m (c ∷ cs) sum sel h k = elim (Bool-cases (leb m sum)) [
  | inl e ↦ (
    0,
    record {
      inside = omega arith;
      reached = inl (ground arith);
      shortest = λ j p. absurd (omega arith);
    },
    rw (le→true m sum (ground arith) (omega arith), append-nil)
        (ap₂ (λ a b. (a, b)) (omega arith) refl),
  )
  | inr e ↦
      let small : sum < m = ground arith in
      let (n, found, r) =
        select_loop-IsPrefix m cs (sum + value c) (sel ++ c ∷ []) (omega arith) k in
      (
        suc n,
        record {
          inside = omega (arith, found.inside);
          reached = elim (found.reached) [ inl g ↦ inl (omega arith) | inr g ↦ inr (ap suc g) ];
          shortest = elim [
            | zero ↦ λ p. omega arith
            | suc j ↦ λ p. omega (arith, found.shortest j (omega arith))
          ];
        },
        rw (lt→le_false m sum small k, add-eq sum (value c) (omega arith))
            (r ∙ ap₂ (λ a b. (a, b)) (omega arith) (append_assoc sel (c ∷ []) (take n cs))),
      )
]

module _ (hash_string : List ℕ → List ℕ) (min_amount : ℕ) (outputs : List Coin)
    (fits : total outputs < half) (min_fits : min_amount < half) where
  abbrev sorted : List Coin
  sorted = sort_reverse hash_string outputs

  -- Where the sums fit in int64, coinSelection takes the shortest prefix, in descending order of value, of
  -- the coins that reaches the amount, and reports insufficient funds exactly if all coins together
  -- do not reach it.
  pub coin_selection_cases :
      (count : ℕ) × IsPrefix min_amount 0 sorted count
      × (count ≤ length outputs)
      × ((min_amount ≤ total outputs)
            × (min_amount ≤ total (take count sorted))
            × (coin_selection hash_string min_amount outputs
                ≡ ok (total (take count sorted), take count sorted))
          ⊎ (total outputs < min_amount)
            × (coin_selection hash_string min_amount outputs ≡ err insufficient_funds))
  unfolding coin_selection
  coin_selection_cases =
      let (n, found, r) =
        select_loop-IsPrefix min_amount sorted 0 []
          (omega (arith, total-sorted hash_string outputs)) min_fits in
      let part = total-take-le n sorted in
      let sizes = total-sorted hash_string outputs in
      (
        n,
        found,
        omega (arith, found.inside),
        elim (Bool-cases (ltb (total (take n sorted)) min_amount)) [
          | inl e ↦
              let low : total (take n sorted) < min_amount = ground arith in
              inr (
                elim (found.reached) [
                  | inl g ↦ absurd (omega arith)
                  | inr g ↦
                      let whole : take n sorted ≡ sorted = rw g (take-length sorted) in
                      omega (arith, ap total whole)
                ],
                rw (r, zero-add, lt→true (total (take n sorted)) min_amount low min_fits),
              )
          | inr e ↦
              let high : min_amount ≤ total (take n sorted) = ground arith in
              inl (
                omega arith,
                high,
                rw (r, zero-add, le→lt_false (total (take n sorted)) min_amount high (omega arith)),
              )
        ],
      )

  -- Where the sums fit in int64, no set of the wallet's coins reaches the amount with fewer coins than
  -- coinSelection returns.
  pub coin_selection_optimal :
      (p : Coin → Bool) (sum : ℕ) (selected : List Coin)
      → coin_selection hash_string min_amount outputs ≡ ok (sum, selected)
      → min_amount ≤ total (select p outputs)
      → length selected ≤ length (select p outputs)
  coin_selection_optimal p sum selected e h =
      let (n, found, _, c) = coin_selection_cases in
      let q = total-sort_reverse hash_string p outputs in
      let m = length (select p sorted) in
      let best =
        total-select-le p sorted
          (sort_reverse-IsDescending hash_string outputs (AtMost-total _ outputs (omega arith))) in
      elim c [
        | inl (_, _, r) ↦
            let same : selected ≡ take n sorted = cc in
            let big : min_amount ≤ total (take m sorted) = omega arith in
            let k : n ≤ m = elim (Bool-cases (ltb m n)) [
              | inl l ↦ absurd (omega (arith, found.shortest m (ground arith)))
              | inr l ↦ ground arith
            ] in
            rw same (omega (arith, length-take n sorted))
        | inr (_, r) ↦ cc
      ]
