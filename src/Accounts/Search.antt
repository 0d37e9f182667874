-- ===== src/Accounts/Search.antt =====
-- The binary search finds the first index.
use bitbox_wallet_app.Prelude.{
  ℕ, zero, suc, ◌+◌, ◌-◌, ◌/◌, ◌≤◌, ◌<◌, ◌≡◌, refl, Bool, true, false, arith, ltb, Bool-cases, inl,
  inr, ltb→lt,
}
use bitbox_wallet_app.Prelude.Run.{ok}
use bitbox_wallet_app.Accounts.{search}

pub ltb-le : (a b : ℕ) → ltb a b ≡ false → b ≤ a
ltb-le a b e = ground arith

-- A test that holds from some index on.
pub record IsMonotone (f : ℕ → Bool) (n : ℕ) : Type 0 where
  pub up : (a b : ℕ) → a ≤ b → b < n → f a ≡ true → f b ≡ true

pub record IsFirst (f : ℕ → Bool) (n i : ℕ) : Type 0 where
  pub in_range : i ≤ n
  pub before : (k : ℕ) → k < i → f k ≡ false
  pub after : (k : ℕ) → i ≤ k → k < n → f k ≡ true

module _ (f : ℕ → Bool) (n : ℕ) (mono : IsMonotone f n) where
  -- All before i fail the test, and all from j on pass it.
  record IsAround (i j : ℕ) : Type 0 where
    ordered : i ≤ j
    in_range : j ≤ n
    before : (k : ℕ) → k < i → f k ≡ false
    after : (k : ℕ) → j ≤ k → k < n → f k ≡ true

  before_failing : (h k : ℕ) → k < suc h → h < n → f h ≡ false → f k ≡ false
  before_failing h k le in' e = elim (Bool-cases (f k)) [
    | inl hit ↦ (let r = mono.up k h (omega arith) in' hit in cc)
    | inr miss ↦ miss
  ]

  search-around :
      (fuel i j : ℕ)
      → IsAround i j
      → j - i < fuel
      → (r : ℕ) × (search f fuel i j ≡ ok r) × IsFirst f n r
  unfolding search
  search-around zero i j a h = absurd (omega arith)
  search-around (suc fuel) i j a h = elim (Bool-cases (ltb i j)) [
    | inr e ↦ (
      i,
      rw (e, search) refl,
      record {
        in_range = omega (arith, a.ordered, a.in_range);
        before = a.before;
        after = λ k le lt. a.after k (omega (arith, a.ordered, ltb-le i j e)) lt;
      },
    )
    | inl e ↦
        let lt : i < j = ltb→lt i j e in
        elim (Bool-cases (f ((i + j) / 2))) [
          | inl hit ↦
              let (r, found, first) =
                search-around fuel i ((i + j) / 2)
                  (record {
                    ordered = omega arith;
                    in_range = omega (arith, a.in_range);
                    before = a.before;
                    after = λ k le lt. mono.up ((i + j) / 2) k le lt hit;
                  })
                  (omega arith) in
              (r, rw (e, search, hit) found, first)
          | inr miss ↦
              let (r, found, first) =
                search-around fuel (suc ((i + j) / 2)) j
                  (record {
                    ordered = omega arith;
                    in_range = a.in_range;
                    before =
                        λ k le. before_failing ((i + j) / 2) k le (omega (arith, a.in_range)) miss;
                    after = a.after;
                  })
                  (omega arith) in
              (r, rw (e, search, miss) found, first)
        ]
  ]

  pub search_lem : (r : ℕ) × (search f (suc n) 0 n ≡ ok r) × IsFirst f n r
  search_lem =
      search-around (suc n) 0 n
        (record {
          ordered = omega arith;
          in_range = omega arith;
          before = λ k lt. absurd (omega arith);
          after = λ k le lt. absurd (omega arith);
        })
        (omega arith)
