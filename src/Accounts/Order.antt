-- ===== src/Accounts/Order.antt =====
-- The order of the transactions.
use bitbox_wallet_app.Prelude.{
  ℕ, ◌<◌, ◌≤◌, ◌≡◌, ◌≢◌, ◌⊎◌, ◌↔◌, inl, inr, refl, Bool, true, false, List, [], ◌∷◌, Option, none,
  some, All, arith,
}
use bitbox_wallet_app.Prelude.Int.{ℤ, pos, negsuc}
use bitbox_wallet_app.Accounts.{Tx, less_by_height, less_at, less, fill_balances}

-- A transaction that can be ordered: seen at a time, and unconfirmed only at the height 0.
pub record IsSeen (tx : Tx) (seen height : ℕ) : Type 0 where
  pub created : tx.created_timestamp ≡ some seen
  pub at_height : tx.height ≡ pos height

-- Where one comes before another: confirmed ones by height, unconfirmed ones last, and those of one
-- height by the time when they were seen.
abbrev pub Precedes : ℕ × ℕ → ℕ × ℕ → Type 0
Precedes (h, s) (k, t) = ((h ≡ k) × (s < t)) ⊎ (h ≢ k) × ((k ≡ 0) ⊎ ((0 < h) × (h < k)))

less_at-Precedes :
    (h s k t : ℕ) → (less_at (some s) (some t) (pos h) (pos k) ≡ true) ↔ Precedes (h, s) (k, t)
unfolding less_at less_by_height
less_at-Precedes h s k t = (λ e. ground arith, λ e. ground arith)

-- Of transactions that were all seen at some time and have no negative height, byHeight.Less tells
-- whether one precedes another: by the height, with the unconfirmed ones last, and at equal heights
-- by the time.
pub less-Precedes :
    (a b : Tx) (h s k t : ℕ)
    → IsSeen a s h
    → IsSeen b t k
    → (less a b ≡ true) ↔ Precedes (h, s) (k, t)
unfolding less
less-Precedes a b h s k t x y =
    rw (x.created, y.created, x.at_height, y.at_height) (less_at-Precedes h s k t)

-- A transaction that was never seen, or has a negative height.
abbrev pub IsUndated : Tx → Type 0
IsUndated tx = (tx.created_timestamp ≡ none) ⊎ ((n : ℕ) × (tx.height ≡ negsuc n))

-- The first is not newer than the second: that one is unconfirmed or of a greater height, or the
-- heights are equal and it was not seen earlier. Of an undated transaction this says nothing.
abbrev pub IsNotNewer : Tx → Tx → Type 0
IsNotNewer b a =
    IsUndated a
    ⊎ IsUndated b
    ⊎ ((s : ℕ) × (h : ℕ) × (t : ℕ) × (k : ℕ) × IsSeen a s h
        × IsSeen b t k
        × (((h ≡ k) × (t ≤ s)) ⊎ (h ≢ k) × ((h ≡ 0) ⊎ (0 < k) × (k < h))))

-- In a list with the newest transaction first, none is newer than an earlier one.
abbrev pub IsNewestFirst : List Tx → Type 0
IsNewestFirst [] = Unit
IsNewestFirst (a ∷ txs) = All (λ b. IsNotNewer b a) txs × IsNewestFirst txs

-- In a sorted list, none is less than an earlier one.
abbrev pub IsSortedBy : (Tx → Tx → Bool) → List Tx → Type 0
IsSortedBy lt [] = Unit
IsSortedBy lt (a ∷ txs) = All (λ b. lt b a ≡ false) txs × IsSortedBy lt txs

less_at-false :
    (s t h k : ℕ)
    → less_at (some s) (some t) (pos h) (pos k) ≡ false
    → ((h ≡ k) × (t ≤ s)) ⊎ (h ≢ k) × ((h ≡ 0) ⊎ (0 < k) × (k < h))
unfolding less_at less_by_height
less_at-false s t h k e = ground arith

less-IsNotNewer : (a b : Tx) → less a b ≡ false → IsNotNewer b a
unfolding less
less-IsNotNewer a b e =
    by_parts a.created_timestamp b.created_timestamp a.height b.height refl refl refl refl e
  where
    by_parts :
        (s t : Option ℕ) (h k : ℤ)
        → a.created_timestamp ≡ s
        → b.created_timestamp ≡ t
        → a.height ≡ h
        → b.height ≡ k
        → less_at s t h k ≡ false
        → IsNotNewer b a
    by_parts none t h k p q u v e = inl (inl p)
    by_parts (some s) none h k p q u v e = inr (inl (inl q))
    by_parts (some s) (some t) (negsuc h) k p q u v e = inl (inr (h, u))
    by_parts (some s) (some t) (pos h) (negsuc k) p q u v e = inr (inl (inr (k, v)))
    by_parts (some s) (some t) (pos h) (pos k) p q u v e = inr (
        inr (
          s,
          h,
          t,
          k,
          record { created = p; at_height = u },
          record { created = q; at_height = v },
          less_at-false s t h k e,
        ))

pub sorted-IsNewestFirst : (txs : List Tx) → IsSortedBy (λ a b. less b a) txs → IsNewestFirst txs
sorted-IsNewestFirst [] o = _
sorted-IsNewestFirst (a ∷ txs) (first, rest) = (below txs first, sorted-IsNewestFirst txs rest)
  where
    below : (bs : List Tx) → All (λ b. less a b ≡ false) bs → All (λ b. IsNotNewer b a) bs
    below [] h = _
    below (b ∷ bs) (h, hs) = (less-IsNotNewer a b h, below bs hs)

-- The balances do not matter for the order.
fill_balances-below :
    (a : Tx) (txs : List Tx)
    → All (λ b. IsNotNewer b a) txs
    → All (λ b. IsNotNewer b a) (fill_balances txs).0
unfolding fill_balances
fill_balances-below a [] h = _
fill_balances-below a (b ∷ txs) (h, hs) = (refilled h, fill_balances-below a txs hs)
  where
    refilled : {balance : ℤ} → IsNotNewer b a → IsNotNewer (record b { balance = balance }) a
    refilled (inl p) = inl p
    refilled (inr (inl p)) = inr (inl p)
    refilled (inr (inr (s, h, t, k, x, y, o))) =
        inr (inr (s, h, t, k, x, record { created = y.created; at_height = y.at_height }, o))

pub fill_balances-IsNewestFirst :
    (txs : List Tx) → IsNewestFirst txs → IsNewestFirst (fill_balances txs).0
unfolding fill_balances
fill_balances-IsNewestFirst [] h = _
fill_balances-IsNewestFirst (a ∷ txs) (first, rest) =
    (refilled _ _ (fill_balances-below a txs first), fill_balances-IsNewestFirst txs rest)
  where
    later : (balance : ℤ) (b : Tx) → IsNotNewer b a → IsNotNewer b (record a { balance = balance })
    later balance b (inl p) = inl p
    later balance b (inr (inl p)) = inr (inl p)
    later balance b (inr (inr (s, h, t, k, x, y, o))) =
        inr (inr (s, h, t, k, record { created = x.created; at_height = x.at_height }, y, o))

    refilled :
        (balance : ℤ) (bs : List Tx)
        → All (λ b. IsNotNewer b a) bs
        → All (λ b. IsNotNewer b (record a { balance = balance })) bs
    refilled balance [] h = _
    refilled balance (b ∷ bs) (h, hs) = (later balance b h, refilled balance bs hs)
