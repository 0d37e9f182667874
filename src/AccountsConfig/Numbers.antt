-- ===== src/AccountsConfig/Numbers.antt =====
-- The numbers of new accounts.
use bitbox_wallet_app.Prelude.{
  ℕ, ◌+◌, ◌%◌, ◌^◌, ◌≤◌, ◌<◌, ◌≡◌, ◌≢◌, ◌⊎◌, inl, inr, refl, sym, ◌∙◌, Bool, true, false, not, ◌&&◌,
  List, [], ◌∷◌, Option, none, some, All, ltb, leb, ltb→lt, leb→le, arith, Bool-cases,
}
use bitbox_wallet_app.Prelude.Run.{ok, err}
use bitbox_wallet_app.Coins.{CoinCode}
use bitbox_wallet_app.AccountsConfig.{
  account_limit_reached, Account, AccountsConfig, number_if, next_after, next_loop,
  accounts_hard_limit, next_account_number,
}

abbrev pub AnyOf : (Account → Type 0) → List Account → Type 0
AnyOf P [] = ⊥
AnyOf P (a ∷ as') = P a ⊎ AnyOf P as'

-- The number after an account's is not above r.
abbrev IsBelow : ℕ → Option ℕ → Type 0
IsBelow r none = Unit
IsBelow r (some n) = (n + 1) % 2 ^ 16 ≤ r

-- The number after an account's is r.
abbrev pub IsJustBefore : CoinCode → List ℕ → ℕ → Account → Type 0
IsJustBefore coin fingerprint r a =
    (n : ℕ) × (number_if coin fingerprint a ≡ some n) × ((n + 1) % 2 ^ 16 ≡ r)

next_after-IsBelow :
    (o : Option ℕ) (next : ℕ)
    → (next ≤ next_after o next)
      × IsBelow (next_after o next) o
      × ((next_after o next ≡ next)
          ⊎ ((n : ℕ) × (o ≡ some n) × ((n + 1) % 2 ^ 16 ≡ next_after o next)))
unfolding next_after
next_after-IsBelow none next = (omega arith, _, inl refl)
next_after-IsBelow (some n) next = elim (Bool-cases (ltb next ((n + 1) % 2 ^ 16))) [
  | inl e ↦ let lt = ltb→lt next _ e in rw e (omega arith, omega arith, inr (n, refl, refl))
  | inr e ↦ rw e (omega arith, not_below next _ e, inl refl)
]
  where
    not_below : (a b : ℕ) → ltb a b ≡ false → b ≤ a
    not_below a b e = ground arith

IsBelow-mono : (o : Option ℕ) (a b : ℕ) → a ≤ b → IsBelow a o → IsBelow b o
IsBelow-mono none a b le h = _
IsBelow-mono (some n) a b le h = omega arith

module _ (coin : CoinCode) (fingerprint : List ℕ) where
  next_loop-IsBelow :
      (as' : List Account) (next : ℕ)
      → (next ≤ next_loop coin fingerprint as' next)
        × All
            (λ a. IsBelow (next_loop coin fingerprint as' next) (number_if coin fingerprint a))
            as'
        × ((next_loop coin fingerprint as' next ≡ next)
            ⊎ AnyOf (IsJustBefore coin fingerprint (next_loop coin fingerprint as' next)) as')
  unfolding next_loop
  next_loop-IsBelow [] next = (omega arith, _, inl refl)
  next_loop-IsBelow (a ∷ as') next =
      let o = number_if coin fingerprint a in
      let (le, below, why) = next_after-IsBelow o next in
      let (le', all, why') = next_loop-IsBelow as' (next_after o next) in
      (
        omega arith,
        (IsBelow-mono o _ _ le' below, all),
        elim why' [
          | inr earlier ↦ inr (inr earlier)
          | inl same ↦ elim why [
            | inl kept ↦ inl (same ∙ kept)
            | inr (n, found, q) ↦ inr (inl (n, found, q ∙ sym same))
          ]
        ],
      )

  fresh :
      (as' : List Account) (r : ℕ)
      → r < accounts_hard_limit
      → All (λ a. IsBelow r (number_if coin fingerprint a)) as'
      → All (λ a. number_if coin fingerprint a ≢ some r) as'
  fresh [] r h b = _
  fresh (a ∷ as') r h (b, bs) = (λ q. (let b' = rw q at b in omega arith), fresh as' r h bs)

-- The number of a new account is below the hard limit, and no account of the coin and the keystore
-- has it; it is 0, or one of them has the number just before (as a uint16), and then the keystore
-- supports multiple accounts. Otherwise the limit is reached: some account has a number already, and
-- the keystore supports only one or the number before the new one is at least 4.
pub next_account_number_cases :
    (coin : CoinCode) (fingerprint : List ℕ) (multiple : Bool) (cfg : AccountsConfig)
    → ((n : ℕ) × (next_account_number coin fingerprint multiple cfg ≡ ok n)
        × (n < accounts_hard_limit)
        × All (λ a. number_if coin fingerprint a ≢ some n) cfg.accounts
        × ((n ≡ 0) ⊎ (multiple ≡ true) × AnyOf (IsJustBefore coin fingerprint n) cfg.accounts))
      ⊎ (next_account_number coin fingerprint multiple cfg ≡ err account_limit_reached)
        × ((n : ℕ) × AnyOf (IsJustBefore coin fingerprint n) cfg.accounts
            × ((multiple ≡ false) × (0 < n) ⊎ (accounts_hard_limit ≤ n)))
unfolding next_account_number
next_account_number_cases coin fingerprint multiple cfg =
    let r = next_loop coin fingerprint cfg.accounts 0 in
    let (le, all, why) = next_loop-IsBelow coin fingerprint cfg.accounts 0 in
    elim (Bool-cases (not multiple && leb 1 r)) [
      | inl single ↦
          let (one, some_account) = both (not multiple) (leb 1 r) single in
          let positive = leb→le 1 r some_account in
          inr (rw single refl, (r, not_first r why positive, inl (not-true multiple one, positive)))
      | inr several ↦ elim (Bool-cases (leb accounts_hard_limit r)) [
        | inl full ↦
            let limit = leb→le accounts_hard_limit r full in
            inr (rw (several, full) refl, (r, not_first r why (omega arith), inr limit))
        | inr free ↦
            let small = not_leb accounts_hard_limit r free in
            inl (
              r,
              rw (several, free) refl,
              small,
              fresh coin fingerprint cfg.accounts r small all,
              elim why [
                | inl first ↦ inl first
                | inr earlier ↦ elim (first_or_multiple multiple r several) [
                  | inl first ↦ inl first
                  | inr m ↦ inr (m, earlier)
                ]
              ],
            )
      ]
    ]
  where
    both : (a b : Bool) → (a && b) ≡ true → (a ≡ true) × (b ≡ true)
    both true b e = (refl, e)
    both false b e = cc

    not-true : (b : Bool) → not b ≡ true → b ≡ false
    not-true true e = cc
    not-true false e = refl

    not_leb : (a b : ℕ) → leb a b ≡ false → b < a
    not_leb a b e = ground arith

    first_or_multiple : (m : Bool) (r : ℕ) → (not m && leb 1 r) ≡ false → (r ≡ 0) ⊎ (m ≡ true)
    first_or_multiple true r e = inr refl
    first_or_multiple false r e = inl (ground arith)

    not_first :
        (r : ℕ)
        → (r ≡ 0) ⊎ AnyOf (IsJustBefore coin fingerprint r) cfg.accounts
        → 0 < r
        → AnyOf (IsJustBefore coin fingerprint r) cfg.accounts
    not_first r (inl e) h = absurd (omega arith)
    not_first r (inr any) h = any
