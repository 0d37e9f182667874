-- ===== src/AccountsConfig/Hidden.antt =====
-- The hidden account that becomes visible first.
use mathlib.Core.Path.{subst}
use bitbox_wallet_app.Prelude.{
  ℕ, ◌-◌, ◌^◌, ◌≤◌, ◌<◌, ◌≡◌, ◌⊎◌, inl, inr, refl, sym, ap, ◌∙◌, Bool, true, false, ◌&&◌, List, [],
  ◌∷◌, Option, none, some, All, ltb, ltb→lt, arith, if◌then◌else◌,
}
use bitbox_wallet_app.Coins.{CoinCode}
use bitbox_wallet_app.AccountsConfig.{
  Account, AccountsConfig, number_if, take_hidden, find_hidden_loop, find_hidden_account,
}
use bitbox_wallet_app.AccountsConfig.Numbers.{AnyOf}

-- Visible, without a number, or with a number of at least n.
abbrev IsHiddenFrom : ℕ → Bool → Option ℕ → Type 0
IsHiddenFrom n false o = Unit
IsHiddenFrom n true none = Unit
IsHiddenFrom n true (some m) = n ≤ m

IsHiddenFrom-mono :
    (m n : ℕ) (hidden : Bool) (o : Option ℕ)
    → m ≤ n
    → IsHiddenFrom n hidden o
    → IsHiddenFrom m hidden o
IsHiddenFrom-mono m n false o le h = _
IsHiddenFrom-mono m n true none le h = _
IsHiddenFrom-mono m n true (some k) le h = omega arith

abbrev either : Bool → ℕ × Option Account → ℕ × Option Account → ℕ × Option Account
either c p q = if c then p else q

pick :
    (h t : Bool) (n s : ℕ) (a : Account) (r : Option Account)
    → (t ≡ true → n < s)
    → (t ≡ false → s ≤ n)
    → ((either (h && t) (n, some a) (s, r)).0 ≤ s)
      × IsHiddenFrom (either (h && t) (n, some a) (s, r)).0 h (some n)
      × ((either (h && t) (n, some a) (s, r) ≡ (s, r))
          ⊎ (h ≡ true)
            × ((m : ℕ) × (some n ≡ some m) × (either (h && t) (n, some a) (s, r) ≡ (m, some a))))
pick true true n s a r lt ge = (omega (arith, lt refl), omega arith, inr (refl, (n, refl, refl)))
pick true false n s a r lt ge = (omega arith, ge refl, inl refl)
pick false t n s a r lt ge = (omega arith, _, inl refl)

module _ (coin : CoinCode) (fingerprint : List ℕ) where
  abbrev pub IsAbove : ℕ → Account → Type 0
  IsAbove n a = IsHiddenFrom n a.hidden_because_unused (number_if coin fingerprint a)

  -- A hidden account of the coin and the keystore with the number.
  pub record IsHidden (n : ℕ) (a : Account) : Type 0 where
    pub hidden : a.hidden_because_unused ≡ true
    pub numbered : number_if coin fingerprint a ≡ some n

  take_hidden-IsAbove :
      (a : Account) (o : Option ℕ) (p : ℕ × Option Account)
      → ((take_hidden o a p).0 ≤ p.0)
        × IsHiddenFrom (take_hidden o a p).0 a.hidden_because_unused o
        × ((take_hidden o a p ≡ p)
            ⊎ (a.hidden_because_unused ≡ true)
              × ((n : ℕ) × (o ≡ some n) × (take_hidden o a p ≡ (n, some a))))
  unfolding take_hidden
  take_hidden-IsAbove a none (s, r) = (omega arith, unnumbered s a.hidden_because_unused, inl refl)
    where
      unnumbered : (n : ℕ) (h : Bool) → IsHiddenFrom n h none
      unnumbered n true = _
      unnumbered n false = _
  take_hidden-IsAbove a (some n) (s, r) =
      pick a.hidden_because_unused (ltb n s) n s a r (λ e. ltb→lt n s e) (not_below n s)
    where
      not_below : (a b : ℕ) → ltb a b ≡ false → b ≤ a
      not_below a b e = ground arith

  abbrev Found : List Account → ℕ × Option Account → ℕ × Option Account → Type 0
  Found as' p q =
      (q ≡ p) ⊎ ((a : Account) × (q.1 ≡ some a) × IsHidden q.0 a × AnyOf (λ b. b ≡ a) as')

  find_hidden_loop-IsAbove :
      (as' : List Account) (p : ℕ × Option Account)
      → ((find_hidden_loop coin fingerprint as' p).0 ≤ p.0)
        × All (IsAbove (find_hidden_loop coin fingerprint as' p).0) as'
        × Found as' p (find_hidden_loop coin fingerprint as' p)
  unfolding find_hidden_loop
  find_hidden_loop-IsAbove [] p = (omega arith, _, inl refl)
  find_hidden_loop-IsAbove (a ∷ as') p =
      let o = number_if coin fingerprint a in
      let (le, above, why) = take_hidden-IsAbove a o p in
      let (le', all, found) = find_hidden_loop-IsAbove as' (take_hidden o a p) in
      (
        omega arith,
        (IsHiddenFrom-mono _ _ a.hidden_because_unused o le' above, all),
        elim found [
          | inr (b, e, hidden, any) ↦ inr (b, e, hidden, inr any)
          | inl same ↦ elim why [
            | inl kept ↦ inl (same ∙ kept)
            | inr (h, (n, e, taken)) ↦
                let whole = same ∙ taken in
                inr (
                  a,
                  ap (λ (q : ℕ × Option Account). q.1) whole,
                  record {
                    hidden = h;
                    numbered = e ∙ ap some (sym (ap (λ (q : ℕ × Option Account). q.0) whole));
                  },
                  inl refl,
                )
          ]
        ],
      )

  -- findHiddenAccount finds a hidden account of the coin and the keystore with the least number among
  -- all of these; or nothing, and then none has a number below 2 ^ 16 - 1.
  pub find_hidden_account_cases :
      (cfg : AccountsConfig)
      → (find_hidden_account coin fingerprint cfg ≡ none) × All (IsAbove (2 ^ 16 - 1)) cfg.accounts
        ⊎ ((a : Account) × (find_hidden_account coin fingerprint cfg ≡ some a)
            × ((n : ℕ) × IsHidden n a
                × AnyOf (λ b. b ≡ a) cfg.accounts
                × All (IsAbove n) cfg.accounts))
  unfolding find_hidden_account
  find_hidden_account_cases cfg =
      let (le, all, found) = find_hidden_loop-IsAbove cfg.accounts (2 ^ 16 - 1, none) in
      elim found [
        | inl same ↦ inl (
          ap (λ (q : ℕ × Option Account). q.1) same,
          subst (λ (n : ℕ). All (IsAbove n) cfg.accounts)
              (ap (λ (q : ℕ × Option Account). q.0) same) all,
        )
        | inr (a, e, hidden, any) ↦ inr (a, e, (_, hidden, any, all))
      ]
