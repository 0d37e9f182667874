-- ===== src/AccountsConfig/Loading/Filtered.antt =====
-- The accounts that pass filterAccounts.
use bitbox_wallet_app.Prelude.{
  ℕ, ◌≡◌, ◌≢◌, ◌⊎◌, inl, inr, refl, sym, Bool, true, false, List, [], ◌∷◌, Option, none, some, All,
  Bool-cases,
}
use mathlib.Core.Path.{subst}
use bitbox_wallet_app.Coins.{CoinCode, btc, tbtc, rbtc, ltc, tltc, eth, goeth, sepeth, other}
use bitbox_wallet_app.AccountsConfig.{Account}
use bitbox_wallet_app.AccountsConfig.Numbers.{AnyOf}
use bitbox_wallet_app.AccountsConfig.Creation.{Env}
use bitbox_wallet_app.AccountsConfig.Loading.{
  is_testnet, is_regtest, is_left_out, is_known, filter_accounts,
}

pub data Network : Type 0 where
  main test reg : Network

-- The network that a coin belongs to.
abbrev pub network_of : CoinCode → Network
network_of btc = main
network_of tbtc = test
network_of rbtc = reg
network_of ltc = main
network_of tltc = test
network_of eth = main
network_of goeth = test
network_of sepeth = test
network_of (other n) = main

-- The network of the settings: regtest goes before testing.
abbrev pub network_in : Bool → Bool → Network
network_in true testing = reg
network_in false true = test
network_in false false = main

is_left_out_cases :
    (regtest testing : Bool) (coin : CoinCode)
    → (is_left_out regtest testing coin ≡ false) × (network_of coin ≡ network_in regtest testing)
      ⊎ (is_left_out regtest testing coin ≡ true) × (network_of coin ≢ network_in regtest testing)
unfolding is_left_out is_testnet is_regtest
is_left_out_cases true testing btc = inr (refl, λ e. cc)
is_left_out_cases true testing tbtc = inr (refl, λ e. cc)
is_left_out_cases true testing rbtc = inl (refl, refl)
is_left_out_cases true testing ltc = inr (refl, λ e. cc)
is_left_out_cases true testing tltc = inr (refl, λ e. cc)
is_left_out_cases true testing eth = inr (refl, λ e. cc)
is_left_out_cases true testing goeth = inr (refl, λ e. cc)
is_left_out_cases true testing sepeth = inr (refl, λ e. cc)
is_left_out_cases true testing (other n) = inr (refl, λ e. cc)
is_left_out_cases false true btc = inr (refl, λ e. cc)
is_left_out_cases false true tbtc = inl (refl, refl)
is_left_out_cases false true rbtc = inr (refl, λ e. cc)
is_left_out_cases false true ltc = inr (refl, λ e. cc)
is_left_out_cases false true tltc = inl (refl, refl)
is_left_out_cases false true eth = inr (refl, λ e. cc)
is_left_out_cases false true goeth = inl (refl, refl)
is_left_out_cases false true sepeth = inl (refl, refl)
is_left_out_cases false true (other n) = inr (refl, λ e. cc)
is_left_out_cases false false btc = inl (refl, refl)
is_left_out_cases false false tbtc = inr (refl, λ e. cc)
is_left_out_cases false false rbtc = inr (refl, λ e. cc)
is_left_out_cases false false ltc = inl (refl, refl)
is_left_out_cases false false tltc = inr (refl, λ e. cc)
is_left_out_cases false false eth = inl (refl, refl)
is_left_out_cases false false goeth = inr (refl, λ e. cc)
is_left_out_cases false false sepeth = inr (refl, λ e. cc)
is_left_out_cases false false (other n) = inl (refl, refl)

is_known_cases :
    (o : Option (List ℕ))
    → (is_known o ≡ true) × ((name : List ℕ) × (o ≡ some name)) ⊎ (is_known o ≡ false) × (o ≡ none)
unfolding is_known
is_known_cases none = inr (refl, refl)
is_known_cases (some name) = inl (refl, (name, refl))

-- The coin of the account is known and belongs to the network.
abbrev pub IsOnNetwork : Env → Bool → Bool → Account → Type 0
IsOnNetwork env regtest testing a =
    (network_of a.coin_code ≡ network_in regtest testing)
    × ((name : List ℕ) × (env.coin_name a.coin_code ≡ some name))

module _ (env : Env) (regtest testing : Bool) (filter : Account → Bool) where
  pub filter_accounts-All :
      (as' : List Account)
      → All
          (λ a. IsOnNetwork env regtest testing a × (filter a ≡ true))
          (filter_accounts env regtest testing filter as')
  unfolding filter_accounts
  filter_accounts-All [] = _
  filter_accounts-All (a ∷ as') =
      let rest = filter_accounts-All as' in
      elim (is_left_out_cases regtest testing a.coin_code) [
        | inr (out, _) ↦ rw out rest
        | inl (here, network) ↦ elim (is_known_cases (env.coin_name a.coin_code)) [
          | inr (unknown, _) ↦ simp (here, unknown) rest
          | inl (known, name) ↦ elim (Bool-cases (filter a)) [
            | inr dropped ↦ simp (here, known, dropped) rest
            | inl passed ↦ simp (here, known, passed) (((network, name), refl), rest)
          ]
        ]
      ]

  -- What the filter leaves out.
  abbrev pub IsDropped : Account → Type 0
  IsDropped a =
      (network_of a.coin_code ≢ network_in regtest testing)
      ⊎ (env.coin_name a.coin_code ≡ none)
      ⊎ (filter a ≡ false)

  -- The list is told apart, so that the lemma goes through the accounts.
  abbrev pub IsKeptIn : List Account → Account → Type 0
  IsKeptIn as' a = IsDropped a ⊎ AnyOf (λ b. b ≡ a) as'

  filter_accounts-cons :
      (a : Account) (as' : List Account)
      → IsDropped a
          × (filter_accounts env regtest testing filter (a ∷ as')
              ≡ filter_accounts env regtest testing filter as')
        ⊎ (filter_accounts env regtest testing filter (a ∷ as')
            ≡ a ∷ filter_accounts env regtest testing filter as')
  unfolding filter_accounts
  filter_accounts-cons a as' = elim (is_left_out_cases regtest testing a.coin_code) [
    | inr (out, elsewhere) ↦ inl (inl elsewhere, rw out refl)
    | inl (here, _) ↦ elim (is_known_cases (env.coin_name a.coin_code)) [
      | inr (unknown, no_name) ↦ inl (inr (inl no_name), rw (here, unknown) refl)
      | inl (known, _) ↦ elim (Bool-cases (filter a)) [
        | inr dropped ↦ inl (inr (inr dropped), rw (here, known, dropped) refl)
        | inl passed ↦ inr (rw (here, known, passed) refl)
      ]
    ]
  ]

  pub filter_accounts-IsKeptIn :
      (as' : List Account) → All (IsKeptIn (filter_accounts env regtest testing filter as')) as'
  filter_accounts-IsKeptIn [] = _
  filter_accounts-IsKeptIn (a ∷ as') =
      let rest = filter_accounts-IsKeptIn as' in
      elim (filter_accounts-cons a as') [
        | inl (dropped, same) ↦
            subst (λ (fs : List Account). All (IsKeptIn fs) (a ∷ as')) (sym same)
              (inl dropped, rest)
        | inr same ↦
            subst (λ (fs : List Account). All (IsKeptIn fs) (a ∷ as')) (sym same)
              (inr (inl refl), later _ as' rest)
      ]
    where
      later : (fs xs : List Account) → All (IsKeptIn fs) xs → All (IsKeptIn (a ∷ fs)) xs
      later fs [] h = _
      later fs (x ∷ xs) (inl dropped, hs) = (inl dropped, later fs xs hs)
      later fs (x ∷ xs) (inr any, hs) = (inr (inr any), later fs xs hs)
