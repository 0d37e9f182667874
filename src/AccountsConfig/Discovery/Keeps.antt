-- ===== src/AccountsConfig/Discovery/Keeps.antt =====
-- The calls that create, discover and mark accounts keep them different.
use mathlib.Core.Path.{subst}
use bitbox_wallet_app.Prelude.{
  ℕ, ◌^◌, ◌<◌, ◌≡◌, inl, inr, refl, sym, ap, Bool, true, false, List, [], ◌∷◌, map, Option, none,
  some, Option-cases, arith, ltb, Bool-cases, ◌||◌, if◌then◌else◌,
}
use bitbox_wallet_app.Prelude.Run.{Run, ok, err, panic, out_of_fuel, ok_unique, err_ne_ok}
use bitbox_wallet_app.Coins.{Text, CoinCode}
use bitbox_wallet_app.AccountsConfig.{
  Error, no_fingerprint, not_found, Account, AccountsConfig, modify_in, lookup_in,
  find_hidden_account, next_account_number, is_keystore_watchonly, accounts_hard_limit,
}
use bitbox_wallet_app.Signing.Configuration as S
use bitbox_wallet_app.Signing.Configuration.{root_fingerprint}
use bitbox_wallet_app.AccountsConfig.Unique.{identity, ArePairwiseDifferent, IsUnique}
use bitbox_wallet_app.AccountsConfig.Changes.{persist_account-IsUnique, modify_in-identity}
use bitbox_wallet_app.AccountsConfig.Numbers.{next_account_number_cases}
use bitbox_wallet_app.AccountsConfig.Creation.{
  Wallet, Env, Outcome, ◌>>>◌, reading, or_err, create_and_persist,
}
use bitbox_wallet_app.AccountsConfig.Creation.Grows.{Persisted, kept, persisted, reading-Grows}
use bitbox_wallet_app.AccountsConfig.Creation.Numbered.{IsNew}
use bitbox_wallet_app.AccountsConfig.Creation.New.{create_and_persist-Persisted}
use bitbox_wallet_app.AccountsConfig.Discovery.{
  update, unhidden, used_account, watched_if, mark_account_used, max_account, number_to_scan,
  discovery_coins, hidden_outcome, default_tokens, create_unless_hidden, create_account,
  add_numbered, add_hidden_of, add_hidden_all, maybe_add_hidden_unused_accounts,
  persist_defaults_of,
}

some_unique : {A : Type 0} {a b : A} → some a ≡ some b → a ≡ b
some_unique e = cc

abbrev pub AreUnique : AccountsConfig → Type 0
AreUnique cfg = IsUnique cfg.accounts

Persisted-AreUnique :
    (P : Account → Type 0) (cfg cfg' : AccountsConfig)
    → Persisted P cfg cfg'
    → AreUnique cfg
    → AreUnique cfg'
Persisted-AreUnique P _ _ (kept cfg) u = u
Persisted-AreUnique P _ _ (persisted a cfg cfg₁ cfg₂ h e p) u =
    Persisted-AreUnique P cfg₁ cfg₂ p (persist_account-IsUnique a cfg cfg₁ e u)

abbrev Same : AccountsConfig → AccountsConfig → Type 0
Same cfg cfg' = map identity cfg'.accounts ≡ map identity cfg.accounts

pub update-identity :
    (code : Text) (f : Account → Account) (cfg : AccountsConfig)
    → ((a : Account) → identity (f a) ≡ identity a)
    → map identity (update code f cfg).accounts ≡ map identity cfg.accounts
unfolding update
update-identity code f cfg same = by_result (modify_in code (λ a. ok (f a)) cfg.accounts) refl
  where
    by_result :
        (r : Run Error (List Account))
        → modify_in code (λ a. ok (f a)) cfg.accounts ≡ r
        → Same cfg (elim r [ ok as' ↦ record cfg { accounts = as' } | _ ↦ cfg ])
    by_result (ok bs) e =
        modify_in-identity code (λ a. ok (f a)) cfg.accounts bs
          (λ a b q.
            subst (λ (c : Account). identity c ≡ identity a) (ok_unique {r = ok (f a)} refl q)
              (same a))
          e
    by_result (err x) e = refl
    by_result panic e = refl
    by_result out_of_fuel e = refl

update-AreUnique :
    (code : Text) (f : Account → Account) (cfg : AccountsConfig)
    → ((a : Account) → identity (f a) ≡ identity a)
    → AreUnique cfg
    → AreUnique (update code f cfg)
update-AreUnique code f cfg same =
    subst ArePairwiseDifferent (sym (update-identity code f cfg same))

-- A call keeps the accounts different.
abbrev Keeps : {A : Type 0} → AccountsConfig → Outcome A → Type 0
Keeps cfg o = AreUnique cfg → AreUnique o.1

>>>-Keeps :
    {A B : Type 0} (cfg : AccountsConfig) (o : Outcome A) (next : A → AccountsConfig → Outcome B)
    → Keeps cfg o
    → ((a : A) (cfg' : AccountsConfig) → o ≡ (ok a, cfg') → Keeps cfg' (next a cfg'))
    → Keeps cfg (o >>> next)
>>>-Keeps cfg (ok a, cfg') next k h u = h a cfg' refl (k u)
>>>-Keeps cfg (err e, cfg') next k h u = k u
>>>-Keeps cfg (panic, cfg') next k h u = k u
>>>-Keeps cfg (out_of_fuel, cfg') next k h u = k u

module _ (env : Env) (wallet : Wallet) where
  create_and_persist_unowned :
      (P : Account → Type 0) (coin : CoinCode) (n : ℕ) (hidden : Bool) (name : Text)
      (tokens : List Text) (cfg : AccountsConfig)
      → wallet.root_fingerprint ≡ none
      → Persisted P cfg (create_and_persist env wallet coin n hidden name tokens cfg).1
  unfolding create_and_persist or_err
  create_and_persist_unowned P coin n hidden name tokens cfg unowned =
      reading-Grows P cfg (or_err no_fingerprint wallet.root_fingerprint) _
        (λ f e. (let r = rw unowned at e in cc))

  create_and_persist-Keeps :
      (coin : CoinCode) (n : ℕ) (hidden : Bool) (name : Text) (tokens : List Text)
      (cfg : AccountsConfig)
      → n < 2 ^ 16
      → Keeps cfg (create_and_persist env wallet coin n hidden name tokens cfg)
  create_and_persist-Keeps coin n hidden name tokens cfg small =
      elim (Option-cases wallet.root_fingerprint) [
        | inl unowned ↦
            Persisted-AreUnique (λ a. Unit) cfg _
              (create_and_persist_unowned (λ a. Unit) coin n hidden name tokens cfg unowned)
        | inr (fingerprint, owned) ↦ Persisted-AreUnique (IsNew coin fingerprint n) cfg _ (
            create_and_persist-Persisted env wallet fingerprint owned n small coin hidden name
              tokens cfg)
      ]

  create_unless_hidden-Keeps :
      (coin : CoinCode) (name : Text) (fingerprint : List ℕ) (hidden : Option Account)
      (cfg : AccountsConfig)
      → Keeps cfg (create_unless_hidden env wallet coin name fingerprint hidden cfg)
  unfolding create_unless_hidden unhidden
  create_unless_hidden-Keeps coin name fingerprint (some a) cfg =
      update-AreUnique a.code (unhidden name (is_keystore_watchonly fingerprint cfg)) cfg
        (λ b. refl)
  create_unless_hidden-Keeps coin name fingerprint none cfg =
      >>>-Keeps cfg
        (reading (next_account_number coin fingerprint wallet.supports_multiple_accounts cfg) cfg) _
        (λ u. u)
        (λ n cfg' e. create_and_persist-Keeps coin n false name [] cfg' (numbered n cfg' e))
    where
      numbered :
          (n : ℕ) (cfg' : AccountsConfig)
          → reading (next_account_number coin fingerprint wallet.supports_multiple_accounts cfg) cfg
            ≡ (ok n, cfg')
          → n < 2 ^ 16
      numbered n cfg' e =
          elim (next_account_number_cases coin fingerprint wallet.supports_multiple_accounts cfg) [
            | inl (m, made, small, fresh, why) ↦
                let same = ok_unique made (ap (λ (o : Outcome ℕ). o.0) e) in omega arith
            | inr (full, why) ↦ absurd (err_ne_ok full (ap (λ (o : Outcome ℕ). o.0) e))
          ]

  pub create_account-Keeps :
      (coin : CoinCode) (name : Text) (cfg : AccountsConfig)
      → Keeps cfg (create_account env wallet coin name cfg)
  unfolding create_account
  create_account-Keeps coin name cfg =
      >>>-Keeps cfg (reading (or_err no_fingerprint wallet.root_fingerprint) cfg) _ (λ u. u)
        (λ fingerprint cfg' e.
          create_unless_hidden-Keeps coin name fingerprint
            (find_hidden_account coin fingerprint cfg') cfg')

  hidden_outcome-Keeps :
      (cfg : AccountsConfig) (o : Outcome Text) → Keeps cfg o → Keeps cfg (hidden_outcome o)
  unfolding hidden_outcome
  hidden_outcome-Keeps cfg (ok code, cfg') k = k
  hidden_outcome-Keeps cfg (err e, cfg') k = k
  hidden_outcome-Keeps cfg (panic, cfg') k = k
  hidden_outcome-Keeps cfg (out_of_fuel, cfg') k = k

  add_numbered-Keeps :
      (coin : CoinCode) (o : Option ℕ) (cfg : AccountsConfig)
      → ((n : ℕ) → o ≡ some n → n < 2 ^ 16)
      → Keeps cfg (add_numbered env wallet coin o cfg)
  unfolding add_numbered
  add_numbered-Keeps coin none cfg small = λ u. u
  add_numbered-Keeps coin (some n) cfg small =
      hidden_outcome-Keeps cfg (create_and_persist env wallet coin n true [] [] cfg)
        (create_and_persist-Keeps coin n true [] [] cfg (small n refl))

  number_to_scan_small :
      (best : Option (ℕ × Account)) (n : ℕ) → number_to_scan best ≡ some n → n < 2 ^ 16
  unfolding number_to_scan
  number_to_scan_small none n e = (let q = some_unique e in omega arith)
  number_to_scan_small (some (m, a)) n e = elim (Bool-cases (a.used || ltb m accounts_hard_limit)) [
    | inl scanned ↦ (let q = some_unique (rw scanned at e) in omega arith)
    | inr unscanned ↦ (let q = rw unscanned at e in cc)
  ]

  add_hidden_all-Keeps :
      (fingerprint : List ℕ) (coins : List CoinCode) (cfg : AccountsConfig)
      → Keeps cfg (add_hidden_all env wallet fingerprint coins cfg)
  unfolding add_hidden_all add_hidden_of
  add_hidden_all-Keeps fingerprint [] cfg = λ u. u
  add_hidden_all-Keeps fingerprint (coin ∷ coins) cfg =
      let best = max_account coin fingerprint cfg.accounts none in
      >>>-Keeps cfg (add_numbered env wallet coin (number_to_scan best) cfg) _
        (add_numbered-Keeps coin (number_to_scan best) cfg (number_to_scan_small best))
        (λ codes cfg' e.
          >>>-Keeps cfg' (add_hidden_all env wallet fingerprint coins cfg') _
            (add_hidden_all-Keeps fingerprint coins cfg') (λ more cfg'' e'. λ u. u))

  pub maybe_add_hidden-Keeps :
      (regtest testing : Bool) (cfg : AccountsConfig)
      → Keeps cfg (maybe_add_hidden_unused_accounts env wallet regtest testing cfg)
  unfolding maybe_add_hidden_unused_accounts
  maybe_add_hidden-Keeps regtest testing cfg = by_owner wallet.root_fingerprint
    where
      by_owner :
          (o : Option (List ℕ))
          → Keeps {A = List Text} cfg (elim o [
            | none ↦ (ok [], cfg)
            | some fingerprint ↦
                add_hidden_all env wallet fingerprint (discovery_coins regtest testing) cfg
          ])
      by_owner none = λ u. u
      by_owner (some fingerprint) =
          add_hidden_all-Keeps fingerprint (discovery_coins regtest testing) cfg

  if-Keeps :
      {A : Type 0} (cfg : AccountsConfig) (b : Bool) (x y : Outcome A)
      → Keeps cfg x
      → Keeps cfg y
      → Keeps cfg (if b then x else y)
  if-Keeps cfg true x y p q = p
  if-Keeps cfg false x y p q = q

  pub persist_defaults-Keeps :
      (active : CoinCode → Bool) (tokens : List Text) (coins : List CoinCode) (cfg : AccountsConfig)
      → Keeps cfg (persist_defaults_of env wallet active tokens coins cfg)
  unfolding persist_defaults_of
  persist_defaults-Keeps active tokens [] cfg = λ u. u
  persist_defaults-Keeps active tokens (coin ∷ coins) cfg =
      >>>-Keeps cfg _ _
        (if-Keeps cfg (active coin) _ _
          (create_and_persist-Keeps coin 0 false [] (default_tokens coin tokens) cfg (omega arith))
          (λ u. u))
        (λ code cfg' e. persist_defaults-Keeps active tokens coins cfg')

pub mark_account_used-Keeps :
    (code : Text) (cfg : AccountsConfig) → Keeps cfg (mark_account_used code cfg)
unfolding mark_account_used used_account watched_if
mark_account_used-Keeps code cfg = by_account (lookup_in code cfg.accounts)
  where
    by_owner :
        (r : Run S.Error (List ℕ)) (cfg' : AccountsConfig)
        → Keeps {A = Unit {0}} cfg' (elim r [
          | ok fingerprint ↦
              (ok tt, update code (watched_if (is_keystore_watchonly fingerprint cfg')) cfg')
          | _ ↦ (err no_fingerprint, cfg')
        ])
    by_owner (ok fingerprint) cfg' u = update-AreUnique code _ cfg' (λ b. refl) u
    by_owner (err e) cfg' u = u
    by_owner panic cfg' u = u
    by_owner out_of_fuel cfg' u = u

    by_account :
        (o : Option Account)
        → Keeps {A = Unit {0}} cfg (elim o [
          | none ↦ (err not_found, cfg)
          | some a ↦
              let cfg' = update code used_account cfg in
              elim (root_fingerprint a.signing_configurations) [
                | ok fingerprint ↦
                    (ok tt, update code (watched_if (is_keystore_watchonly fingerprint cfg')) cfg')
                | _ ↦ (err no_fingerprint, cfg')
              ]
        ])
    by_account none = λ u. u
    by_account (some a) = λ u.
        by_owner (root_fingerprint a.signing_configurations) (update code used_account cfg)
          (update-AreUnique code used_account cfg (λ b. refl) u)
