-- ===== src/AccountsConfig/Discovery.antt =====
-- backend/accounts.go: adding an account, the default accounts, the discovery of used accounts, and
-- taproot for older ones. Loading.antt has the loading of the accounts.
use bitbox_wallet_app.Prelude.{
  ℕ, suc, ◌+◌, ◌%◌, ◌^◌, Bool, true, false, not, ◌&&◌, ◌||◌, List, [], ◌∷◌, ◌++◌, map, Option, none,
  some, ltb, leb, if◌then◌else◌,
}
use bitbox_wallet_app.Prelude.Run.{Run, ok, err, panic, out_of_fuel, ◌>>=◌}
use bitbox_wallet_app.Maketx.Types.{p2tr}
use bitbox_wallet_app.Signing.Configuration as S
use bitbox_wallet_app.Signing.Configuration.{
  Configuration, find_script_type, account_number, root_fingerprint, new_bitcoin_configuration,
}
use bitbox_wallet_app.Coins.{Text, text, CoinCode, btc, tbtc, rbtc, ltc, tltc, eth, goeth, sepeth}
use bitbox_wallet_app.AccountsConfig.{
  Error, not_found, no_coin, no_key, no_fingerprint, no_number, Account, AccountsConfig,
  is_keystore_watchonly, lookup_in, modify_in, number_if, find_hidden_account, next_account_number,
  accounts_hard_limit,
}
use bitbox_wallet_app.AccountsConfig.Creation.{
  Wallet, Env, Outcome, ◌>>>◌, reading, or_err, default_account_name, bip44_keypath, panicking,
  create_and_persist, no_child,
}
pub mod Created
pub mod Keeps
pub mod Reachable
pub mod Scan
pub mod Allowed

-- The change of one account, where the call does not find it or after the change.
unfoldable pub update : Text → (Account → Account) → AccountsConfig → AccountsConfig
update code f cfg = elim (modify_in code (λ a. ok (f a)) cfg.accounts) [
  | ok as' ↦ record cfg { accounts = as' }
  | _ ↦ cfg
]

unfoldable pub unhidden : Text → Bool → Account → Account
unhidden name watchonly a = record a {
  hidden_because_unused = false;
  name = name;
  watch = (if watchonly then some true else a.watch);
}

unfoldable pub used_account : Account → Account
used_account a = record a { used = true; hidden_because_unused = false }

unfoldable pub watched_if : Bool → Account → Account
watched_if watchonly a = record a { watch = (if watchonly then some true else a.watch) }

-- The callback of checkAccountUsed. The account stays marked when its fingerprint is not found.
unfoldable pub mark_account_used : Text → AccountsConfig → Outcome (Unit {0})
unfolding update used_account watched_if
mark_account_used code cfg = elim (lookup_in code cfg.accounts) [
  | none ↦ (err not_found, cfg)
  | some a ↦
      let cfg' = update code used_account cfg in
      elim (root_fingerprint a.signing_configurations) [
        | ok fingerprint ↦
            (ok tt, update code (watched_if (is_keystore_watchonly fingerprint cfg')) cfg')
        | _ ↦ (err no_fingerprint, cfg')
      ]
]

-- The account of the highest number, the first of these.
unfoldable pub take_max : Option ℕ → Account → Option (ℕ × Account) → Option (ℕ × Account)
take_max none a best = best
take_max (some n) a none = some (n, a)
take_max (some n) a (some (m, b)) = if ltb m n then some (n, a) else some (m, b)

unfoldable pub max_account :
    CoinCode → List ℕ → List Account → Option (ℕ × Account) → Option (ℕ × Account)
unfolding take_max
max_account coin fingerprint [] best = best
max_account coin fingerprint (a ∷ as') best =
    max_account coin fingerprint as' (take_max (number_if coin fingerprint a) a best)

-- The number of the account to scan next, if there is one to scan.
unfoldable pub number_to_scan : Option (ℕ × Account) → Option ℕ
number_to_scan none = some 0
number_to_scan (some (n, a)) =
    if a.used || ltb n accounts_hard_limit then some ((n + 1) % 2 ^ 16) else none

unfoldable pub discovery_coins : Bool → Bool → List CoinCode
discovery_coins true testing = rbtc ∷ []
discovery_coins false true = tbtc ∷ tltc ∷ []
discovery_coins false false = btc ∷ ltc ∷ []

-- An error is logged, and there is no new account.
unfoldable pub hidden_outcome : Outcome Text → Outcome (List Text)
hidden_outcome (ok code, cfg) = (ok (code ∷ []), cfg)
hidden_outcome (err e, cfg) = (ok [], cfg)
hidden_outcome (panic, cfg) = (panic, cfg)
hidden_outcome (out_of_fuel, cfg) = (out_of_fuel, cfg)

unfoldable pub default_coins : Bool → Bool → List CoinCode
default_coins true true = rbtc ∷ []
default_coins true false = tbtc ∷ tltc ∷ goeth ∷ sepeth ∷ []
default_coins false regtest = btc ∷ ltc ∷ eth ∷ []

-- The active tokens of the settings, under their new codes, for ETH.
unfoldable pub default_tokens : CoinCode → List Text → List Text
default_tokens eth tokens = map (λ t. text "eth-erc20-" ++ t) tokens
default_tokens coin tokens = []

-- The name that CanAddAccount suggests, if an account can be added.
unfoldable pub suggested_name : Run Error ℕ → Option Text → Option Text
unfolding default_account_name
suggested_name (ok n) (some name) = some (default_account_name name n)
suggested_name n name = none

module _ (env : Env) (wallet : Wallet) where
  unfoldable pub create_unless_hidden :
      CoinCode → Text → List ℕ → Option Account → AccountsConfig → Outcome Text
  unfolding update unhidden
  create_unless_hidden coin name fingerprint (some a) cfg =
      (ok a.code, update a.code (unhidden name (is_keystore_watchonly fingerprint cfg)) cfg)
  create_unless_hidden coin name fingerprint none cfg =
      reading (next_account_number coin fingerprint wallet.supports_multiple_accounts cfg) cfg
      >>> λ n cfg. create_and_persist env wallet coin n false name [] cfg

  -- CreateAndPersistAccountConfig.
  unfoldable pub create_account : CoinCode → Text → AccountsConfig → Outcome Text
  unfolding or_err
  create_account coin name cfg =
      reading (or_err no_fingerprint wallet.root_fingerprint) cfg >>> λ fingerprint cfg.
      create_unless_hidden coin name fingerprint (find_hidden_account coin fingerprint cfg) cfg

  unfoldable pub can_add_of : CoinCode → List ℕ → Option Account → AccountsConfig → Option Text
  unfolding suggested_name
  can_add_of coin fingerprint (some a) cfg = some a.name
  can_add_of coin fingerprint none cfg =
      suggested_name (next_account_number coin fingerprint wallet.supports_multiple_accounts cfg)
        (env.coin_name coin)

  unfoldable pub can_add_account : CoinCode → AccountsConfig → Option Text
  unfolding can_add_of
  can_add_account coin cfg = elim wallet.root_fingerprint [
    | none ↦ none
    | some fingerprint ↦ can_add_of coin fingerprint (find_hidden_account coin fingerprint cfg) cfg
  ]

  unfoldable pub add_numbered : CoinCode → Option ℕ → AccountsConfig → Outcome (List Text)
  unfolding hidden_outcome
  add_numbered coin none cfg = (ok [], cfg)
  add_numbered coin (some n) cfg =
      hidden_outcome (create_and_persist env wallet coin n true [] [] cfg)

  unfoldable pub add_hidden_of : List ℕ → CoinCode → AccountsConfig → Outcome (List Text)
  unfolding max_account number_to_scan
  add_hidden_of fingerprint coin cfg =
      add_numbered coin (number_to_scan (max_account coin fingerprint cfg.accounts none)) cfg

  unfoldable pub add_hidden_all : List ℕ → List CoinCode → AccountsConfig → Outcome (List Text)
  add_hidden_all fingerprint [] cfg = (ok [], cfg)
  add_hidden_all fingerprint (coin ∷ coins) cfg =
      add_hidden_of fingerprint coin cfg >>> λ codes cfg.
      add_hidden_all fingerprint coins cfg >>> λ more cfg. (ok (codes ++ more), cfg)

  -- The codes of the new accounts. Without a fingerprint nothing happens.
  unfoldable pub maybe_add_hidden_unused_accounts :
      Bool → Bool → AccountsConfig → Outcome (List Text)
  unfolding discovery_coins
  maybe_add_hidden_unused_accounts regtest testing cfg = elim wallet.root_fingerprint [
    | none ↦ (ok [], cfg)
    | some fingerprint ↦ add_hidden_all fingerprint (discovery_coins regtest testing) cfg
  ]

  unfoldable pub persist_defaults_of :
      (CoinCode → Bool) → List Text → List CoinCode → AccountsConfig → Outcome (Unit {0})
  unfolding default_tokens
  persist_defaults_of active tokens [] cfg = (ok tt, cfg)
  persist_defaults_of active tokens (coin ∷ coins) cfg =
      (if active coin
        then create_and_persist env wallet coin 0 false [] (default_tokens coin tokens) cfg
        else (ok [], cfg))
      >>> λ code cfg. persist_defaults_of active tokens coins cfg

  unfoldable pub persist_default_account_configs :
      Bool → Bool → (CoinCode → Bool) → List Text → AccountsConfig → Outcome (Unit {0})
  unfolding default_coins
  persist_default_account_configs testing regtest active tokens cfg =
      persist_defaults_of active tokens (default_coins testing regtest) cfg
