-- ===== src/AccountsConfig/Discovery/Reachable.antt =====
-- Whatever the calls below do to the configuration, the accounts stay different. Taproot for older
-- accounts, which changes accounts while the keystore connects, is not among them.
use bitbox_wallet_app.Prelude.{Bool, List, []}
use bitbox_wallet_app.Coins.{Text, CoinCode}
use bitbox_wallet_app.AccountsConfig.{Keystore, AccountsConfig}
use bitbox_wallet_app.AccountsConfig.Unique.{IsUnique}
use bitbox_wallet_app.AccountsConfig.Changes.{Change, Change-IsUnique}
use bitbox_wallet_app.AccountsConfig.Creation.{Wallet, Env}
use bitbox_wallet_app.AccountsConfig.Discovery.{
  mark_account_used, default_coins, create_account, maybe_add_hidden_unused_accounts,
  persist_default_account_configs,
}
use bitbox_wallet_app.AccountsConfig.Discovery.Keeps.{
  AreUnique, create_account-Keeps, maybe_add_hidden-Keeps, persist_defaults-Keeps,
  mark_account_used-Keeps,
}

-- The calls that change the configuration. Those that add accounts do not undo a part of their
-- changes on an error.
pub data Call : AccountsConfig → AccountsConfig → Type 0 where
  changes : (cfg cfg' : AccountsConfig) → Change cfg cfg' → Call cfg cfg'
  creates :
      (env : Env) (wallet : Wallet) (coin : CoinCode) (name : Text) (cfg : AccountsConfig)
      → Call cfg (create_account env wallet coin name cfg).1
  discovers :
      (env : Env) (wallet : Wallet) (regtest testing : Bool) (cfg : AccountsConfig)
      → Call cfg (maybe_add_hidden_unused_accounts env wallet regtest testing cfg).1
  defaults :
      (env : Env) (wallet : Wallet) (testing regtest : Bool) (active : CoinCode → Bool)
      (tokens : List Text) (cfg : AccountsConfig)
      → Call cfg (persist_default_account_configs env wallet testing regtest active tokens cfg).1
  marks : (code : Text) (cfg : AccountsConfig) → Call cfg (mark_account_used code cfg).1

pub data IsReachable : AccountsConfig → Type 0 where
  start : (ks : List Keystore) → IsReachable (record { accounts = []; keystores = ks })
  step : (cfg cfg' : AccountsConfig) → IsReachable cfg → Call cfg cfg' → IsReachable cfg'

Call-AreUnique : (cfg cfg' : AccountsConfig) → Call cfg cfg' → AreUnique cfg → AreUnique cfg'
unfolding persist_default_account_configs
Call-AreUnique _ _ (changes cfg cfg' c) = Change-IsUnique cfg cfg' c
Call-AreUnique _ _ (creates env wallet coin name cfg) =
    create_account-Keeps env wallet coin name cfg
Call-AreUnique _ _ (discovers env wallet regtest testing cfg) =
    maybe_add_hidden-Keeps env wallet regtest testing cfg
Call-AreUnique _ _ (defaults env wallet testing regtest active tokens cfg) =
    persist_defaults-Keeps env wallet active tokens (default_coins testing regtest) cfg
Call-AreUnique _ _ (marks code cfg) = mark_account_used-Keeps code cfg

-- From a configuration without accounts, whatever accounts are created, discovered, persisted,
-- activated, renamed, watched, marked as used and their tokens set, also by calls that end in an
-- error: no two accounts have one code, and no two of one coin share an extended key.
pub IsReachable-IsUnique : (cfg : AccountsConfig) → IsReachable cfg → IsUnique cfg.accounts
IsReachable-IsUnique _ (start ks) = _
IsReachable-IsUnique _ (step cfg cfg' r c) = Call-AreUnique cfg cfg' c (IsReachable-IsUnique cfg r)
