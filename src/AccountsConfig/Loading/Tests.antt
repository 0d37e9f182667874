-- ===== src/AccountsConfig/Loading/Tests.antt =====
-- Three accounts and a keystore, and the theorem at them.
use bitbox_wallet_app.Prelude.{
  ℕ, ◌≡◌, ◌≢◌, ◌⊎◌, refl, Bool, true, false, List, [], ◌∷◌, Option, none, some, All,
}
use bitbox_wallet_app.Prelude.Run.{ok}
use bitbox_wallet_app.Maketx.Types.{ScriptType, p2wpkh, p2tr}
use bitbox_wallet_app.Signing.Configuration.{
  same_bytes, bitcoin_of, key_info_of, root_fingerprint, bitcoin_matches, ethereum_matches,
  contains_root_fingerprint, script_type,
}
use bitbox_wallet_app.Coins.{Text, text, CoinCode, btc, tbtc, ltc, tltc, goeth, sepeth}
use bitbox_wallet_app.AccountsConfig.{
  Account, AccountsConfig, find_keystore, lookup_keystore, is_keystore_watchonly,
  is_account_watchonly,
}
use bitbox_wallet_app.AccountsConfig.Numbers.{AnyOf}
use bitbox_wallet_app.AccountsConfig.Creation.{Wallet, Env}
use bitbox_wallet_app.AccountsConfig.Loading.{
  is_testnet, is_regtest, is_left_out, is_btc_coin, is_known, is_watched, is_of_keystore,
  keystore_connected_or_watch, filter_accounts, supports_types, supports, is_loaded, load_all,
  init_persisted_accounts, available, supported_coins,
}
use bitbox_wallet_app.AccountsConfig.Loading.Filtered.{network_of, network_in, IsOnNetwork}
use bitbox_wallet_app.AccountsConfig.Loading.Loaded.{IsLoadable, init_persisted_accounts_lem}

program : Unit {0}
unfolding same_bytes bitcoin_of key_info_of root_fingerprint bitcoin_matches ethereum_matches
    contains_root_fingerprint script_type find_keystore lookup_keystore is_keystore_watchonly
    is_account_watchonly is_testnet is_regtest is_left_out is_btc_coin is_known is_watched
    is_of_keystore keystore_connected_or_watch filter_accounts supports_types supports is_loaded
    load_all init_persisted_accounts available supported_coins
program = tt

abbrev account : Text → CoinCode → ℕ → ScriptType → Account
account code coin owner t = record {
  used = false;
  inactive = false;
  hidden_because_unused = false;
  watch = some true;
  coin_code = coin;
  name = code;
  code = code;
  signing_configurations =
      bitcoin_of (record {
        key_info = record {
          root_fingerprint = owner ∷ [];
          absolute_keypath = [];
          extended_public_key = 1;
        };
        script_type = t;
      })
      ∷ [];
  active_tokens = [];
}

-- The keystore 2 is watch-only, the keystore 1 is connected and does not support taproot.
abbrev cfg : AccountsConfig
cfg = record {
  accounts =
      account (text "a") btc 1 p2wpkh
      ∷ account (text "b") ltc 1 p2tr
      ∷ account (text "c") btc 2 p2tr
      ∷ account (text "d") tbtc 2 p2wpkh
      ∷ account (text "e") ltc 3 p2wpkh
      ∷ [];
  keystores = record { watchonly = true; root_fingerprint = 2 ∷ [] } ∷ [];
}

abbrev supports_script : Option ScriptType → Bool
supports_script (some p2tr) = false
supports_script t = true

abbrev wallet : Wallet
wallet = record {
  root_fingerprint = some (1 ∷ []);
  supports_account = λ coin t. supports_script t;
  supports_unified_accounts = true;
  supports_multiple_accounts = true;
  extended_public_key = λ coin path. none;
}

abbrev env : Env
env = record { coin_name = λ coin. some (text "Coin"); is_private = λ key. false }

abbrev loaded : List Account
loaded = account (text "a") btc 1 p2wpkh ∷ account (text "c") btc 2 p2tr ∷ []

loaded_run : init_persisted_accounts env false false (some wallet) cfg ≡ ok loaded
unfolding program
loaded_run = refl

supported_run : supported_coins env false true (λ coin. true) ≡ tbtc ∷ tltc ∷ goeth ∷ sepeth ∷ []
unfolding program
supported_run = refl

init_persisted_accounts_example :
    All (λ a. IsOnNetwork env false false a × IsLoadable (some wallet) cfg a) loaded
    × All
        (λ a.
          (network_of a.coin_code ≢ network_in false false)
          ⊎ (env.coin_name a.coin_code ≡ none)
          ⊎ (is_account_watchonly a cfg ≢ ok true)
          ⊎ AnyOf (λ b. b ≡ a) loaded)
        cfg.accounts
init_persisted_accounts_example =
    init_persisted_accounts_lem env false false (some wallet) cfg loaded loaded_run
