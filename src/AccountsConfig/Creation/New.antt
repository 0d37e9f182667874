-- ===== src/AccountsConfig/Creation/New.antt =====
-- A call that creates accounts only persists accounts of the coin, the keystore and the number.
use bitbox_wallet_app.Prelude.{ℕ, ◌^◌, ◌<◌, ◌≡◌, Bool, List, [], some, if◌then◌else◌}
use bitbox_wallet_app.Signing.Configuration.{same_bytes}
use bitbox_wallet_app.Coins.{Text, CoinCode, btc, tbtc, rbtc, ltc, tltc, eth, goeth, sepeth, other}
use bitbox_wallet_app.AccountsConfig.{no_fingerprint, no_coin, AccountsConfig}
use bitbox_wallet_app.AccountsConfig.Codes.{regular_account_code}
use bitbox_wallet_app.AccountsConfig.Creation.{
  Wallet, Env, or_err, default_account_name, persist_for, create_and_persist,
}
use bitbox_wallet_app.AccountsConfig.Creation.Paths.{
  btc_keypaths-HasNumber, ltc_keypaths-HasNumber, eth_path, eth_path-number, mainnet_path,
  testnet_path,
}
use bitbox_wallet_app.AccountsConfig.Creation.Grows.{
  Persisted, kept, Grows, >>>-Grows, reading-Grows,
}
use bitbox_wallet_app.AccountsConfig.Creation.Numbered.{IsNew}
use bitbox_wallet_app.AccountsConfig.Creation.Persisting.{persist_btc-Grows, persist_eth-Grows}

module _ (env : Env) (wallet : Wallet) (fingerprint : List ℕ)
    (owned : wallet.root_fingerprint ≡ some fingerprint) (n : ℕ) (small : n < 2 ^ 16) where
  persist_for-Grows :
      (coin : CoinCode) (code : Text) (hidden : Bool) (name : Text) (tokens : List Text)
      (cfg : AccountsConfig)
      → Grows
          (IsNew coin fingerprint n)
          cfg
          (persist_for env wallet coin code n hidden name tokens cfg)
  unfolding persist_for
  persist_for-Grows btc code hidden name tokens cfg =
      persist_btc-Grows env wallet btc fingerprint n owned code name hidden _ cfg
        (btc_keypaths-HasNumber 0 n small)
  persist_for-Grows tbtc code hidden name tokens cfg =
      persist_btc-Grows env wallet tbtc fingerprint n owned code name hidden _ cfg
        (btc_keypaths-HasNumber 1 n small)
  persist_for-Grows rbtc code hidden name tokens cfg =
      persist_btc-Grows env wallet rbtc fingerprint n owned code name hidden _ cfg
        (btc_keypaths-HasNumber 1 n small)
  persist_for-Grows ltc code hidden name tokens cfg =
      persist_btc-Grows env wallet ltc fingerprint n owned code name hidden _ cfg
        (ltc_keypaths-HasNumber 2 n small)
  persist_for-Grows tltc code hidden name tokens cfg =
      persist_btc-Grows env wallet tltc fingerprint n owned code name hidden _ cfg
        (ltc_keypaths-HasNumber 1 n small)
  persist_for-Grows eth code hidden name tokens cfg =
      persist_eth-Grows env wallet eth fingerprint n owned code name hidden _ (eth_path 60 n) tokens
        cfg (mainnet_path n small) (eth_path-number 60 n small)
  persist_for-Grows goeth code hidden name tokens cfg =
      persist_eth-Grows env wallet goeth fingerprint n owned code name hidden _ (eth_path 1 n)
        tokens cfg (testnet_path n small) (eth_path-number 1 n small)
  persist_for-Grows sepeth code hidden name tokens cfg =
      persist_eth-Grows env wallet sepeth fingerprint n owned code name hidden _ (eth_path 1 n)
        tokens cfg (testnet_path n small) (eth_path-number 1 n small)
  persist_for-Grows (other s) code hidden name tokens cfg = kept cfg

-- Whatever createAndPersistAccountConfig returns, an error included, the configuration that it leaves
-- is that before it with accounts added by persistAccount, and each of these is an account of the
-- coin, of the keystore and with the account number: AccountNumber reads the number back from the
-- keypath of its first configuration.
pub create_and_persist-Persisted :
    (env : Env) (wallet : Wallet) (fingerprint : List ℕ)
    → wallet.root_fingerprint ≡ some fingerprint
    → (n : ℕ) → n < 2 ^ 16
    → (coin : CoinCode) (hidden : Bool) (name : Text) (tokens : List Text) (cfg : AccountsConfig)
    → Persisted
        (IsNew coin fingerprint n)
        cfg
        (create_and_persist env wallet coin n hidden name tokens cfg).1
unfolding create_and_persist
create_and_persist-Persisted env wallet fingerprint owned n small coin hidden name tokens cfg =
    reading-Grows (IsNew coin fingerprint n) cfg (or_err no_fingerprint wallet.root_fingerprint) _
      (λ f e.
        reading-Grows (IsNew coin fingerprint n) cfg (or_err no_coin (env.coin_name coin)) _
          (λ coin_name known.
            >>>-Grows (IsNew coin fingerprint n) cfg
              (persist_for env wallet coin (regular_account_code f coin n) n hidden
                (if same_bytes name [] then default_account_name coin_name n else name) tokens cfg)
              _ (persist_for-Grows env wallet fingerprint owned n small coin _ hidden _ tokens cfg)
              (λ done cfg' e'. kept cfg')))
