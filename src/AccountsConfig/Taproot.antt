-- ===== src/AccountsConfig/Taproot.antt =====
-- backend/accounts.go: maybeAddP2TR, which gives older Bitcoin accounts a taproot configuration.
-- The accounts are changed in place: an error leaves those before it changed.
use bitbox_wallet_app.Prelude.{
  ℕ, Bool, true, false, ◌&&◌, List, [], ◌∷◌, ◌++◌, none, some, if◌then◌else◌,
}
use bitbox_wallet_app.Prelude.Run.{Run, ok, err, panic, out_of_fuel, ◌>>=◌}
use bitbox_wallet_app.Maketx.Types.{p2tr}
use bitbox_wallet_app.Signing.Configuration.{
  Configuration, find_script_type, account_number, new_bitcoin_configuration,
}
use bitbox_wallet_app.Coins.{CoinCode, btc, tbtc, rbtc}
use bitbox_wallet_app.AccountsConfig.{Error, no_coin, no_key, no_fingerprint, no_number, Account}
use bitbox_wallet_app.AccountsConfig.Creation.{
  Wallet, Env, or_err, bip44_keypath, panicking, no_child,
}
pub mod Upgrade

unfoldable pub is_bitcoin : CoinCode → Bool
is_bitcoin btc = true
is_bitcoin tbtc = true
is_bitcoin rbtc = true
is_bitcoin coin = false

unfoldable pub bip44_coin : CoinCode → ℕ
bip44_coin btc = 0
bip44_coin coin = 1

-- The number of the first configuration; without one the code panics.
unfoldable pub first_number : List (Configuration ℕ) → Run Error ℕ
first_number [] = panic
first_number (c ∷ cs) = elim (account_number c) [ ok n ↦ ok n | err e ↦ err no_number | _ ↦ panic ]

unfoldable pub lacks_taproot : List (Configuration ℕ) → Bool
lacks_taproot cs = elim (find_script_type p2tr cs) [ none ↦ true | some i ↦ false ]

module _ (env : Env) (wallet : Wallet) where
  unfoldable pub taproot_of : Account → Run Error (Configuration ℕ)
  unfolding or_err first_number bip44_coin
  taproot_of a = do
    fingerprint ← or_err no_fingerprint wallet.root_fingerprint
    n ← first_number a.signing_configurations
    let path = bip44_keypath 86 (bip44_coin a.coin_code) n
    key ← or_err no_key (wallet.extended_public_key a.coin_code path)
    panicking (new_bitcoin_configuration env.is_private no_child p2tr fingerprint path key)

  unfoldable pub add_taproot : Account → Run Error Account
  unfolding or_err taproot_of lacks_taproot is_bitcoin
  add_taproot a =
      let added =
        (taproot_of a >>= λ c.
        ok (record a { signing_configurations = a.signing_configurations ++ c ∷ [] })) in
      if is_bitcoin a.coin_code
      then (or_err no_coin (env.coin_name a.coin_code) >>= λ name.
          (if wallet.supports_account a.coin_code (some p2tr)
              && lacks_taproot a.signing_configurations
            then added
            else ok a))
      else ok a

  unfoldable pub add_taproot_all : List Account → Run Error (Unit {0}) × List Account
  unfolding add_taproot
  add_taproot_all [] = (ok tt, [])
  add_taproot_all (a ∷ as') =
      let (r, rest) = add_taproot_all as' in
      elim (add_taproot a) [
        | ok b ↦ (r, b ∷ rest)
        | err e ↦ (err e, a ∷ as')
        | panic ↦ (panic, a ∷ as')
        | out_of_fuel ↦ (out_of_fuel, a ∷ as')
      ]

  unfoldable pub maybe_add_p2tr : List Account → Run Error (Unit {0}) × List Account
  maybe_add_p2tr accounts =
      if wallet.supports_unified_accounts then add_taproot_all accounts else (ok tt, accounts)
