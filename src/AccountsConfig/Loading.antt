-- ===== src/AccountsConfig/Loading.antt =====
-- backend/accounts.go: which persisted accounts are loaded, and which coins are supported.
-- `keystore` is the connected one, if any. createAndAddAccount, which loads an account, is not
-- modelled: the result is the accounts that it gets. An error that is logged drops the account.
use bitbox_wallet_app.Prelude.{
  ℕ, Bool, true, false, not, ◌&&◌, ◌||◌, List, [], ◌∷◌, Option, none, some, if◌then◌else◌,
}
use bitbox_wallet_app.Prelude.Run.{Run, ok, err, panic, ◌>>=◌}
use bitbox_wallet_app.Signing.Configuration.{Configuration, script_type, contains_root_fingerprint}
use bitbox_wallet_app.Coins.{CoinCode, btc, tbtc, rbtc, ltc, tltc, eth, goeth, sepeth, other}
use bitbox_wallet_app.AccountsConfig.{Error, Account, AccountsConfig, is_account_watchonly}
use bitbox_wallet_app.AccountsConfig.Creation.{Wallet, Env, panicking}
pub mod Filtered
pub mod Loaded
mod Tests

unfoldable pub is_testnet : CoinCode → Bool
is_testnet tbtc = true
is_testnet tltc = true
is_testnet goeth = true
is_testnet sepeth = true
is_testnet coin = false

unfoldable pub is_regtest : CoinCode → Bool
is_regtest rbtc = true
is_regtest coin = false

abbrev differ : Bool → Bool → Bool
differ true b = not b
differ false b = b

-- Whether accounts of the coin are left out on this network.
unfoldable pub is_left_out : Bool → Bool → CoinCode → Bool
unfolding is_testnet is_regtest
is_left_out regtest testing coin =
    (not regtest && differ (is_testnet coin) testing) || differ (is_regtest coin) regtest

-- btc.Coin is the type of the Bitcoin and Litecoin coins.
unfoldable pub is_btc_coin : CoinCode → Bool
is_btc_coin btc = true
is_btc_coin tbtc = true
is_btc_coin rbtc = true
is_btc_coin ltc = true
is_btc_coin tltc = true
is_btc_coin coin = false

unfoldable pub is_known : Option (List ℕ) → Bool
is_known none = false
is_known (some name) = true

-- An error of the fingerprint counts as not watch-only.
unfoldable pub is_watched : Account → AccountsConfig → Bool
unfolding is_account_watchonly
is_watched a cfg = elim (is_account_watchonly a cfg) [ ok w ↦ w | _ ↦ false ]

unfoldable pub is_of_keystore : Option Wallet → Account → Bool
is_of_keystore none a = false
is_of_keystore (some wallet) a = elim wallet.root_fingerprint [
  | none ↦ false
  | some fingerprint ↦ contains_root_fingerprint fingerprint a.signing_configurations
]

unfoldable pub keystore_connected_or_watch : Option Wallet → AccountsConfig → Account → Bool
unfolding is_watched is_of_keystore
keystore_connected_or_watch keystore cfg a = is_watched a cfg || is_of_keystore keystore a

unfoldable pub filter_accounts : Env → Bool → Bool → (Account → Bool) → List Account → List Account
unfolding is_left_out is_known
filter_accounts env regtest testing filter [] = []
filter_accounts env regtest testing filter (a ∷ as') =
    let rest = filter_accounts env regtest testing filter as' in
    if is_left_out regtest testing a.coin_code
    then rest
    else (if not (is_known (env.coin_name a.coin_code))
        then rest
        else (if filter a then a ∷ rest else rest))

-- All script types of the account are supported; the first that is not ends the loop.
unfoldable pub supports_types : Wallet → CoinCode → List (Configuration ℕ) → Run Error Bool
unfolding script_type
supports_types wallet coin [] = ok true
supports_types wallet coin (c ∷ cs) =
    let rest = supports_types wallet coin cs in
    panicking (script_type c) >>= λ t.
    (if wallet.supports_account coin (some t) then rest else ok false)

unfoldable pub supports : Wallet → Account → Run Error Bool
unfolding is_btc_coin supports_types
supports wallet a =
    if is_btc_coin a.coin_code
    then supports_types wallet a.coin_code a.signing_configurations
    else ok (wallet.supports_account a.coin_code none)

-- Whether an account that passed the filter is loaded.
unfoldable pub is_loaded : Option Wallet → AccountsConfig → Account → Run Error Bool
unfolding supports is_account_watchonly
is_loaded none cfg a = ok true
is_loaded (some wallet) cfg a = elim (is_account_watchonly a cfg) [
  | ok true ↦ ok true
  | ok false ↦ supports wallet a
  | _ ↦ ok false
]

unfoldable pub load_all : Option Wallet → AccountsConfig → List Account → Run Error (List Account)
unfolding is_loaded
load_all keystore cfg [] = ok []
load_all keystore cfg (a ∷ as') = do
  loaded ← is_loaded keystore cfg a
  rest ← load_all keystore cfg as'
  ok (if loaded then a ∷ rest else rest)

unfoldable pub init_persisted_accounts :
    Env → Bool → Bool → Option Wallet → AccountsConfig → Run Error (List Account)
unfolding filter_accounts keystore_connected_or_watch load_all
init_persisted_accounts env regtest testing keystore cfg =
    load_all keystore cfg
      (filter_accounts env regtest testing (keystore_connected_or_watch keystore cfg) cfg.accounts)

abbrev all_coins : List CoinCode
all_coins = btc ∷ tbtc ∷ rbtc ∷ ltc ∷ tltc ∷ eth ∷ goeth ∷ sepeth ∷ []

unfoldable pub available : Env → Bool → Bool → (CoinCode → Bool) → List CoinCode → List CoinCode
unfolding is_left_out is_known
available env regtest testing supports_coin [] = []
available env regtest testing supports_coin (coin ∷ coins) =
    let rest = available env regtest testing supports_coin coins in
    if is_left_out regtest testing coin
    then rest
    else (if is_known (env.coin_name coin) && supports_coin coin then coin ∷ rest else rest)

unfoldable pub supported_coins : Env → Bool → Bool → (CoinCode → Bool) → List CoinCode
unfolding available
supported_coins env regtest testing supports_coin =
    available env regtest testing supports_coin all_coins
