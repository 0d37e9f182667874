-- ===== src/AccountsConfig/Creation.antt =====
-- backend/accounts.go: the configurations of new accounts.
-- A call gives its result and the configuration that it leaves, which an error does not undo.
-- `Wallet` is what the code asks of the keystore, and `Env` of the coins: backend.Coin, and
-- hdkeychain's IsPrivate.
use bitbox_wallet_app.Prelude.{
  ℕ, ◌+◌, ◌-◌, ◌%◌, ◌^◌, Bool, true, false, not, ◌&&◌, ◌||◌, List, [], ◌∷◌, ◌++◌, map, select,
  Option, none, some, ltb, leb, ◌==◌, if◌then◌else◌,
}
use bitbox_wallet_app.Prelude.Run.{Run, ok, err, panic, out_of_fuel, ◌>>=◌}
use bitbox_wallet_app.Maketx.Types.{ScriptType, p2pkh, p2wpkh_p2sh, p2wpkh, p2tr, unknown}
use bitbox_wallet_app.Signing.Keypath.{
  Keypath, hardened_key_start, new_absolute_keypath, new_absolute_keypath_from_uint32,
}
use bitbox_wallet_app.Signing.Configuration as S
use bitbox_wallet_app.Signing.Keypath as K
use bitbox_wallet_app.Signing.Decimal.{format}
use bitbox_wallet_app.Signing.Configuration.{
  Configuration, same_bytes, new_bitcoin_configuration, new_ethereum_configuration, script_type,
  find_script_type, account_number, contains_root_fingerprint, root_fingerprint,
}
use bitbox_wallet_app.Coins.{
  Text, text, CoinCode, btc, tbtc, rbtc, ltc, tltc, eth, goeth, sepeth, other, same_coin,
}
use bitbox_wallet_app.AccountsConfig.{
  Error, account_already_exists, no_fingerprint, not_found, no_coin, no_key, unrecognized_coin,
  Account, AccountsConfig, is_keystore_watchonly, persist_account, find_hidden_account,
  next_account_number, accounts_hard_limit,
}
use bitbox_wallet_app.AccountsConfig.Codes.{regular_account_code, split_account_code}
pub mod Grows
pub mod Numbered
pub mod Persisting
pub mod New
pub mod Paths
mod Tests

pub record Wallet : Type 0 where
  pub root_fingerprint : Option (List ℕ)
  -- None for a coin without script types.
  pub supports_account : CoinCode → Option ScriptType → Bool
  pub supports_unified_accounts : Bool
  pub supports_multiple_accounts : Bool
  pub extended_public_key : CoinCode → Keypath → Option ℕ

pub record Env : Type 0 where
  pub coin_name : CoinCode → Option Text
  pub is_private : ℕ → Bool

-- What a call returns, and the configuration after it.
abbrev pub Outcome : Type 0 → Type 0
Outcome A = Run Error A × AccountsConfig

infixl 5 ◌>>>◌
abbrev pub ◌>>>◌ : {A B : Type 0} → Outcome A → (A → AccountsConfig → Outcome B) → Outcome B
(ok a, cfg) >>> next = next a cfg
(err e, cfg) >>> next = (err e, cfg)
(panic, cfg) >>> next = (panic, cfg)
(out_of_fuel, cfg) >>> next = (out_of_fuel, cfg)

-- A part that does not touch the configuration.
abbrev pub reading : {A : Type 0} → Run Error A → AccountsConfig → Outcome A
reading r cfg = (r, cfg)

unfoldable pub or_err : {A : Type 0} → Error → Option A → Run Error A
or_err e none = err e
or_err e (some a) = ok a

-- persistAccount changes the configuration only when it returns.
unfoldable pub changed : Run Error AccountsConfig → AccountsConfig → Outcome (Unit {0})
changed (ok cfg') cfg = (ok tt, cfg')
changed (err e) cfg = (err e, cfg)
changed panic cfg = (panic, cfg)
changed out_of_fuel cfg = (out_of_fuel, cfg)

unfoldable pub persist : Account → AccountsConfig → Outcome (Unit {0})
unfolding changed
persist a cfg = changed (persist_account a cfg) cfg

unfoldable pub default_account_name : Text → ℕ → Text
default_account_name name number =
    if ltb 0 number then name ++ b' ' ∷ format ((number + 1) % 2 ^ 16) else name

pub record ScriptTypeWithKeypath : Type 0 where
  pub script_type : ScriptType
  pub keypath : Keypath

abbrev pub hardened : ℕ → ℕ
hardened n = (n + hardened_key_start) % 2 ^ 32

-- A BIP-44 path of a purpose, a coin and an account number.
unfoldable pub bip44_keypath : ℕ → ℕ → ℕ → Keypath
bip44_keypath purpose coin number =
    new_absolute_keypath_from_uint32 (hardened purpose ∷ hardened coin ∷ hardened number ∷ [])

unfoldable pub with_keypath : ScriptType → ℕ → ℕ → ℕ → ScriptTypeWithKeypath
unfolding bip44_keypath
with_keypath t purpose coin number = record {
  script_type = t;
  keypath = bip44_keypath purpose coin number;
}

unfoldable pub btc_keypaths : ℕ → ℕ → List ScriptTypeWithKeypath
unfolding with_keypath
btc_keypaths coin number =
    with_keypath p2wpkh 84 coin number
    ∷ with_keypath p2tr 86 coin number
    ∷ with_keypath p2wpkh_p2sh 49 coin number
    ∷ with_keypath p2pkh 44 coin number
    ∷ []

unfoldable pub ltc_keypaths : ℕ → ℕ → List ScriptTypeWithKeypath
unfolding with_keypath
ltc_keypaths coin number =
    with_keypath p2wpkh 84 coin number ∷ with_keypath p2wpkh_p2sh 49 coin number ∷ []

-- The name suffix of an account of one script type.
unfoldable pub suffixed : Text → Run Error ScriptType → Run Error Text
suffixed name (ok p2pkh) = ok (name ++ text ": legacy")
suffixed name (ok p2wpkh) = ok (name ++ text ": bech32")
suffixed name (ok t) = ok name
suffixed name r = panic

-- A call into signing that does not fail but may panic.
-- A keypath's error makes the code panic.
abbrev keypath_of : Run K.Error Keypath → Run Error Keypath
keypath_of (ok path) = ok path
keypath_of r = panic

-- The constructors of configurations derive nothing.
abbrev pub no_child : ℕ → ℕ → Option ℕ
no_child key number = none

abbrev pub panicking : {A : Type 0} → Run S.Error A → Run Error A
panicking (ok a) = ok a
panicking r = panic

unfoldable pub watch_of : Bool → List ℕ → AccountsConfig → Option Bool
watch_of hidden fingerprint cfg =
    if not hidden && is_keystore_watchonly fingerprint cfg then some true else none

-- "m/44'/%s/0'/0/%d".
unfoldable pub eth_keypath_text : Text → ℕ → Text
eth_keypath_text coin number = text "m/44'/" ++ coin ++ text "/0'/0/" ++ format number

-- The other fields of a new account are not set.
unfoldable pub new_account :
    CoinCode → Text → Text → Bool → Option Bool → List (Configuration ℕ) → List Text → Account
new_account coin code name hidden watch configurations tokens = record {
  used = false;
  inactive = false;
  hidden_because_unused = hidden;
  watch = watch;
  coin_code = coin;
  name = name;
  code = code;
  signing_configurations = configurations;
  active_tokens = tokens;
}

module _ (env : Env) (wallet : Wallet) where
  unfoldable pub derive_configurations :
      CoinCode → List ℕ → List ScriptTypeWithKeypath → Run Error (List (Configuration ℕ))
  unfolding or_err
  derive_configurations coin fingerprint [] = ok []
  derive_configurations coin fingerprint (c ∷ cs) = do
    key ← or_err no_key (wallet.extended_public_key coin c.keypath)
    configuration ←
        panicking (
          new_bitcoin_configuration env.is_private no_child c.script_type fingerprint c.keypath key)
    rest ← derive_configurations coin fingerprint cs
    ok (configuration ∷ rest)

  -- One account for each configuration.
  unfoldable pub persist_each :
      CoinCode
      → Text
      → Text
      → Bool
      → Option Bool
      → List (Configuration ℕ)
      → AccountsConfig
      → Outcome (Unit {0})
  unfolding persist suffixed new_account
  persist_each coin code name hidden watch [] cfg = (ok tt, cfg)
  persist_each coin code name hidden watch (c ∷ cs) cfg =
      reading (panicking (script_type c)) cfg >>> λ t cfg.
      reading (suffixed name (ok t)) cfg >>> λ suffixed_name cfg.
      persist (new_account coin (split_account_code code t) suffixed_name hidden watch (c ∷ []) [])
        cfg
      >>> λ done cfg. persist_each coin code name hidden watch cs cfg

  unfoldable pub persist_configurations :
      CoinCode
      → Text
      → Text
      → Bool
      → List ℕ
      → List (Configuration ℕ)
      → AccountsConfig
      → Outcome (Unit {0})
  unfolding persist watch_of new_account
  persist_configurations coin code name hidden fingerprint configurations cfg =
      let watch = watch_of hidden fingerprint cfg in
      if wallet.supports_unified_accounts
      then persist (new_account coin code name hidden watch configurations []) cfg
      else persist_each coin code name hidden watch configurations cfg

  unfoldable pub persist_supported :
      CoinCode
      → Text
      → Text
      → Bool
      → List ScriptTypeWithKeypath
      → AccountsConfig
      → Outcome (Unit {0})
  unfolding or_err
  persist_supported coin code name hidden [] cfg = (ok tt, cfg)
  persist_supported coin code name hidden (c ∷ cs) cfg =
      reading (or_err no_fingerprint wallet.root_fingerprint) cfg >>> λ fingerprint cfg.
      reading (derive_configurations coin fingerprint (c ∷ cs)) cfg >>> λ configurations cfg.
      persist_configurations coin code name hidden fingerprint configurations cfg

  unfoldable pub persist_btc_account_config :
      CoinCode
      → Text
      → Bool
      → Text
      → List ScriptTypeWithKeypath
      → AccountsConfig
      → Outcome (Unit {0})
  persist_btc_account_config coin code hidden name configs cfg =
      persist_supported coin code name hidden
        (select (λ c. wallet.supports_account coin (some c.script_type)) configs) cfg

  unfoldable pub persist_eth_account_config :
      CoinCode → Text → Bool → Text → Text → List Text → AccountsConfig → Outcome (Unit {0})
  unfolding or_err persist watch_of new_account
  persist_eth_account_config coin code hidden keypath name tokens cfg =
      let persisted =
        (reading (keypath_of (new_absolute_keypath keypath)) cfg >>> λ path cfg.
        reading (or_err no_key (wallet.extended_public_key coin path)) cfg >>> λ key cfg.
        reading (or_err no_fingerprint wallet.root_fingerprint) cfg >>> λ fingerprint cfg.
        reading
          (panicking (new_ethereum_configuration env.is_private no_child fingerprint path key)) cfg
        >>> λ configuration cfg.
            persist
              (new_account coin code name hidden (watch_of hidden fingerprint cfg)
                (configuration ∷ []) tokens)
              cfg) in
      if wallet.supports_account coin none then persisted else (ok tt, cfg)

  -- The cases of the coin.
  unfoldable pub persist_for :
      CoinCode → Text → ℕ → Bool → Text → List Text → AccountsConfig → Outcome (Unit {0})
  unfolding btc_keypaths ltc_keypaths eth_keypath_text
  persist_for btc code n hidden name tokens cfg =
      persist_btc_account_config btc code hidden name (btc_keypaths 0 n) cfg
  persist_for tbtc code n hidden name tokens cfg =
      persist_btc_account_config tbtc code hidden name (btc_keypaths 1 n) cfg
  persist_for rbtc code n hidden name tokens cfg =
      persist_btc_account_config rbtc code hidden name (btc_keypaths 1 n) cfg
  persist_for ltc code n hidden name tokens cfg =
      persist_btc_account_config ltc code hidden name (ltc_keypaths 2 n) cfg
  persist_for tltc code n hidden name tokens cfg =
      persist_btc_account_config tltc code hidden name (ltc_keypaths 1 n) cfg
  persist_for eth code n hidden name tokens cfg =
      persist_eth_account_config eth code hidden (eth_keypath_text (text "60'") n) name tokens cfg
  persist_for goeth code n hidden name tokens cfg =
      persist_eth_account_config goeth code hidden (eth_keypath_text (text "1'") n) name tokens cfg
  persist_for sepeth code n hidden name tokens cfg =
      persist_eth_account_config sepeth code hidden (eth_keypath_text (text "1'") n) name tokens cfg
  persist_for (other s) code n hidden name tokens cfg = (err unrecognized_coin, cfg)

  -- The code of the new account.
  unfoldable pub create_and_persist :
      CoinCode → ℕ → Bool → Text → List Text → AccountsConfig → Outcome Text
  unfolding or_err same_bytes default_account_name
  create_and_persist coin n hidden name tokens cfg =
      reading (or_err no_fingerprint wallet.root_fingerprint) cfg >>> λ fingerprint cfg.
      reading (or_err no_coin (env.coin_name coin)) cfg >>> λ coin_name cfg.
      let name' = if same_bytes name [] then default_account_name coin_name n else name in
      let code = regular_account_code fingerprint coin n in
      persist_for coin code n hidden name' tokens cfg >>> λ done cfg. (ok code, cfg)
