-- ===== src/AccountsConfig.antt =====
-- backend/config/accounts.go, and what backend/accounts.go does with the persisted accounts.
-- A pointer to an account of the configuration is its place: the first account with the code. The
-- callbacks of ModifyAccountsConfig are modelled, not the file that it writes.
pub mod Numbers
pub mod Hidden
pub mod Keystores
pub mod Unique
pub mod Changes
pub mod Codes
pub mod Creation
pub mod Discovery
pub mod Taproot
pub mod Loading
pub mod Tokens
mod Tests
use bitbox_wallet_app.Prelude.{
  ℕ, ◌+◌, ◌-◌, ◌%◌, ◌^◌, Bool, true, false, not, ◌&&◌, List, [], ◌∷◌, ◌++◌, map, Option, none, some,
  ltb, leb, ◌==◌, if◌then◌else◌,
}
use bitbox_wallet_app.Prelude.Run.{Run, ok, err, panic, ◌>>=◌, or_panic}
use bitbox_wallet_app.Signing.Configuration.{
  Configuration, same_bytes, key_info_of, account_number, root_fingerprint,
  contains_root_fingerprint,
}
use bitbox_wallet_app.Coins.{Text, CoinCode, btc, eth, same_coin}

pub data Error : Type 0 where
  account_already_exists account_limit_reached name_empty not_found tokens_only_for_eth : Error
  no_fingerprint no_keystore no_coin no_key unrecognized_coin no_number : Error

pub record Account : Type 0 where
  pub used : Bool
  pub inactive : Bool
  pub hidden_because_unused : Bool
  pub watch : Option Bool
  pub coin_code : CoinCode
  pub name : Text
  pub code : Text
  pub signing_configurations : List (Configuration ℕ)
  pub active_tokens : List Text

pub record Keystore : Type 0 where
  pub watchonly : Bool
  pub root_fingerprint : List ℕ

pub record AccountsConfig : Type 0 where
  pub accounts : List Account
  pub keystores : List Keystore

unfoldable pub lookup_in : Text → List Account → Option Account
unfolding same_bytes
lookup_in code [] = none
lookup_in code (a ∷ as') =
    let rest = lookup_in code as' in if same_bytes a.code code then some a else rest

unfoldable pub find_keystore : List ℕ → List Keystore → Option Keystore
unfolding same_bytes
find_keystore fingerprint [] = none
find_keystore fingerprint (k ∷ ks) =
    let rest = find_keystore fingerprint ks in
    if same_bytes k.root_fingerprint fingerprint then some k else rest

unfoldable pub lookup_keystore : List ℕ → AccountsConfig → Run Error Keystore
unfolding find_keystore
lookup_keystore fingerprint cfg = elim (find_keystore fingerprint cfg.keystores) [
  | none ↦ err no_keystore
  | some k ↦ ok k
]

unfoldable pub is_keystore_watchonly : List ℕ → AccountsConfig → Bool
unfolding lookup_keystore
is_keystore_watchonly fingerprint cfg = elim (lookup_keystore fingerprint cfg) [
  | ok k ↦ k.watchonly
  | _ ↦ false
]

unfoldable pub is_account_watchonly : Account → AccountsConfig → Run Error Bool
unfolding is_keystore_watchonly
is_account_watchonly a cfg = elim (root_fingerprint a.signing_configurations) [
  | ok fingerprint ↦
      ok (is_keystore_watchonly fingerprint cfg && elim a.watch [ none ↦ false | some w ↦ w ])
  | _ ↦ err no_fingerprint
]

-- The keystore, and the configuration with it.
unfoldable pub get_or_add_keystore : List ℕ → AccountsConfig → Keystore × AccountsConfig
unfolding lookup_keystore
get_or_add_keystore fingerprint cfg = elim (lookup_keystore fingerprint cfg) [
  | ok k ↦ (k, cfg)
  | _ ↦
      let k : Keystore = record { watchonly = false; root_fingerprint = fingerprint } in
      (k, record cfg { keystores = cfg.keystores ++ k ∷ [] })
]

unfoldable pub without : Text → List Text → List Text
unfolding same_bytes
without token [] = []
without token (t ∷ ts) =
    let rest = without token ts in if same_bytes t token then rest else t ∷ rest

unfoldable pub set_token_active : Text → Bool → Account → Run Error Account
unfolding same_coin without
set_token_active token active a =
    if same_coin a.coin_code eth
    then ok (record a {
      active_tokens =
          (if active
            then without token a.active_tokens ++ token ∷ []
            else without token a.active_tokens);
    })
    else err tokens_only_for_eth

-- What a call does to the account that Lookup finds.
unfoldable pub modify_in :
    Text → (Account → Run Error Account) → List Account → Run Error (List Account)
unfolding same_bytes
modify_in code f [] = err not_found
modify_in code f (a ∷ as') =
    let rest = modify_in code f as' in
    if same_bytes a.code code then (f a >>= λ b. ok (b ∷ as')) else rest >>= λ bs. ok (a ∷ bs)

unfoldable pub modify_account :
    Text → (Account → Run Error Account) → AccountsConfig → Run Error AccountsConfig
unfolding modify_in
modify_account code f cfg =
    modify_in code f cfg.accounts >>= λ as'. ok (record cfg { accounts = as' })

unfoldable pub set_account_active : Text → Bool → AccountsConfig → Run Error AccountsConfig
unfolding modify_account
set_account_active code active = modify_account code (λ a. ok (record a { inactive = not active }))

unfoldable pub set_account_token_active :
    Text → Text → Bool → AccountsConfig → Run Error AccountsConfig
unfolding modify_account set_token_active
set_account_token_active code token active = modify_account code (set_token_active token active)

unfoldable pub rename_account : Text → Text → AccountsConfig → Run Error AccountsConfig
unfolding modify_account same_bytes
rename_account code name cfg =
    if same_bytes name []
    then err name_empty
    else modify_account code (λ a. ok (record a { name = name })) cfg

unfoldable pub set_watch_in : (Account → Bool) → Option Bool → List Account → List Account
set_watch_in filter watch [] = []
set_watch_in filter watch (a ∷ as') =
    let rest = set_watch_in filter watch as' in
    (if filter a then record a { watch = watch } else a) ∷ rest

unfoldable pub account_set_watch : (Account → Bool) → Option Bool → AccountsConfig → AccountsConfig
unfolding set_watch_in
account_set_watch filter watch cfg = record cfg {
  accounts = set_watch_in filter watch cfg.accounts;
}

-- The key of a configuration; a nil one panics.
unfoldable pub key_of : Configuration ℕ → Run Error ℕ
unfolding key_info_of
key_of c =
    or_panic (key_info_of c.bitcoin_simple c.ethereum_simple) >>= λ k. ok k.extended_public_key

unfoldable pub has_key : Configuration ℕ → List (Configuration ℕ) → Run Error Bool
unfolding key_of
has_key c [] = ok false
has_key c (d ∷ ds) =
    let rest = has_key c ds in
    key_of c >>= λ x. key_of d >>= λ y. (if x == y then ok true else rest)

unfoldable pub shares_key : List (Configuration ℕ) → List (Configuration ℕ) → Run Error Bool
unfolding has_key
shares_key [] ds = ok false
shares_key (c ∷ cs) ds =
    let rest = shares_key cs ds in has_key c ds >>= λ h. (if h then ok true else rest)

unfoldable pub refuse_if : Bool → Run Error (Unit {0})
refuse_if true = err account_already_exists
refuse_if false = ok tt

-- Whether the account is new beside another one.
unfoldable pub check_beside : Account → Account → Run Error (Unit {0})
unfolding same_bytes same_coin shares_key refuse_if
check_beside a b =
    if same_bytes a.code b.code
    then err account_already_exists
    else (if same_coin a.coin_code b.coin_code
        then (shares_key a.signing_configurations b.signing_configurations >>= refuse_if)
        else ok tt)

unfoldable pub check_new : Account → List Account → Run Error (Unit {0})
unfolding check_beside
check_new a [] = ok tt
check_new a (b ∷ bs) = let rest = check_new a bs in check_beside a b >>= λ done. rest

unfoldable pub persist_account : Account → AccountsConfig → Run Error AccountsConfig
unfolding same_bytes check_new
persist_account a cfg =
    if same_bytes a.name []
    then err name_empty
    else check_new a cfg.accounts >>= λ done. ok (record cfg { accounts = cfg.accounts ++ a ∷ [] })

-- The number of an account of the coin and the keystore: of its first configuration.
unfoldable pub number_of : List (Configuration ℕ) → Option ℕ
number_of [] = none
number_of (c ∷ cs) = elim (account_number c) [ ok n ↦ some n | _ ↦ none ]

unfoldable pub number_if : CoinCode → List ℕ → Account → Option ℕ
unfolding same_coin number_of
number_if coin fingerprint a =
    if same_coin coin a.coin_code
    then (if contains_root_fingerprint fingerprint a.signing_configurations
        then number_of a.signing_configurations
        else none)
    else none

-- One round of the loop of findHiddenAccount; the numbers are uint16.
unfoldable pub take_hidden : Option ℕ → Account → ℕ × Option Account → ℕ × Option Account
take_hidden none a (smallest, result) = (smallest, result)
take_hidden (some n) a (smallest, result) =
    if a.hidden_because_unused && ltb n smallest then (n, some a) else (smallest, result)

unfoldable pub find_hidden_loop :
    CoinCode → List ℕ → List Account → ℕ × Option Account → ℕ × Option Account
unfolding number_if take_hidden
find_hidden_loop coin fingerprint [] p = p
find_hidden_loop coin fingerprint (a ∷ as') p =
    find_hidden_loop coin fingerprint as' (take_hidden (number_if coin fingerprint a) a p)

unfoldable pub find_hidden_account : CoinCode → List ℕ → AccountsConfig → Option Account
unfolding find_hidden_loop
find_hidden_account coin fingerprint cfg =
    (find_hidden_loop coin fingerprint cfg.accounts (2 ^ 16 - 1, none)).1

unfoldable pub next_after : Option ℕ → ℕ → ℕ
next_after none next = next
next_after (some n) next = if ltb next ((n + 1) % 2 ^ 16) then (n + 1) % 2 ^ 16 else next

unfoldable pub next_loop : CoinCode → List ℕ → List Account → ℕ → ℕ
unfolding number_if next_after
next_loop coin fingerprint [] next = next
next_loop coin fingerprint (a ∷ as') next =
    next_loop coin fingerprint as' (next_after (number_if coin fingerprint a) next)

abbrev pub accounts_hard_limit : ℕ
accounts_hard_limit = 5

unfoldable pub next_account_number : CoinCode → List ℕ → Bool → AccountsConfig → Run Error ℕ
unfolding next_loop
next_account_number coin fingerprint supports_multiple_accounts cfg =
    let next = next_loop coin fingerprint cfg.accounts 0 in
    if not supports_multiple_accounts && leb 1 next
    then err account_limit_reached
    else (if leb accounts_hard_limit next then err account_limit_reached else ok next)
