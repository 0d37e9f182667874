-- ===== src/AccountsConfig/Tests.antt =====
-- A configuration with three accounts, and the theorems at it.
use bitbox_wallet_app.Prelude.{
  ℕ, ◌+◌, ◌-◌, ◌^◌, ◌<◌, ◌≤◌, ◌≡◌, ◌≢◌, ◌⊎◌, refl, Bool, true, false, [], ◌∷◌, none, some, All,
}
use bitbox_wallet_app.Prelude.Run.{ok, err}
use bitbox_wallet_app.Maketx.Types.{p2wpkh}
use bitbox_wallet_app.Signing.Keypath.{KeyNode, node_to_uint32, to_uint32}
use bitbox_wallet_app.Signing.Configuration.{
  Configuration, same_bytes, bitcoin_of, key_info_of, bitcoin_account, account_number_of,
  account_number, root_fingerprint, bitcoin_matches, ethereum_matches, contains_root_fingerprint,
}
use bitbox_wallet_app.Coins.{text, btc, eth, same_coin}
use bitbox_wallet_app.AccountsConfig.{
  account_already_exists, account_limit_reached, Account, AccountsConfig, find_keystore,
  lookup_keystore, lookup_in, is_keystore_watchonly, is_account_watchonly, get_or_add_keystore,
  without, set_token_active, modify_in, modify_account, set_account_active,
  set_account_token_active, rename_account, set_watch_in, account_set_watch, key_of, has_key,
  shares_key, refuse_if, check_beside, check_new, persist_account, number_of, number_if,
  take_hidden, find_hidden_loop, find_hidden_account, next_after, next_loop, accounts_hard_limit,
  next_account_number,
}
use bitbox_wallet_app.AccountsConfig.Numbers.{AnyOf, IsJustBefore, next_account_number_cases}
use bitbox_wallet_app.AccountsConfig.Hidden.{IsAbove, IsHidden, find_hidden_account_cases}

program : Unit {0}
unfolding node_to_uint32 to_uint32 same_bytes bitcoin_of key_info_of bitcoin_account
    account_number_of account_number root_fingerprint bitcoin_matches ethereum_matches
    contains_root_fingerprint same_coin find_keystore lookup_keystore lookup_in
    is_keystore_watchonly is_account_watchonly get_or_add_keystore without set_token_active
    modify_in modify_account set_account_active set_account_token_active rename_account set_watch_in
    account_set_watch key_of has_key shares_key refuse_if check_beside check_new persist_account
    number_of number_if take_hidden find_hidden_loop find_hidden_account next_after next_loop
    next_account_number
program = tt

abbrev hardened : ℕ → KeyNode
hardened n = record { index = n; hardened = true }

abbrev configuration : ℕ → ℕ → Configuration ℕ
configuration number key = bitcoin_of (record {
  key_info = record {
    root_fingerprint = 1 ∷ [];
    absolute_keypath = hardened 84 ∷ hardened 0 ∷ hardened number ∷ [];
    extended_public_key = key;
  };
  script_type = p2wpkh;
})

abbrev account : ℕ → Bool → Account
account number hidden = record {
  used = false;
  inactive = false;
  hidden_because_unused = hidden;
  watch = none;
  coin_code = btc;
  name = text "a";
  code = number ∷ [];
  signing_configurations = configuration number (10 + number) ∷ [];
  active_tokens = [];
}

abbrev three : AccountsConfig
three = record { accounts = account 0 false ∷ account 2 true ∷ account 1 true ∷ []; keystores = [] }

abbrev empty : AccountsConfig
empty = record { accounts = []; keystores = [] }

abbrev one : AccountsConfig
one = record empty { accounts = account 0 false ∷ [] }

numbers_run :
    (next_account_number btc (1 ∷ []) true three ≡ ok 3)
    × (next_account_number btc (2 ∷ []) false three ≡ ok 0)
    × (next_account_number btc (1 ∷ []) false three ≡ err account_limit_reached)
    × (find_hidden_account btc (1 ∷ []) three ≡ some (account 1 true))
unfolding program
numbers_run = (refl, refl, refl, refl)

persist_run :
    (persist_account (account 0 false) empty ≡ ok one)
    × (persist_account (record (account 0 true) { code = [] }) one ≡ err account_already_exists)
    × (is_account_watchonly
          (record (account 0 true) { watch = some true })
          (record one { keystores = record { watchonly = true; root_fingerprint = 1 ∷ [] } ∷ [] })
        ≡ ok true)
unfolding program
persist_run = (refl, refl, refl)

next_account_number_cases_example :
    ((n : ℕ) × (next_account_number btc (1 ∷ []) true three ≡ ok n)
      × (n < accounts_hard_limit)
      × All (λ a. number_if btc (1 ∷ []) a ≢ some n) three.accounts
      × ((n ≡ 0) ⊎ (true ≡ true) × AnyOf (IsJustBefore btc (1 ∷ []) n) three.accounts))
    ⊎ (next_account_number btc (1 ∷ []) true three ≡ err account_limit_reached)
      × ((n : ℕ) × AnyOf (IsJustBefore btc (1 ∷ []) n) three.accounts
          × ((true ≡ false) × (0 < n) ⊎ (accounts_hard_limit ≤ n)))
next_account_number_cases_example = next_account_number_cases btc (1 ∷ []) true three

find_hidden_account_cases_example :
    (find_hidden_account btc (1 ∷ []) three ≡ none)
      × All (IsAbove btc (1 ∷ []) (2 ^ 16 - 1)) three.accounts
    ⊎ ((a : Account) × (find_hidden_account btc (1 ∷ []) three ≡ some a)
        × ((n : ℕ) × IsHidden btc (1 ∷ []) n a
            × AnyOf (λ b. b ≡ a) three.accounts
            × All (IsAbove btc (1 ∷ []) n) three.accounts))
find_hidden_account_cases_example = find_hidden_account_cases btc (1 ∷ []) three

abbrev token_account : Account
token_account = record (account 0 false) {
  coin_code = eth;
  active_tokens = text "t" ∷ text "u" ∷ [];
}

is_eth : same_coin token_account.coin_code eth ≡ true
unfolding program
is_eth = refl
