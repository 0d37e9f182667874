-- ===== src/AccountsConfig/Creation/Tests.antt =====
-- A keystore and its first accounts, and the theorems at them.
use bitbox_wallet_app.Prelude.{
  ℕ, ◌+◌, ◌*◌, ◌≡◌, ◌≢◌, ◌⊎◌, refl, Bool, true, false, List, [], ◌∷◌, Option, some, All, arith,
  length, map,
}
use bitbox_wallet_app.Prelude.Run.{ok}
use bitbox_wallet_app.Signing.Text.{
  is_space, trim_left, trim_space, prepend, split, join, has_prefix, has_suffix, drop_last,
  find_after, after_first,
}
use bitbox_wallet_app.Signing.Decimal.{digits, format, scan, magnitude, positive, negative, atoi}
use bitbox_wallet_app.Signing.Keypath.{
  Keypath, encode_node, check_index, parse_node, add_node, parse_part, parse_parts, new_keypath,
  encode, node_to_uint32, to_uint32, new_relative_keypath, child, has_hardened,
  new_absolute_keypath, node_from_uint32, new_absolute_keypath_from_uint32, encode_absolute, append,
  derive_all, derive,
}
use bitbox_wallet_app.Signing.Configuration.{
  same_script_type, same_bytes, bitcoin_account, ethereum_account, bitcoin_of, script_type,
  key_info_of, absolute_keypath, extended_public_key, account_number_of, account_number,
  root_fingerprint, bitcoin_matches, ethereum_matches, contains_root_fingerprint, has_script_type,
  find_from, find_script_type, new_bitcoin_configuration, new_ethereum_configuration, derived,
  derive_bitcoin, derive_configuration,
}
use bitbox_wallet_app.Coins.{Text, text, CoinCode, btc, ltc, same_coin, code_text}
use bitbox_wallet_app.AccountsConfig.{
  Account, AccountsConfig, lookup_in, find_keystore, lookup_keystore, is_keystore_watchonly,
  is_account_watchonly, get_or_add_keystore, without, set_token_active, modify_in, modify_account,
  set_account_active, set_account_token_active, rename_account, set_watch_in, account_set_watch,
  key_of, has_key, shares_key, refuse_if, check_beside, check_new, persist_account, number_of,
  number_if, take_hidden, find_hidden_loop, find_hidden_account, next_after, next_loop,
  next_account_number,
}
use bitbox_wallet_app.AccountsConfig.Codes.{
  hex_digit, hex, regular_account_code, script_type_text, split_account_code, erc20_account_code,
}
use bitbox_wallet_app.AccountsConfig.Creation.{
  Wallet, Env, Outcome, or_err, changed, persist, default_account_name, bip44_keypath, with_keypath,
  btc_keypaths, ltc_keypaths, suffixed, watch_of, eth_keypath_text, new_account,
  derive_configurations, persist_each, persist_configurations, persist_supported,
  persist_btc_account_config, persist_eth_account_config, persist_for, create_and_persist,
}
use bitbox_wallet_app.AccountsConfig.Discovery.{
  suggested_name, can_add_of, can_add_account, update, unhidden, used_account, watched_if,
  mark_account_used, take_max, max_account, number_to_scan, discovery_coins, hidden_outcome,
  default_coins, default_tokens, create_unless_hidden, create_account, add_numbered, add_hidden_of,
  add_hidden_all, maybe_add_hidden_unused_accounts, persist_defaults_of,
  persist_default_account_configs,
}
use bitbox_wallet_app.AccountsConfig.Taproot.{
  is_bitcoin, bip44_coin, first_number, lacks_taproot, taproot_of, add_taproot, add_taproot_all,
  maybe_add_p2tr,
}
use bitbox_wallet_app.Maketx.Types.{ScriptType, p2tr, p2pkh}
use bitbox_wallet_app.AccountsConfig.Unique.{IsUnique}
use bitbox_wallet_app.AccountsConfig.Codes.Words.{CodeParts, IsProper, account_code}
use bitbox_wallet_app.AccountsConfig.Codes.Injective.{account_code_unique}
use bitbox_wallet_app.AccountsConfig.Creation.Grows.{Persisted}
use bitbox_wallet_app.AccountsConfig.Creation.Numbered.{IsNew}
use bitbox_wallet_app.AccountsConfig.Creation.New.{create_and_persist-Persisted}
use bitbox_wallet_app.AccountsConfig.Discovery.Reachable.{
  creates, discovers, marks, IsReachable, start, step, IsReachable-IsUnique,
}
use bitbox_wallet_app.AccountsConfig.Taproot.Upgrade.{
  IsDone, AreUpgraded, maybe_add_p2tr-AreUpgraded,
}
use bitbox_wallet_app.Prelude.{zero, suc}

program : Unit {0}
unfolding is_space trim_left trim_space prepend split join has_prefix has_suffix drop_last
    find_after after_first digits format scan magnitude positive negative atoi encode_node
    check_index parse_node add_node parse_part parse_parts new_keypath encode node_to_uint32
    to_uint32 new_relative_keypath child has_hardened new_absolute_keypath node_from_uint32
    new_absolute_keypath_from_uint32 encode_absolute append derive_all derive same_script_type
    same_bytes bitcoin_account ethereum_account bitcoin_of script_type key_info_of absolute_keypath
    extended_public_key account_number_of account_number root_fingerprint bitcoin_matches
    ethereum_matches contains_root_fingerprint has_script_type find_from find_script_type
    new_bitcoin_configuration new_ethereum_configuration derived derive_bitcoin derive_configuration
    same_coin code_text lookup_in find_keystore lookup_keystore is_keystore_watchonly
    is_account_watchonly get_or_add_keystore without set_token_active modify_in modify_account
    set_account_active set_account_token_active rename_account set_watch_in account_set_watch key_of
    has_key shares_key refuse_if check_beside check_new persist_account number_of number_if
    take_hidden find_hidden_loop find_hidden_account next_after next_loop next_account_number
    hex_digit hex regular_account_code script_type_text split_account_code erc20_account_code or_err
    changed persist default_account_name bip44_keypath with_keypath btc_keypaths ltc_keypaths
    suffixed watch_of eth_keypath_text new_account derive_configurations persist_each
    persist_configurations persist_supported persist_btc_account_config persist_eth_account_config
    persist_for create_and_persist update unhidden used_account watched_if mark_account_used
    take_max max_account number_to_scan discovery_coins hidden_outcome default_coins default_tokens
    create_unless_hidden create_account add_numbered add_hidden_of add_hidden_all
    maybe_add_hidden_unused_accounts persist_defaults_of persist_default_account_configs is_bitcoin
    bip44_coin first_number lacks_taproot taproot_of add_taproot add_taproot_all maybe_add_p2tr
    suggested_name can_add_of can_add_account
program = tt

-- A key is the sum of the numbers of its path, weighted.
abbrev key_at : ℕ → Keypath → ℕ
key_at w [] = 0
key_at w (k ∷ path) = w * (k.index + 1) + key_at (w * 100) path

abbrev wallet : Wallet
wallet = record {
  root_fingerprint = some (1 ∷ 255 ∷ []);
  supports_account = λ coin t. true;
  supports_unified_accounts = true;
  supports_multiple_accounts = true;
  extended_public_key = λ coin path. some (key_at 1 path);
}

abbrev name_of : CoinCode → Option Text
name_of ltc = some (text "Litecoin")
name_of coin = some (text "Bitcoin")

abbrev env : Env
env = record { coin_name = name_of; is_private = λ key. false }

abbrev empty : AccountsConfig
empty = record { accounts = []; keystores = [] }

abbrev second : Outcome Text
second = create_and_persist env wallet btc 1 true [] [] empty

names_run : map (λ a. a.name) second.1.accounts ≡ text "Bitcoin 2" ∷ []
unfolding program
names_run = refl

codes_run :
    (regular_account_code (1 ∷ 255 ∷ []) btc 1 ≡ text "v0-01ff-btc-1")
    × (map (λ a. a.code) second.1.accounts ≡ text "v0-01ff-btc-1" ∷ [])
    × (map (λ a. length a.signing_configurations) second.1.accounts ≡ 4 ∷ [])
unfolding program
codes_run = (refl, refl, refl)

-- The first account is added and marked as used, the next one is added hidden, and becomes visible.
abbrev first_config : AccountsConfig
first_config = (create_account env wallet btc (text "a") empty).1

abbrev used_config : AccountsConfig
used_config = (mark_account_used (text "v0-01ff-btc-0") first_config).1

abbrev discovered : AccountsConfig
discovered = (maybe_add_hidden_unused_accounts env wallet false false used_config).1

abbrev shown : Outcome Text
shown = create_account env wallet btc (text "b") discovered

discovery_run :
    (map (λ a. a.code) discovered.accounts
      ≡ text "v0-01ff-btc-0" ∷ text "v0-01ff-btc-1" ∷ text "v0-01ff-ltc-0" ∷ [])
    × (map (λ a. a.hidden_because_unused) discovered.accounts ≡ false ∷ true ∷ true ∷ [])
    × (shown.0 ≡ ok (text "v0-01ff-btc-1"))
    × (map (λ a. a.name) shown.1.accounts ≡ text "a" ∷ text "b" ∷ text "Litecoin" ∷ [])
unfolding program
discovery_run = (refl, refl, refl, refl)

discovered-IsReachable : IsReachable discovered
discovered-IsReachable =
    step used_config discovered
      (step first_config used_config
        (step empty first_config (start []) (creates env wallet btc (text "a") empty))
        (marks (text "v0-01ff-btc-0") first_config))
      (discovers env wallet false false used_config)

IsReachable-IsUnique_example : IsUnique discovered.accounts
IsReachable-IsUnique_example = IsReachable-IsUnique discovered discovered-IsReachable

create_and_persist-Persisted_example : Persisted (IsNew btc (1 ∷ 255 ∷ []) 1) empty second.1
create_and_persist-Persisted_example =
    create_and_persist-Persisted env wallet (1 ∷ 255 ∷ []) refl 1 (omega arith) btc true [] [] empty

-- An account from before taproot.
abbrev older_wallet : Wallet
older_wallet = record wallet { supports_account = λ coin t. is_older t }
  where
    is_older : Option ScriptType → Bool
    is_older (some p2tr) = false
    is_older t = true

abbrev older : List Account
older = (create_account env older_wallet btc (text "a") empty).1.accounts

taproot_run :
    (map (λ a. length a.signing_configurations) older ≡ 3 ∷ [])
    × (map (λ a. length a.signing_configurations) (maybe_add_p2tr env wallet older).1 ≡ 4 ∷ [])
unfolding program
taproot_run = (refl, refl)

maybe_add_p2tr-AreUpgraded_example :
    AreUpgraded (1 ∷ 255 ∷ []) older (maybe_add_p2tr env wallet older).1
    × ((true ≡ false)
        ⊎ ((maybe_add_p2tr env wallet older).0 ≢ ok tt)
        ⊎ All (IsDone wallet) (maybe_add_p2tr env wallet older).1)
maybe_add_p2tr-AreUpgraded_example = maybe_add_p2tr-AreUpgraded env wallet (1 ∷ 255 ∷ []) refl older

abbrev legacy : CodeParts
legacy = record { fingerprint = 1 ∷ 255 ∷ []; coin = btc; number = 3; split_type = some p2pkh }

legacy-IsProper : IsProper legacy
legacy-IsProper = record {
  bytes = (omega arith, (omega arith, _));
  listed = _;
  uint16 = omega arith;
  typed = _;
}

legacy_run : account_code legacy ≡ text "v0-01ff-btc-3-p2pkh"
unfolding program
legacy_run = refl

account_code_unique_example : legacy ≡ legacy
account_code_unique_example = account_code_unique legacy legacy legacy-IsProper legacy-IsProper refl

-- The sixth account is scanned even if the five before it are unused.
abbrev scanned : ℕ → AccountsConfig → AccountsConfig
scanned zero cfg = cfg
scanned (suc k) cfg = scanned k (add_hidden_of env wallet (1 ∷ 255 ∷ []) btc cfg).1

scan_run :
    map (λ a. number_if btc (1 ∷ 255 ∷ []) a) (scanned 8 empty).accounts
    ≡ some 0 ∷ some 1 ∷ some 2 ∷ some 3 ∷ some 4 ∷ some 5 ∷ []
unfolding program
scan_run = refl
