-- ===== src/Aopp/Tests.antt =====
-- Requests on a small backend, and the theorems at them.
use mathlib.Core.Path.{subst}
use mathlib.Core.Logic.{◌⊎◌}
use bitbox_wallet_app.Prelude.{
  ℕ, ◌≡◌, ◌≢◌, refl, true, false, List, [], ◌∷◌, ◌++◌, map, Option, some, select, ◌&&◌, not,
  get_elem?,
}
use bitbox_wallet_app.Prelude.Run.{Run, ok}
use bitbox_wallet_app.Maketx.Types.{ScriptType, p2wpkh, p2tr}
use bitbox_wallet_app.Signing.Configuration.{
  Configuration, Error, same_bytes, same_script_type, bitcoin_of, script_type, key_info_of,
  root_fingerprint, has_script_type, find_from, find_script_type,
}
use bitbox_wallet_app.Coins.{Text, text, CoinCode, btc, eth, same_coin}
use bitbox_wallet_app.Aopp.Types.{
  error, inactive, user_approval, choosing_account, success, callback_error, Choice, Aopp,
  inactive_aopp, Address, Account, signature, aborted, Keystore, Query, Backend, syncing, signing,
}
use bitbox_wallet_app.Aopp.{
  compare_root_fingerprint, to_lower, aopp_coin, aopp_btc_script_type, is_state, notify, to_state,
  set_error, cancel, has_format, find_format, signing_config_idx, find_account, first_address,
  sign_btc, sign, offer, add_offer, offers, deliver, finish_signing, sign_address, with_idx,
  with_account, choose_account, offer_accounts, with_offers, with_keystore, keystore_registered,
  with_approval, approve, with_message, with_coin, handle,
}
use bitbox_wallet_app.Aopp.Offers.{
  every, some_of, has_fingerprint, suits, serves, choice_of, offers-select, if_known,
}
use bitbox_wallet_app.Aopp.Requests.{Answers, handle_lem}
use bitbox_wallet_app.Aopp.Reachable.{
  requested, approved, IsReachable, start, step, IsReachable-IsConsistent,
}
use bitbox_wallet_app.Aopp.Progress.{IsConsistent}
use bitbox_wallet_app.Aopp.Ready.{IsReady, choose_account_lem}
use bitbox_wallet_app.Aopp.Success.{IsDelivered}

program : Unit {0}
unfolding same_bytes same_script_type bitcoin_of script_type key_info_of root_fingerprint
    has_script_type find_from find_script_type same_coin to_lower aopp_coin aopp_btc_script_type
    is_state notify to_state set_error cancel compare_root_fingerprint has_format find_format
    signing_config_idx find_account first_address sign_btc sign offer add_offer offers deliver
    finish_signing sign_address with_idx with_account choose_account offer_accounts with_offers
    with_keystore keystore_registered with_approval approve with_message with_coin handle
program = tt

abbrev wallet : Keystore
wallet = record {
  can_sign_message = λ c. true;
  root_fingerprint = some (1 ∷ []);
  sign_btc_message = λ m p t. signature (m ++ 33 ∷ []);
  sign_eth_message = λ m p. aborted;
}

abbrev with_type : ScriptType → Configuration ℕ
with_type t = bitcoin_of (record {
  key_info = record { root_fingerprint = 1 ∷ []; absolute_keypath = []; extended_public_key = 7 };
  script_type = t;
})

abbrev address : ℕ → Address
address n = record { encoded = n ∷ []; id = n ∷ []; absolute_keypath = [] }

abbrev account : ℕ → CoinCode → List (Configuration ℕ) → Account
account n coin configurations = record {
  code = n ∷ [];
  name = text "a";
  coin_code = coin;
  signing_configurations = configurations;
  inactive_account = false;
  hidden_because_unused = false;
  initializes = true;
  unused_addresses = (address 10 ∷ []) ∷ (address 11 ∷ []) ∷ [];
}

abbrev btc_account : Account
btc_account = account 1 btc (with_type p2tr ∷ with_type p2wpkh ∷ [])

abbrev query : Query
query = record {
  v = text "0";
  callback = text "u";
  callback_parses = true;
  asset = text "BTC";
  msg = text "m";
  format = text "p2wpkh";
}

abbrev post : Text → Text → Text → Option ℕ
post callback a sig = some 204

abbrev idle : List Account → Backend
idle loaded = record {
  aopp = inactive_aopp;
  keystore = some wallet;
  accounts = loaded;
  notified = [];
}

abbrev returned : Run Error Backend → Backend
returned (ok b) = b
returned r = idle []

abbrev asked_once : Backend
asked_once = handle query (idle (btc_account ∷ []))

abbrev approved_once : Backend
approved_once = returned (approve post asked_once)

-- The one account that suits is chosen at once, and its address goes out.
approve_run :
    (approve post asked_once ≡ ok approved_once)
    × (map (λ (a : Aopp). a.state) approved_once.notified
        ≡ success ∷ signing ∷ syncing ∷ user_approval ∷ [])
    × (approved_once.aopp.address ≡ 11 ∷ [])
unfolding program
approve_run = (refl, refl, refl)

-- Two accounts: the user chooses, and an unknown one is an error.
abbrev twice : Backend
twice = returned (
    approve post (
      handle query (
        idle (
          account 2 btc (with_type p2wpkh ∷ [])
          ∷ account 3 eth (with_type p2tr ∷ [])
          ∷ btc_account
          ∷ []))))

choose_run :
    (twice.aopp.state ≡ choosing_account)
    × (map (λ (c : Choice). c.code) twice.aopp.accounts ≡ (2 ∷ []) ∷ (1 ∷ []) ∷ [])
    × ((returned (choose_account post (3 ∷ 3 ∷ []) twice)).aopp.state ≡ error)
    × ((returned (choose_account (λ c a s. some 200) (1 ∷ []) twice)).aopp.error_code
        ≡ some callback_error)
    × ((cancel twice).aopp.state ≡ inactive)
unfolding program
choose_run = (refl, refl, refl, refl, refl)

handle_example : Answers query asked_once
handle_example = handle_lem query (idle (btc_account ∷ []))

offers-select_example :
    offers wallet btc (text "p2wpkh") (btc_account ∷ []) ([], false)
    ≡ if_known
        (every has_fingerprint (btc_account ∷ []))
        (map choice_of
          (select (λ a. suits wallet btc a && serves (text "p2wpkh") a) (btc_account ∷ [])))
        (some_of (λ a. suits wallet btc a && not (serves (text "p2wpkh") a)) (btc_account ∷ []))
offers-select_example = offers-select wallet btc (text "p2wpkh") (btc_account ∷ [])

approved_IsReachable : IsReachable post approved_once
unfolding program
approved_IsReachable =
    step asked_once approved_once
      (step (idle (btc_account ∷ [])) asked_once (start (some wallet) (btc_account ∷ []))
        (requested query (idle (btc_account ∷ []))))
      (approved asked_once approved_once refl)

IsReachable-IsConsistent_example : IsConsistent approved_once
IsReachable-IsConsistent_example = IsReachable-IsConsistent post approved_once approved_IsReachable

abbrev choosing : Backend
choosing = record (idle (btc_account ∷ [])) {
  aopp = record inactive_aopp {
    state = choosing_account;
    coin_code = btc;
    message = text "m";
    callback = text "u";
    format = text "p2wpkh";
  };
}

some_injective {ℓ} : {A : Type ℓ} {x y : A} → some x ≡ some y → x ≡ y
some_injective e = cc

btc_account_IsReady :
    (a : Account)
    → find_account (1 ∷ []) choosing.accounts ≡ some a
    → IsReady post (text "p2wpkh") a
unfolding program
btc_account_IsReady a e =
    subst (λ (x : Account). IsReady post (text "p2wpkh") x) (some_injective e)
      (record {
        address = λ idx e.
            subst (λ (i : ℕ). (x : Address) × (first_address btc_account.unused_addresses i ≡ ok x))
              (some_injective e) (address 11, refl);
        configuration = λ idx e is_btc.
            subst
              (λ (i : ℕ).
                (c : Configuration ℕ) × (get_elem? btc_account.signing_configurations i ≡ some c)
                × ((t : ScriptType) × (script_type c ≡ ok t)))
              (some_injective e) (with_type p2wpkh, refl, (p2wpkh, refl));
      })

choose_account_example :
    (b' : Backend) × (choose_account post (1 ∷ []) choosing ≡ ok b')
    × (((choosing.aopp.state ≢ choosing_account) × (b' ≡ choosing))
        ⊎ ((choosing.aopp.state ≡ choosing_account)
            × ((b'.aopp.state ≡ error)
                ⊎ (b'.aopp.state ≡ success) × IsDelivered post (1 ∷ []) choosing b')))
choose_account_example = choose_account_lem post (1 ∷ []) choosing wallet refl btc_account_IsReady
