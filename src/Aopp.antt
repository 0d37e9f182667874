-- ===== src/Aopp.antt =====
-- backend/aopp.go: requests of the address ownership proof protocol.
-- The lock serialises the calls. `post` is the HTTP client: it gets the callback, the address and the
-- signature of the JSON body, and returns the status of the response, or none for an error. A call
-- through a nil keystore and an index out of range panic.
pub mod Types
pub mod Progress
pub mod Calls
pub mod Reachable
pub mod Offers
pub mod Success
pub mod Ready
pub mod Requests
mod Tests
use bitbox_wallet_app.Prelude.{
  ℕ, ◌+◌, Bool, true, false, not, List, [], ◌∷◌, ◌++◌, Option, none, some, get_elem?, leb, ◌==◌,
  ◌&&◌, ◌||◌, if◌then◌else◌,
}
use bitbox_wallet_app.Prelude.Run.{Run, ok, err, panic, out_of_fuel, ◌>>=◌}
use bitbox_wallet_app.Maketx.Types.{ScriptType, p2pkh, p2wpkh_p2sh, p2wpkh}
use bitbox_wallet_app.Signing.Configuration.{
  Configuration, Error, same_bytes, root_fingerprint, find_script_type, script_type,
}
use bitbox_wallet_app.Coins.{Text, text, CoinCode, btc, eth, other, same_coin}
use bitbox_wallet_app.Aopp.Types.{
  ErrorCode, unsupported_asset, unsupported_format, version, invalid_request, no_accounts,
  unsupported_keystore, unknown_error, signing_aborted, callback_error, AoppState, error, inactive,
  user_approval, awaiting_keystore, choosing_account, syncing, signing, success, Choice, Aopp,
  inactive_aopp, Address, Account, Signed, signature, aborted, failed, Keystore, Query, Backend,
}

-- Of the letters of the coins' codes no other letter than the ASCII one is the upper case.
unfoldable pub to_lower : Text → Text
to_lower [] = []
to_lower (c ∷ s) = (if leb b'A' c && leb c b'Z' then c + 32 else c) ∷ to_lower s

unfoldable pub aopp_coin : Text → Option CoinCode
aopp_coin asset =
    if same_bytes asset (text "btc")
    then some btc
    else (if same_bytes asset (text "eth") then some eth else none)

unfoldable pub aopp_btc_script_type : Text → Option ScriptType
aopp_btc_script_type format =
    if same_bytes format (text "p2pkh")
    then some p2pkh
    else (if same_bytes format (text "p2wpkh")
        then some p2wpkh
        else (if same_bytes format (text "p2sh") then some p2wpkh_p2sh else none))

unfoldable pub is_state : AoppState → AoppState → Bool
is_state user_approval user_approval = true
is_state awaiting_keystore awaiting_keystore = true
is_state choosing_account choosing_account = true
is_state a b = false

unfoldable pub notify : Backend → Backend
notify b = record b { notified = b.aopp ∷ b.notified }

unfoldable pub to_state : AoppState → Backend → Backend
to_state s b = record b { aopp = record b.aopp { state = s } }

unfoldable pub set_error : ErrorCode → Backend → Backend
unfolding notify
set_error e b = notify (record b { aopp = record b.aopp { state = error; error_code = some e } })

unfoldable pub cancel : Backend → Backend
unfolding notify
cancel b = notify (record b { aopp = inactive_aopp })

-- The format matters for Bitcoin, unless it is "any".
unfoldable pub has_format : CoinCode → Text → Bool
unfolding same_coin same_bytes
has_format coin format = same_coin coin btc && not (same_bytes format (text "any"))

unfoldable pub find_format : Text → List (Configuration ℕ) → Option ℕ
find_format format configurations = elim (aopp_btc_script_type format) [
  | none ↦ none
  | some t ↦ find_script_type t configurations
]

-- The index of the signing configuration for the format.
unfoldable pub signing_config_idx : CoinCode → Text → List (Configuration ℕ) → Option ℕ
signing_config_idx coin format configurations =
    if has_format coin format then find_format format configurations else some 0

unfoldable pub find_account : Text → List Account → Option Account
unfolding same_bytes
find_account code [] = none
find_account code (a ∷ as') =
    let rest = find_account code as' in if same_bytes a.code code then some a else rest

unfoldable pub first_address : List (List Address) → ℕ → Run Error Address
first_address unused idx = elim (get_elem? unused idx) [
  | none ↦ panic
  | some addresses ↦ elim (get_elem? addresses 0) [ none ↦ panic | some a ↦ ok a ]
]

unfoldable pub sign_btc : Keystore → Text → Address → Option (Configuration ℕ) → Run Error Signed
sign_btc k message a none = panic
sign_btc k message a (some c) =
    script_type c >>= λ t. ok (k.sign_btc_message message a.absolute_keypath t)

-- None is an unsupported coin.
unfoldable pub sign :
    Option Keystore
    → CoinCode
    → Text
    → Address
    → List (Configuration ℕ)
    → ℕ
    → Run Error (Option Signed)
unfolding sign_btc
sign none btc message a configurations idx = panic
sign none eth message a configurations idx = panic
sign (some k) btc message a configurations idx =
    sign_btc k message a (get_elem? configurations idx) >>= λ s. ok (some s)
sign (some k) eth message a configurations idx =
    ok (some (k.sign_eth_message message a.absolute_keypath))
sign k coin message a configurations idx = ok none

-- The account that the user can choose, or why it cannot be chosen.
pub data Offer : Type 0 where
  skipped : Offer
  other_script_type : Offer
  offered : Choice → Offer

-- compareRootFingerprint of connectkeystore.go: whether there is no error.
unfoldable pub compare_root_fingerprint : Option (List ℕ) → List ℕ → Bool
unfolding same_bytes
compare_root_fingerprint none fingerprint = false
compare_root_fingerprint (some f) fingerprint = same_bytes fingerprint f

unfoldable pub offer : Keystore → CoinCode → Text → Account → List ℕ → Offer
unfolding same_coin
offer k coin format a fingerprint =
    if not (compare_root_fingerprint k.root_fingerprint fingerprint)
    then skipped
    else (if a.inactive_account || a.hidden_because_unused
        then skipped
        else (if not (same_coin a.coin_code coin)
            then skipped
            else elim (signing_config_idx a.coin_code format a.signing_configurations) [
              | none ↦ other_script_type
              | some idx ↦ offered (record { name = a.name; code = a.code })
            ]))

-- The accounts so far and the flag, in the order of the loop.
unfoldable pub add_offer : Offer → List Choice → Bool → List Choice × Bool
add_offer skipped choices filtered = (choices, filtered)
add_offer other_script_type choices filtered = (choices, true)
add_offer (offered c) choices filtered = (choices ++ c ∷ [], filtered)

-- None if the fingerprint of an account is not available.
unfoldable pub offers :
    Keystore → CoinCode → Text → List Account → List Choice × Bool → Option (List Choice × Bool)
unfolding add_offer
offers k coin format [] so_far = some so_far
offers k coin format (a ∷ as') (choices, filtered) =
    elim (root_fingerprint a.signing_configurations) [
      | ok fingerprint ↦
          offers k coin format as' (add_offer (offer k coin format a fingerprint) choices filtered)
      | _ ↦ none
    ]

module _ (post : Text → Text → Text → Option ℕ) where
  unfoldable pub deliver : Address → Text → Backend → Backend
  deliver a sig b = elim (post b.aopp.callback a.encoded sig) [
    | none ↦ set_error callback_error b
    | some status ↦
        if status == 204 then notify (to_state success b) else set_error callback_error b
  ]

  unfoldable pub finish_signing : Address → Option Signed → Backend → Backend
  finish_signing a none b = set_error unknown_error b
  finish_signing a (some aborted) b = set_error signing_aborted b
  finish_signing a (some failed) b = set_error unknown_error b
  finish_signing a (some (signature sig)) b = deliver a sig b

  unfoldable pub sign_address : Account → ℕ → Address → Backend → Run Error Backend
  sign_address account idx a b =
      let b' = notify (record b {
        aopp = record b.aopp { address = a.encoded; address_id = a.id; state = signing };
      }) in
      sign b'.keystore account.coin_code b'.aopp.message a account.signing_configurations idx
      >>= λ s. ok (finish_signing a s b')

  unfoldable pub with_idx : Account → Option ℕ → Backend → Run Error Backend
  with_idx account none b = ok (set_error unknown_error b)
  with_idx account (some idx) b =
      first_address account.unused_addresses idx >>= λ a. sign_address account idx a b

  unfoldable pub with_account : Option Account → Backend → Run Error Backend
  with_account none b = ok (set_error unknown_error b)
  with_account (some account) b =
      if account.initializes
      then with_idx account
          (signing_config_idx account.coin_code b.aopp.format account.signing_configurations) b
      else ok (set_error unknown_error b)

  unfoldable pub choose_account : Text → Backend → Run Error Backend
  choose_account code b =
      if is_state b.aopp.state choosing_account
      then with_account (find_account code b.accounts)
          (notify (record b { aopp = record b.aopp { account_code = code; state = syncing } }))
      else ok b

  -- No account, one, or more to choose from.
  unfoldable pub offer_accounts : List Choice → Bool → Backend → Run Error Backend
  offer_accounts [] filtered b =
      ok (set_error (if filtered then unsupported_format else no_accounts) b)
  offer_accounts (c ∷ []) filtered b =
      choose_account c.code
        (record b { aopp = record b.aopp { accounts = c ∷ []; state = choosing_account } })
  offer_accounts (c ∷ d ∷ cs) filtered b = ok (
      notify
        (record b { aopp = record b.aopp { accounts = c ∷ d ∷ cs; state = choosing_account } }))

  unfoldable pub with_offers : Option (List Choice × Bool) → Backend → Run Error Backend
  with_offers none b = ok (set_error unknown_error b)
  with_offers (some (choices, filtered)) b = offer_accounts choices filtered b

  unfoldable pub with_keystore : Option Keystore → Backend → Run Error Backend
  with_keystore none b = panic
  with_keystore (some k) b =
      if k.can_sign_message b.aopp.coin_code
      then with_offers (offers k b.aopp.coin_code b.aopp.format b.accounts ([], false)) b
      else ok (set_error unsupported_keystore b)

  unfoldable pub keystore_registered : Backend → Run Error Backend
  keystore_registered b =
      if is_state b.aopp.state awaiting_keystore then with_keystore b.keystore b else ok b

  unfoldable pub with_approval : Option Keystore → Backend → Run Error Backend
  with_approval none b = ok (notify b)
  with_approval (some k) b = keystore_registered b

  unfoldable pub approve : Backend → Run Error Backend
  approve b =
      if is_state b.aopp.state user_approval
      then with_approval b.keystore (to_state awaiting_keystore b)
      else ok b

unfoldable pub with_message : Query → Backend → Backend
unfolding same_bytes
with_message q b =
    if same_bytes q.msg []
    then set_error invalid_request b
    else notify (record b {
      aopp = record b.aopp { message = q.msg; format = q.format; state = user_approval };
    })

unfoldable pub with_coin : Query → Option CoinCode → Backend → Backend
with_coin q none b = set_error unsupported_asset b
with_coin q (some coin) b = with_message q (record b { aopp = record b.aopp { coin_code = coin } })

unfoldable pub handle : Query → Backend → Backend
unfolding same_bytes
handle q b =
    let b' = record b { aopp = inactive_aopp } in
    if not (same_bytes q.v (text "0"))
    then set_error version b'
    else (if same_bytes q.callback []
        then set_error invalid_request b'
        else (if q.callback_parses
            then with_coin q (aopp_coin (to_lower q.asset))
                (record b' { aopp = record inactive_aopp { callback = q.callback } })
            else set_error invalid_request b'))
