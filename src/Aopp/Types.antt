-- ===== src/Aopp/Types.antt =====
-- backend/aopp.go: the state of an AOPP request, and what the code reads of accounts and keystores.
-- An extended key is a number.
use bitbox_wallet_app.Coins.{Text, CoinCode, other}
use bitbox_wallet_app.Prelude.{ℕ, Bool, List, [], Option, none}
use bitbox_wallet_app.Maketx.Types.{ScriptType}
use bitbox_wallet_app.Signing.Keypath.{Keypath}
use bitbox_wallet_app.Signing.Configuration.{Configuration}

pub data ErrorCode : Type 0 where
  unsupported_asset unsupported_format version invalid_request no_accounts : ErrorCode
  unsupported_keystore unknown_error signing_aborted callback_error : ErrorCode

pub data AoppState : Type 0 where
  error inactive user_approval awaiting_keystore choosing_account syncing signing success :
      AoppState

pub record Choice : Type 0 where
  pub name : Text
  pub code : Text

pub record Aopp : Type 0 where
  pub state : AoppState
  pub error_code : Option ErrorCode
  pub accounts : List Choice
  pub account_code : Text
  pub address : Text
  pub address_id : Text
  pub callback : Text
  pub message : Text
  pub coin_code : CoinCode
  pub format : Text

-- AOPP{State: aoppStateInactive}. The coin code is then the empty one.
abbrev pub inactive_aopp : Aopp
inactive_aopp = record {
  state = inactive;
  error_code = none;
  accounts = [];
  account_code = [];
  address = [];
  address_id = [];
  callback = [];
  message = [];
  coin_code = other [];
  format = [];
}

pub record Address : Type 0 where
  pub encoded : Text
  pub id : Text
  pub absolute_keypath : Keypath

-- accounts.Interface: whether Initialize succeeds, and the lists of unused addresses after it.
pub record Account : Type 0 where
  pub code : Text
  pub name : Text
  pub coin_code : CoinCode
  pub signing_configurations : List (Configuration ℕ)
  pub inactive_account : Bool
  pub hidden_because_unused : Bool
  pub initializes : Bool
  pub unused_addresses : List (List Address)

pub data Signed : Type 0 where
  signature : Text → Signed
  aborted failed : Signed

-- keystore.Keystore. The fingerprint is none where RootFingerprint fails.
pub record Keystore : Type 0 where
  pub can_sign_message : CoinCode → Bool
  pub root_fingerprint : Option (List ℕ)
  pub sign_btc_message : Text → Keypath → ScriptType → Signed
  pub sign_eth_message : Text → Keypath → Signed

-- The parameters of the request's address, and whether url.Parse takes the callback.
pub record Query : Type 0 where
  pub v : Text
  pub callback : Text
  pub callback_parses : Bool
  pub asset : Text
  pub msg : Text
  pub format : Text

-- The states that were sent to the frontend are in `notified`, the last one first.
pub record Backend : Type 0 where
  pub aopp : Aopp
  pub keystore : Option Keystore
  pub accounts : List Account
  pub notified : List Aopp
