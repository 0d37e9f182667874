-- ===== src/Signing/Configuration.antt =====
-- backend/signing/configuration.go: signing configurations.
-- An extended key is hdkeychain's: its type, whether it is private, and the derivation of a child are
-- parameters. JSON and the text for logs are left out.
pub mod Bytes
pub mod Derivation
use bitbox_wallet_app.Prelude.{
  ℕ, suc, ◌+◌, ◌-◌, ◌%◌, ◌^◌, Bool, true, false, List, [], ◌∷◌, Option, none, some, leb, ltb, ◌==◌,
  ◌&&◌, if◌then◌else◌,
}
use bitbox_wallet_app.Prelude.Run.{Run, ok, err, panic, ◌>>=◌}
use bitbox_wallet_app.Maketx.Types.{ScriptType, p2pkh, p2wpkh_p2sh, p2wpkh, p2tr, unknown}
use bitbox_wallet_app.Signing.Keypath.{
  Keypath, hardened_key_start, to_uint32, has_hardened, append, derive,
}

pub data Error : Type 0 where
  unexpected_keypath unknown_type hardened_keypath not_bitcoin derivation_failed no_fingerprint :
      Error

pub record KeyInfo (Key : Type 0) : Type 0 where
  pub root_fingerprint : List ℕ
  pub absolute_keypath : Keypath
  pub extended_public_key : Key

pub record BitcoinSimple (Key : Type 0) : Type 0 where
  pub key_info : KeyInfo Key
  pub script_type : ScriptType

pub record EthereumSimple (Key : Type 0) : Type 0 where
  pub key_info : KeyInfo Key

-- At most one of the two is there.
pub record Configuration (Key : Type 0) : Type 0 where
  pub bitcoin_simple : Option (BitcoinSimple Key)
  pub ethereum_simple : Option (EthereumSimple Key)

unfoldable pub same_script_type : ScriptType → ScriptType → Bool
same_script_type p2pkh p2pkh = true
same_script_type p2wpkh_p2sh p2wpkh_p2sh = true
same_script_type p2wpkh p2wpkh = true
same_script_type p2tr p2tr = true
same_script_type unknown unknown = true
same_script_type a b = false

unfoldable pub same_bytes : List ℕ → List ℕ → Bool
same_bytes [] [] = true
same_bytes [] (b ∷ bs) = false
same_bytes (a ∷ as') [] = false
same_bytes (a ∷ as') (b ∷ bs) = let rest = same_bytes as' bs in if a == b then rest else false

unfoldable pub bitcoin_account : List ℕ → Run Error ℕ
bitcoin_account (a ∷ b ∷ number ∷ []) =
    if ltb number hardened_key_start
    then err unexpected_keypath
    else ok ((number - hardened_key_start) % 2 ^ 16)
bitcoin_account numbers = err unexpected_keypath

unfoldable pub ethereum_account : List ℕ → Run Error ℕ
ethereum_account (a ∷ b ∷ c ∷ d ∷ number ∷ []) =
    if leb hardened_key_start number then err unexpected_keypath else ok (number % 2 ^ 16)
ethereum_account numbers = err unexpected_keypath

module _ {Key : Type 0} where
  unfoldable pub bitcoin_of : BitcoinSimple Key → Configuration Key
  bitcoin_of b = record { bitcoin_simple = some b; ethereum_simple = none }

  -- A nil configuration that is read panics.
  unfoldable pub script_type : Configuration Key → Run Error ScriptType
  script_type c = elim (c.bitcoin_simple) [ none ↦ panic | some b ↦ ok b.script_type ]

  unfoldable pub key_info_of :
      Option (BitcoinSimple Key) → Option (EthereumSimple Key) → Option (KeyInfo Key)
  key_info_of (some b) e = some b.key_info
  key_info_of none (some e) = some e.key_info
  key_info_of none none = none

  unfoldable pub absolute_keypath : Configuration Key → Run Error Keypath
  unfolding key_info_of
  absolute_keypath c = elim (key_info_of c.bitcoin_simple c.ethereum_simple) [
    | none ↦ panic
    | some k ↦ ok k.absolute_keypath
  ]

  unfoldable pub extended_public_key : Configuration Key → Run Error Key
  unfolding key_info_of
  extended_public_key c = elim (key_info_of c.bitcoin_simple c.ethereum_simple) [
    | none ↦ panic
    | some k ↦ ok k.extended_public_key
  ]

  unfoldable pub account_number_of :
      Option (BitcoinSimple Key) → Option (EthereumSimple Key) → Run Error ℕ
  account_number_of (some b) e = bitcoin_account (to_uint32 b.key_info.absolute_keypath)
  account_number_of none (some e) = ethereum_account (to_uint32 e.key_info.absolute_keypath)
  account_number_of none none = err unknown_type

  unfoldable pub account_number : Configuration Key → Run Error ℕ
  unfolding account_number_of
  account_number c = account_number_of c.bitcoin_simple c.ethereum_simple

  unfoldable pub root_fingerprint : List (Configuration Key) → Run Error (List ℕ)
  unfolding key_info_of
  root_fingerprint [] = err no_fingerprint
  root_fingerprint (c ∷ cs) =
      let rest = root_fingerprint cs in
      elim (key_info_of c.bitcoin_simple c.ethereum_simple) [
        | none ↦ rest
        | some k ↦ ok k.root_fingerprint
      ]

  unfoldable pub bitcoin_matches : List ℕ → Option (BitcoinSimple Key) → Bool
  bitcoin_matches fingerprint none = false
  bitcoin_matches fingerprint (some b) = same_bytes b.key_info.root_fingerprint fingerprint

  unfoldable pub ethereum_matches : List ℕ → Option (EthereumSimple Key) → Bool
  ethereum_matches fingerprint none = false
  ethereum_matches fingerprint (some e) = same_bytes e.key_info.root_fingerprint fingerprint

  unfoldable pub contains_root_fingerprint : List ℕ → List (Configuration Key) → Bool
  unfolding bitcoin_matches ethereum_matches
  contains_root_fingerprint fingerprint [] = false
  contains_root_fingerprint fingerprint (c ∷ cs) =
      let rest = contains_root_fingerprint fingerprint cs in
      if bitcoin_matches fingerprint c.bitcoin_simple
      then true
      else (if ethereum_matches fingerprint c.ethereum_simple then true else rest)

  unfoldable pub has_script_type : ScriptType → Option (BitcoinSimple Key) → Bool
  has_script_type t none = false
  has_script_type t (some b) = same_script_type b.script_type t

  -- None for the code's -1.
  unfoldable pub find_from : ScriptType → ℕ → List (Configuration Key) → Option ℕ
  unfolding has_script_type
  find_from t idx [] = none
  find_from t idx (c ∷ cs) =
      let rest = find_from t (suc idx) cs in
      if has_script_type t c.bitcoin_simple then some idx else rest

  unfoldable pub find_script_type : ScriptType → List (Configuration Key) → Option ℕ
  find_script_type t cs = find_from t 0 cs

  module _ (is_private : Key → Bool) (derive_child : Key → ℕ → Option Key) where
    unfoldable pub new_bitcoin_configuration :
        ScriptType → List ℕ → Keypath → Key → Run Error (Configuration Key)
    unfolding bitcoin_of
    new_bitcoin_configuration t fingerprint path key =
        if is_private key
        then panic
        else ok (
            bitcoin_of (record {
              key_info = record {
                root_fingerprint = fingerprint;
                absolute_keypath = path;
                extended_public_key = key;
              };
              script_type = t;
            }))

    unfoldable pub new_ethereum_configuration :
        List ℕ → Keypath → Key → Run Error (Configuration Key)
    new_ethereum_configuration fingerprint path key =
        if is_private key
        then panic
        else ok (record {
          bitcoin_simple = none;
          ethereum_simple = some (record {
            key_info = record {
              root_fingerprint = fingerprint;
              absolute_keypath = path;
              extended_public_key = key;
            };
          });
        })

    unfoldable pub derived :
        BitcoinSimple Key → Keypath → Option Key → Run Error (Configuration Key)
    derived b path none = err derivation_failed
    derived b path (some key) =
        new_bitcoin_configuration b.script_type b.key_info.root_fingerprint
          (append b.key_info.absolute_keypath path) key

    unfoldable pub derive_bitcoin :
        Option (BitcoinSimple Key) → Keypath → Run Error (Configuration Key)
    unfolding derived
    derive_bitcoin none path = err not_bitcoin
    derive_bitcoin (some b) path =
        if has_hardened path
        then err hardened_keypath
        else derived b path (derive derive_child path b.key_info.extended_public_key)

    unfoldable pub derive_configuration :
        Configuration Key → Keypath → Run Error (Configuration Key)
    derive_configuration c path = derive_bitcoin c.bitcoin_simple path
