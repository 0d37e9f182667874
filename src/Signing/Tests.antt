-- ===== src/Signing/Tests.antt =====
-- Keypaths and configurations on small data, and the theorems at them.
use Prim.Native.Char.{code}
use Prim.Native.String.{String}
use bitbox_wallet_app.Prelude.{
  ℕ, ◌+◌, ◌^◌, ◌≡◌, refl, Bool, true, false, List, [], ◌∷◌, ◌++◌, Option, none, some, arith, ltb,
}
use bitbox_wallet_app.Prelude.Int64.{neg, is_negative}
use bitbox_wallet_app.Prelude.Run.{ok, err, panic}
use bitbox_wallet_app.Maketx.Types.{p2wpkh, p2tr}
use bitbox_wallet_app.Signing.Text.{
  Text, is_space, trim_left, trim_space, prepend, split, join, has_prefix, has_suffix, drop_last,
  find_after, after_first,
}
use bitbox_wallet_app.Signing.Decimal.{digits, format, scan, magnitude, positive, negative, atoi}
use bitbox_wallet_app.Signing.Keypath.{
  KeyNode, Keypath, not_a_number, negative_index, no_m, starts_with_m, encode_node, check_index,
  parse_node, add_node, parse_part, parse_parts, new_keypath, encode, node_to_uint32, to_uint32,
  new_relative_keypath, child, has_hardened, new_absolute_keypath, node_from_uint32,
  new_absolute_keypath_from_uint32, encode_absolute, append, derive_all, derive,
}
use bitbox_wallet_app.Signing.Keypath.RoundTrip.{keypath-encode}
use bitbox_wallet_app.Signing.Configuration.{
  Configuration, unexpected_keypath, hardened_keypath, same_script_type, same_bytes,
  bitcoin_account, ethereum_account, bitcoin_of, script_type, key_info_of, absolute_keypath,
  extended_public_key, account_number_of, account_number, root_fingerprint, bitcoin_matches,
  ethereum_matches, contains_root_fingerprint, has_script_type, find_from, find_script_type,
  new_bitcoin_configuration, new_ethereum_configuration, derived, derive_bitcoin,
  derive_configuration,
}

program : Unit {0}
unfolding neg is_negative is_space trim_left trim_space prepend split join has_prefix has_suffix
    drop_last find_after after_first digits format scan magnitude positive negative atoi encode_node
    check_index parse_node add_node parse_part parse_parts new_keypath encode node_to_uint32
    to_uint32 new_relative_keypath child has_hardened new_absolute_keypath node_from_uint32
    new_absolute_keypath_from_uint32 encode_absolute append derive_all derive same_script_type
    same_bytes bitcoin_account ethereum_account bitcoin_of script_type key_info_of absolute_keypath
    extended_public_key account_number_of account_number root_fingerprint bitcoin_matches
    ethereum_matches contains_root_fingerprint has_script_type find_from find_script_type
    new_bitcoin_configuration new_ethereum_configuration derived derive_bitcoin derive_configuration
program = tt

abbrev text : String → Text
text String.[] = []
text (String.◌∷◌ c s) = code c ∷ text s

abbrev hard : ℕ → KeyNode
hard n = record { index = n; hardened = true }

abbrev soft : ℕ → KeyNode
soft n = record { index = n; hardened = false }

parse_run :
    (new_absolute_keypath (text " m/84'/0 '//+5/ 7 ")
      ≡ ok (hard 84 ∷ hard 0 ∷ soft 5 ∷ soft 7 ∷ []))
    × (new_absolute_keypath (text "m/") ≡ ok [])
    × (new_absolute_keypath (text "m") ≡ err not_a_number)
    × (new_relative_keypath (text "1/-2") ≡ err negative_index)
    × (new_relative_keypath (text "1/2''") ≡ err not_a_number)
unfolding program
parse_run = (refl, refl, refl, refl, refl)

-- What stands between the m and the first slash is skipped, and an index is cut to 32 bits; an index
-- of 2 ^ 31 and more has the child number of another keypath.
lax_run :
    (new_absolute_keypath (text "m44'/0") ≡ ok (soft 0 ∷ []))
    × (new_relative_keypath (text "4294967297") ≡ ok (soft 1 ∷ []))
    × (to_uint32 (soft (2 ^ 31 + 5) ∷ []) ≡ to_uint32 (hard 5 ∷ []))
    × (to_uint32 (hard (2 ^ 31 + 5) ∷ []) ≡ to_uint32 (soft 5 ∷ []))
unfolding program
lax_run = (refl, refl, refl, refl)

encode_run : encode_absolute (hard 84 ∷ hard 0 ∷ soft 4294967295 ∷ []) ≡ text "m/84'/0'/4294967295"
unfolding program
encode_run = refl

-- A key is the list of the child numbers that lead to it; above 1000 the derivation fails.
abbrev derive_child : List ℕ → ℕ → Option (List ℕ)
derive_child key n = elim (ltb n 1000) [ true ↦ some (key ++ n ∷ []) | false ↦ none ]

abbrev is_private : List ℕ → Bool
is_private key = false

abbrev account_path : Keypath
account_path = hard 84 ∷ hard 0 ∷ hard 3 ∷ []

abbrev at_path : Keypath → List ℕ → Configuration (List ℕ)
at_path path key = record {
  bitcoin_simple = some (record {
    key_info = record {
      root_fingerprint = 1 ∷ 2 ∷ [];
      absolute_keypath = path;
      extended_public_key = key;
    };
    script_type = p2wpkh;
  });
  ethereum_simple = none;
}

abbrev ethereum : Configuration (List ℕ)
ethereum = record {
  bitcoin_simple = none;
  ethereum_simple = some (record {
    key_info = record {
      root_fingerprint = 9 ∷ [];
      absolute_keypath = hard 44 ∷ hard 60 ∷ hard 0 ∷ soft 0 ∷ soft 65543 ∷ [];
      extended_public_key = [];
    };
  });
}

configuration_run :
    (account_number (at_path account_path []) ≡ ok 3)
    × (account_number (at_path (soft 1 ∷ []) []) ≡ err unexpected_keypath)
    × (account_number ethereum ≡ ok 7)
    × (script_type ethereum ≡ panic)
    × (find_script_type p2wpkh (ethereum ∷ at_path account_path [] ∷ []) ≡ some 1)
    × (find_script_type p2tr (ethereum ∷ at_path account_path [] ∷ []) ≡ none)
    × (contains_root_fingerprint (9 ∷ []) (at_path account_path [] ∷ ethereum ∷ []) ≡ true)
    × (derive_configuration is_private derive_child (at_path account_path []) (hard 1 ∷ [])
        ≡ err hardened_keypath)
unfolding program
configuration_run = (refl, refl, refl, refl, refl, refl, refl, refl)

keypath-encode_example :
    (new_absolute_keypath (encode_absolute account_path) ≡ ok account_path)
    × (new_relative_keypath (encode account_path) ≡ ok account_path)
    × (new_absolute_keypath (encode account_path) ≡ err no_m)
    × (new_relative_keypath (encode_absolute account_path) ≡ err starts_with_m)
keypath-encode_example = keypath-encode account_path (omega arith, (omega arith, (omega arith, tt)))
