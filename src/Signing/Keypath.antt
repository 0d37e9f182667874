-- ===== src/Signing/Keypath.antt =====
-- backend/signing/keypath.go: keypaths of BIP32.
-- hdkeychain.HardenedKeyStart is 2 ^ 31, and the derivation of a child key is hdkeychain's: a parameter.
-- A relative and an absolute keypath are both the list of their nodes.
pub mod RoundTrip
pub mod Numbers
use bitbox_wallet_app.Prelude.{
  ℕ, ◌+◌, ◌-◌, ◌%◌, ◌^◌, Bool, true, false, List, [], ◌∷◌, ◌++◌, Option, none, some, map, leb, ◌==◌,
  if◌then◌else◌,
}
use bitbox_wallet_app.Prelude.Int64.{Int64, is_negative}
use bitbox_wallet_app.Prelude.Run.{Run, ok, err, ◌>>=◌}
use bitbox_wallet_app.Signing.Text.{
  Text, trim_space, split, join, has_prefix, has_suffix, drop_last, after_first,
}
use bitbox_wallet_app.Signing.Decimal.{format, atoi}

pub data Error : Type 0 where
  not_a_number negative_index starts_with_m no_m : Error

pub record KeyNode : Type 0 where
  pub index : ℕ
  pub hardened : Bool

abbrev pub Keypath : Type 0
Keypath = List KeyNode

abbrev pub hardened_key_symbol : ℕ
hardened_key_symbol = 39

abbrev pub slash : ℕ
slash = b'/'

abbrev pub hardened_key_start : ℕ
hardened_key_start = 2 ^ 31

unfoldable pub encode_node : KeyNode → Text
encode_node node =
    if node.hardened then format node.index ++ hardened_key_symbol ∷ [] else format node.index

-- Of an index of Atoi the node keeps the lowest 32 bits.
unfoldable pub check_index : Bool → Option Int64 → Run Error KeyNode
check_index hardened none = err not_a_number
check_index hardened (some index) =
    if is_negative index
    then err negative_index
    else ok (record { index = index % 2 ^ 32; hardened = hardened })

-- A part of the text that is not empty.
unfoldable pub parse_node : Text → Run Error KeyNode
unfolding check_index
parse_node part =
    let hardened = has_suffix hardened_key_symbol part in
    check_index hardened (atoi (if hardened then trim_space (drop_last part) else part))

unfoldable pub add_node : KeyNode → Run Error Keypath → Run Error Keypath
add_node node rest = rest >>= λ path. ok (node ∷ path)

unfoldable pub parse_part : Text → Run Error Keypath → Run Error Keypath
unfolding parse_node add_node
parse_part [] rest = rest
parse_part (c ∷ s) rest = parse_node (c ∷ s) >>= λ node. add_node node rest

unfoldable pub parse_parts : List Text → Run Error Keypath
unfolding parse_part
parse_parts [] = ok []
parse_parts (part ∷ parts) = parse_part (trim_space part) (parse_parts parts)

unfoldable pub new_keypath : Text → Run Error Keypath
new_keypath input = parse_parts (split slash input)

unfoldable pub encode : Keypath → Text
encode path = join slash (map encode_node path)

unfoldable pub node_to_uint32 : KeyNode → ℕ
node_to_uint32 node = ((if node.hardened then hardened_key_start else 0) + node.index) % 2 ^ 32

unfoldable pub to_uint32 : Keypath → List ℕ
unfolding node_to_uint32
to_uint32 path = map node_to_uint32 path

unfoldable pub new_relative_keypath : Text → Run Error Keypath
new_relative_keypath input =
    let input' = trim_space input in
    if has_prefix b'm' input' then err starts_with_m else new_keypath input'

unfoldable pub child : Keypath → ℕ → Bool → Keypath
child path index hardened = path ++ record { index = index; hardened = hardened } ∷ []

unfoldable pub has_hardened : Keypath → Bool
has_hardened [] = false
has_hardened (node ∷ path) = let rest = has_hardened path in if node.hardened then true else rest

unfoldable pub new_absolute_keypath : Text → Run Error Keypath
new_absolute_keypath input =
    let input' = trim_space input in
    if has_prefix b'm' input' then new_keypath (after_first slash input') else err no_m

unfoldable pub node_from_uint32 : ℕ → KeyNode
node_from_uint32 element =
    if leb hardened_key_start element
    then record { index = element - hardened_key_start; hardened = true }
    else record { index = element; hardened = false }

unfoldable pub new_absolute_keypath_from_uint32 : List ℕ → Keypath
unfolding node_from_uint32
new_absolute_keypath_from_uint32 elements = map node_from_uint32 elements

unfoldable pub encode_absolute : Keypath → Text
encode_absolute path = b'm' ∷ slash ∷ encode path

unfoldable pub append : Keypath → Keypath → Keypath
append path suffix = path ++ suffix

module _ {Key : Type 0} (derive_child : Key → ℕ → Option Key) where
  unfoldable pub derive_all : Option Key → List ℕ → Option Key
  derive_all key [] = key
  derive_all none (child_number ∷ numbers) = none
  derive_all (some key) (child_number ∷ numbers) =
      derive_all (derive_child key child_number) numbers

  -- None stands for an error of hdkeychain.
  unfoldable pub derive : Keypath → Key → Option Key
  derive path key = derive_all (some key) (to_uint32 path)
