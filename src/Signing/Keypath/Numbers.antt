-- ===== src/Signing/Keypath/Numbers.antt =====
-- Keypaths and child numbers.
use bitbox_wallet_app.Prelude.{
  ℕ, ◌^◌, ◌<◌, ◌≡◌, refl, sym, ap, ◌∙◌, List, [], ◌∷◌, ◌++◌, Option, none, some, arith, All,
}
use mathlib.Core.Path.{ap₂}
use bitbox_wallet_app.Signing.Keypath.{
  KeyNode, Keypath, hardened_key_start, node_to_uint32, to_uint32, node_from_uint32,
  new_absolute_keypath_from_uint32, append, derive_all, derive,
}

abbrev pub IsChildIndex : KeyNode → Type 0
IsChildIndex node = node.index < hardened_key_start

abbrev pub IsUint32 : ℕ → Type 0
IsUint32 n = n < 2 ^ 32

node_roundtrip :
    (node : KeyNode) → IsChildIndex node → node_from_uint32 (node_to_uint32 node) ≡ node
unfolding node_from_uint32 node_to_uint32
node_roundtrip node h = ground arith

number_roundtrip : (n : ℕ) → IsUint32 n → node_to_uint32 (node_from_uint32 n) ≡ n
unfolding node_from_uint32 node_to_uint32
number_roundtrip n h = ground arith

node_from_uint32-IsChildIndex : (n : ℕ) → IsUint32 n → IsChildIndex (node_from_uint32 n)
unfolding node_from_uint32
node_from_uint32-IsChildIndex n h = ground arith

-- A keypath whose indices are below 2 ^ 31 is read back from its child numbers.
pub from_uint32-to_uint32 :
    (path : Keypath)
    → All IsChildIndex path
    → new_absolute_keypath_from_uint32 (to_uint32 path) ≡ path
unfolding new_absolute_keypath_from_uint32 to_uint32
from_uint32-to_uint32 [] h = refl
from_uint32-to_uint32 (node ∷ path) h =
    ap₂ ◌∷◌ (node_roundtrip node h.0) (from_uint32-to_uint32 path h.1)

-- All lists of uint32 are the child numbers of the keypath that is made from them, and its indices are
-- below 2 ^ 31.
pub to_uint32-from_uint32 :
    (numbers : List ℕ)
    → All IsUint32 numbers
    → (to_uint32 (new_absolute_keypath_from_uint32 numbers) ≡ numbers)
      × All IsChildIndex (new_absolute_keypath_from_uint32 numbers)
unfolding new_absolute_keypath_from_uint32 to_uint32
to_uint32-from_uint32 [] h = (refl, tt)
to_uint32-from_uint32 (n ∷ numbers) h =
    let (same, all) = to_uint32-from_uint32 numbers h.1 in
    (ap₂ ◌∷◌ (number_roundtrip n h.0) same, (node_from_uint32-IsChildIndex n h.0, all))

to_uint32-append :
    (path suffix : Keypath) → to_uint32 (path ++ suffix) ≡ to_uint32 path ++ to_uint32 suffix
unfolding to_uint32
to_uint32-append [] suffix = refl
to_uint32-append (node ∷ path) suffix =
    ap (◌∷◌ (node_to_uint32 node)) (to_uint32-append path suffix)

module _ {Key : Type 0} (derive_child : Key → ℕ → Option Key) where
  derive_all-none : (numbers : List ℕ) → derive_all derive_child none numbers ≡ none
  unfolding derive_all
  derive_all-none [] = refl
  derive_all-none (n ∷ numbers) = refl

  derive_all-append :
      (key : Option Key) (xs ys : List ℕ)
      → derive_all derive_child key (xs ++ ys)
        ≡ derive_all derive_child (derive_all derive_child key xs) ys
  unfolding derive_all
  derive_all-append key [] ys = refl
  derive_all-append none (x ∷ xs) ys = sym (derive_all-none ys)
  derive_all-append (some key) (x ∷ xs) ys = derive_all-append (derive_child key x) xs ys

  -- Deriving at an appended keypath is deriving at the first and then at the second, and fails if
  -- either derivation fails.
  pub derive-append :
      (path suffix : Keypath) (key : Key)
      → derive derive_child (append path suffix) key ≡ elim (derive derive_child path key) [
        | none ↦ none
        | some middle ↦ derive derive_child suffix middle
      ]
  unfolding derive append
  derive-append path suffix key =
      ap (derive_all derive_child (some key)) (to_uint32-append path suffix)
      ∙ derive_all-append (some key) (to_uint32 path) (to_uint32 suffix)
      ∙ split (derive_all derive_child (some key) (to_uint32 path))
    where
      split :
          (r : Option Key)
          → derive_all derive_child r (to_uint32 suffix) ≡ elim r as (λ x. Option Key) [
            | none ↦ none
            | some middle ↦ derive_all derive_child (some middle) (to_uint32 suffix)
          ]
      split none = derive_all-none (to_uint32 suffix)
      split (some middle) = refl
