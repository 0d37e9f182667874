-- ===== src/Headers/Db.antt =====
-- backend/coins/btc/db/headersdb/headersdb.go: the headers in a file of 80-byte slots.
-- The file is the list of its whole slots; bytes behind the last one are read by nothing. A slot of
-- zero bytes is the header whose fields are all zero. The height `tip` of the code, which is -1 for an
-- empty file, is the number of slots less one: the model passes `tip + 1`, the size. Errors of the
-- file system are not modelled.
pub mod Slots
use bitbox_wallet_app.Prelude.{
  ℕ, zero, suc, ◌+◌, ◌-◌, Bool, true, false, List, [], ◌∷◌, Option, none, some, length, get_elem?,
  take, ltb, ◌==◌, ◌&&◌, if◌then◌else◌,
}
use bitbox_wallet_app.Prelude.Run.{Run, ok, panic, out_of_fuel}

-- wire.BlockHeader; hashes are numbers, the timestamp is in seconds.
pub record Header : Type 0 where
  pub version : ℕ
  pub prev_block : ℕ
  pub merkle_root : ℕ
  pub timestamp : ℕ
  pub bits : ℕ
  pub nonce : ℕ

abbrev pub zero_header : Header
zero_header = record {
  version = 0;
  prev_block = 0;
  merkle_root = 0;
  timestamp = 0;
  bits = 0;
  nonce = 0;
}

unfoldable pub is_zero : Header → Bool
is_zero h =
    h.version == 0
    && (h.prev_block == 0
        && (h.merkle_root == 0 && (h.timestamp == 0 && (h.bits == 0 && h.nonce == 0))))

-- Tip() + 1.
unfoldable pub size : List Header → ℕ
size db = length db

unfoldable pub read : List Header → ℕ → Option Header
read [] i = none
read (h ∷ hs) zero = if is_zero h then none else some h
read (h ∷ hs) (suc i) = read hs i

-- HeaderByHeight: nil above the tip and for a slot of zero bytes.
unfoldable pub header_by_height : List Header → ℕ → Option Header
header_by_height db height = if ltb height (size db) then read db height else none

-- WriteAt: a write behind the end fills the slots in between with zero bytes.
unfoldable pub put_header : ℕ → Header → List Header → List Header
put_header zero h [] = h ∷ []
put_header zero h (x ∷ db) = h ∷ db
put_header (suc i) h [] = zero_header ∷ put_header i h []
put_header (suc i) h (x ∷ db) = x ∷ put_header i h db

-- RevertTo, given the new tip + 1. It panics if that is above the tip.
unfoldable pub revert_to : ℕ → List Header → Run ⊥ (List Header)
revert_to new_size db = if ltb (size db) new_size then panic else ok (take new_size db)

-- The loop of fixTrailingZeroesHeaders, on fuel.
unfoldable pub fix_loop : ℕ → List Header → Run ⊥ (List Header)
fix_loop zero db = out_of_fuel
fix_loop (suc fuel) db = elim (size db) [
  | zero ↦ ok db
  | suc tip ↦ elim (header_by_height db tip) [
    | some h ↦ ok db
    | none ↦ elim (revert_to tip db) [ ok db' ↦ fix_loop fuel db' | other ↦ other ]
  ]
]

unfoldable pub fix_trailing_zeroes_headers : List Header → Run ⊥ (List Header)
fix_trailing_zeroes_headers db = fix_loop (size db + 1) db
