-- ===== src/Transactions/Verification/Tests.antt =====
-- A block of four transactions, and the theorems at it.
use bitbox_wallet_app.Prelude.{
  ℕ, ◌+◌, ◌*◌, ◌-◌, ◌%◌, ◌^◌, ◌≡◌, ◌≤◌, ◌<◌, refl, false, [], ◌∷◌, Option, some, arith, inl, inr,
  ◌⊎◌, ap, sym, ◌∙◌, Bool-cases, ltb, ltb→lt,
}
use native.Mathlib.Nat.{mul-le-mul}
use bitbox_wallet_app.Prelude.Int64.{Int64, le}
use bitbox_wallet_app.Prelude.Assoc.{find, put, delete}
use bitbox_wallet_app.Maketx.Types.{MsgTx}
use bitbox_wallet_app.Headers.Net.{Params, other_net, checkpoint}
use bitbox_wallet_app.Headers.Db.{Header, size, is_zero, read, header_by_height}
use bitbox_wallet_app.Headers.Sync.{
  Headers, synced, new_headers, verified_header_by_height, tip_height,
}
use bitbox_wallet_app.Transactions.Db.{
  Db, empty_db, same_out_point, new_wallet_transaction, read_tx, tx_info, read_or_create, modify_tx,
  put_tx, delete_tx, remove, add_address_to_tx, is_empty, remove_address_from_tx,
  transaction_hashes, unverified_transactions, mark_tx_verified, put_input, input, delete_input,
  put_output, output, delete_output, put_address_history, read_history, address_history,
}
use bitbox_wallet_app.Transactions.Verification.{
  GetMerkleResult, State, heights_of, unverified_heights, hash_branch, hash_merkle_root,
  mark_if_proven, verify_transaction, verify_all, on_headers_event,
}
use bitbox_wallet_app.Transactions.Verification.Proven.{
  IsMarked, verify_transaction-IsMarked, verify_transaction-leaf_at,
}
use bitbox_wallet_app.Transactions.Verification.Merkle.{
  Tree, leaf, node, leaf_at, root, branch, IsCollisionFree,
}

abbrev pair : ℕ → ℕ → ℕ
pair a b = (a + b) * (a + b) + a

squares : (s t : ℕ) → s < t → s * s + s < t * t
squares s t h =
    let le : (s + 1) * (s + 1) ≤ t * t = mul-le-mul (omega arith) (omega arith) in
    let expanded : (s + 1) * (s + 1) ≡ s * s + s + s + 1 = grind arith in omega arith

smaller_sum : (a b c d : ℕ) → a + b < c + d → pair a b < pair c d
smaller_sum a b c d h = let lt = squares (a + b) (c + d) h in omega arith

same_sum : (a b c d : ℕ) → pair a b ≡ pair c d → a + b ≡ c + d
same_sum a b c d e = elim (ltb-cases (a + b) (c + d)) [
  | inl below ↦ (let lt = smaller_sum a b c d below in absurd (omega arith))
  | inr above ↦ elim (ltb-cases (c + d) (a + b)) [
    | inl below ↦ (let lt = smaller_sum c d a b below in absurd (omega arith))
    | inr not_above ↦ omega arith
  ]
]
  where
    ltb-cases : (m n : ℕ) → (m < n) ⊎ (n ≤ m)
    ltb-cases m n = elim (Bool-cases (ltb m n)) [
      | inl e ↦ inl (ltb→lt m n e)
      | inr e ↦ inr (ground arith)
    ]

pair_first : (a b c d : ℕ) → pair a b ≡ pair c d → a ≡ c
pair_first a b c d e =
    let sum = same_sum a b c d e in
    let r : (c + d) * (c + d) + a ≡ (c + d) * (c + d) + c =
      ap (λ (s : ℕ). s * s + a) (sym sum) ∙ e in
    omega arith

pair-IsCollisionFree : IsCollisionFree pair
pair-IsCollisionFree = record {
  first = pair_first;
  second =
      λ a b c d e. let sum = same_sum a b c d e in let first = pair_first a b c d e in omega arith;
}

program : Unit {0}
unfolding find put delete le same_out_point new_wallet_transaction read_tx tx_info read_or_create
    modify_tx put_tx delete_tx remove add_address_to_tx is_empty remove_address_from_tx
    transaction_hashes unverified_transactions mark_tx_verified put_input input delete_input
    put_output output delete_output put_address_history read_history address_history heights_of
    unverified_heights hash_branch hash_merkle_root mark_if_proven verify_transaction verify_all
    on_headers_event checkpoint size is_zero read header_by_height new_headers
    verified_header_by_height tip_height
program = tt

abbrev block : Tree 2
block = node 1 (node 0 (leaf 100) (leaf 101)) (node 0 (leaf 102) (leaf 103))

abbrev header : Header
header = record {
  version = 1;
  prev_block = 0;
  merkle_root = root pair block;
  timestamp = 600;
  bits = 0;
  nonce = 8;
}

abbrev headers : Headers
headers = new_headers (record header { merkle_root = 5 } ∷ header ∷ [])

abbrev params : Params
params = record {
  net = other_net;
  genesis_hash = 7;
  genesis_bits = 1000;
  target_timespan = 40;
  target_time_per_block = 10;
  retarget_adjustment_factor = 4;
  pow_limit = 5000;
}

-- The position of a transaction is its hash less 100.
abbrev answer_to : ℕ → GetMerkleResult
answer_to tx_hash = record { merkle = branch pair block (tx_hash - 100); pos = tx_hash - 100 }

abbrev get_merkle : ℕ → Int64 → Option GetMerkleResult
get_merkle tx_hash height = some (answer_to tx_hash)

abbrev tx : MsgTx
tx = record { version = 1; tx_in = []; tx_out = []; lock_time = 0 }

-- 102 is confirmed at height 1, 103 is not confirmed, and 200 is not in the block.
abbrev unverified_db : Db
unverified_db = put_tx 1 200 tx 1 (put_tx 1 103 tx 0 (put_tx 1 102 tx 1 empty_db))

abbrev after : State
after =
    on_headers_event pair 2 get_merkle params headers synced
      (record { db = unverified_db; headers_tip_height = 0 })

verification_run :
    (unverified_heights unverified_db ≡ (102, 1) ∷ (103, 0) ∷ (200, 1) ∷ [])
    × (unverified_transactions after.db ≡ 103 ∷ 200 ∷ [])
    × ((tx_info 102 after.db).header_timestamp ≡ some 600)
unfolding program
verification_run = (refl, refl, refl)

header_at : verified_header_by_height params headers 1 ≡ some header
unfolding program
header_at = refl

abbrev verified_db : Db
verified_db = verify_transaction pair 2 get_merkle params headers 102 1 unverified_db

verify_transaction-IsMarked_example : IsMarked 102 600 unverified_db verified_db
unfolding program
verify_transaction-IsMarked_example =
    verify_transaction-IsMarked pair 2 get_merkle params headers 102 1 unverified_db header
      (answer_to 102) header_at refl block refl refl refl refl

verify_transaction-leaf_at_example : (le 1 0 ≡ false) × (leaf_at block (2 % 2 ^ 32) ≡ 102)
unfolding program
verify_transaction-leaf_at_example =
    verify_transaction-leaf_at pair 2 get_merkle params headers 102 1 unverified_db header
      (answer_to 102) header_at refl block pair-IsCollisionFree refl refl refl refl
