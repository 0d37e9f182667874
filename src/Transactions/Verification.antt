-- ===== src/Transactions/Verification.antt =====
-- backend/coins/btc/transactions/verification.go: the verification of transactions by the headers.
-- `hash` is the double hash of two hashes one after the other, and `get_merkle` the server's answer.
-- Every goroutine of verifyTransactions is one call of `verify_transaction`, in any order. The counter
-- of the synchronizer and the log lines are left out.
use bitbox_wallet_app.Prelude.{
  ℕ, ◌/◌, ◌%◌, ◌^◌, List, [], ◌∷◌, Option, none, some, map, Bool, true, false, ◌==◌, if◌then◌else◌,
}
use bitbox_wallet_app.Prelude.Int64.{Int64, le}
use bitbox_wallet_app.Headers.Net.{Params}
use bitbox_wallet_app.Headers.Db.{Header}
use bitbox_wallet_app.Headers.Sync.{
  Headers, Event, synced, new_tip, verified_header_by_height, tip_height,
}
use bitbox_wallet_app.Transactions.Db.{Db, tx_info, unverified_transactions, mark_tx_verified}
pub mod Merkle
pub mod Proven
mod Tests

-- blockchain.GetMerkleResult.
pub record GetMerkleResult : Type 0 where
  pub merkle : List ℕ
  pub pos : Int64

unfoldable pub heights_of : Db → List ℕ → List (ℕ × Int64)
heights_of db [] = []
heights_of db (tx_hash ∷ hashes) = (tx_hash, (tx_info tx_hash db).height) ∷ heights_of db hashes

-- unverifiedTransactions of the file, with the heights.
unfoldable pub unverified_heights : Db → List (ℕ × Int64)
unfolding heights_of
unverified_heights db = heights_of db (unverified_transactions db)

module _ (hash : ℕ → ℕ → ℕ) where
  -- The position is shifted by the steps done.
  unfoldable pub hash_branch : List ℕ → ℕ → ℕ → ℕ
  hash_branch [] start pos = start
  hash_branch (m ∷ merkle) start pos =
      hash_branch merkle (if pos % 2 == 0 then hash start m else hash m start) (pos / 2)

  -- The position is cut to a uint32.
  unfoldable pub hash_merkle_root : List ℕ → ℕ → Int64 → ℕ
  unfolding hash_branch
  hash_merkle_root merkle start pos = hash_branch merkle start (pos % 2 ^ 32)

  -- Without a header or an answer, or with another root, the transaction stays unverified.
  unfoldable pub mark_if_proven : ℕ → ℕ → Option Header → Option GetMerkleResult → Db → Db
  unfolding hash_merkle_root
  mark_if_proven now tx_hash (some header) (some answer) db =
      if hash_merkle_root answer.merkle tx_hash answer.pos == header.merkle_root
      then mark_tx_verified now tx_hash header.timestamp db
      else db
  mark_if_proven now tx_hash header answer db = db

  unfoldable pub verify_transaction :
      ℕ → (ℕ → Int64 → Option GetMerkleResult) → Params → Headers → ℕ → Int64 → Db → Db
  unfolding mark_if_proven
  verify_transaction now get_merkle params headers tx_hash height db =
      if le height 0
      then db
      else mark_if_proven now tx_hash (verified_header_by_height params headers height)
          (get_merkle tx_hash height) db

  -- The goroutines, in the order of the list.
  unfoldable pub verify_all :
      ℕ → (ℕ → Int64 → Option GetMerkleResult) → Params → Headers → List (ℕ × Int64) → Db → Db
  verify_all now get_merkle params headers [] db = db
  verify_all now get_merkle params headers (t ∷ ts) db =
      verify_all now get_merkle params headers ts
        (verify_transaction now get_merkle params headers t.0 t.1 db)

pub record State : Type 0 where
  pub db : Db
  pub headers_tip_height : ℕ

-- onHeadersEvent; the other events do nothing.
unfoldable pub on_headers_event :
    (ℕ → ℕ → ℕ)
    → ℕ
    → (ℕ → Int64 → Option GetMerkleResult)
    → Params
    → Headers
    → Event
    → State
    → State
unfolding unverified_heights
on_headers_event hash now get_merkle params headers synced s = record s {
  db = verify_all hash now get_merkle params headers (unverified_heights s.db) s.db;
}
on_headers_event hash now get_merkle params headers new_tip s = record s {
  headers_tip_height = tip_height headers;
}
on_headers_event hash now get_merkle params headers event s = s
