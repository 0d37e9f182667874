-- ===== src/Transactions/Verification/Proven.antt =====
-- What the verification of a transaction proves, and what it writes.
use mathlib.Core.Path.{subst}
use native.Mathlib.Decide.{ℕ_discrete}
use bitbox_wallet_app.Prelude.{
  ℕ, ◌%◌, ◌^◌, ◌≡◌, ◌⊎◌, refl, sym, ap, ◌∙◌, true, false, Option, none, some, length, ◌==◌, ==_iff,
  ==_self, if◌then◌else◌, Bool-cases, inl, inr,
}
use bitbox_wallet_app.Prelude.Assoc.{
  find, find-put_same, find-put_other, find-delete_same, find-delete_other,
}
use bitbox_wallet_app.Prelude.Int64.{Int64, le}
use bitbox_wallet_app.Headers.Net.{Params}
use bitbox_wallet_app.Headers.Db.{Header}
use bitbox_wallet_app.Headers.Sync.{Headers, verified_header_by_height}
use bitbox_wallet_app.Transactions.Db.{
  Db, DbTxInfo, same_hash, tx_info, read_tx, read_or_create, modify_tx, mark_tx_verified,
}
use bitbox_wallet_app.Transactions.Indexed.{same_hash_iff}
use bitbox_wallet_app.Transactions.Verification.{
  GetMerkleResult, hash_merkle_root, mark_if_proven, verify_transaction,
}
use bitbox_wallet_app.Transactions.Verification.Merkle.{
  Tree, leaf_at, root, branch, IsCollisionFree, hash_branch-root, root-leaf_at,
}

-- The transaction is verified, with the time of its block; the other transactions stay.
pub record IsMarked (tx_hash timestamp : ℕ) (db db' : Db) : Type 0 where
  pub verified : (tx_info tx_hash db').verified ≡ true
  pub dated : (tx_info tx_hash db').header_timestamp ≡ some timestamp
  pub done : find same_hash tx_hash db'.unverified ≡ none
  pub others :
      (other : ℕ)
      → (other ≡ tx_hash)
        ⊎ (tx_info other db' ≡ tx_info other db)
          × (find same_hash other db'.unverified ≡ find same_hash other db.unverified)

mark_tx_verified-IsMarked :
    (now tx_hash timestamp : ℕ) (db : Db)
    → IsMarked tx_hash timestamp db (mark_tx_verified now tx_hash timestamp db)
unfolding mark_tx_verified modify_tx tx_info read_tx
mark_tx_verified-IsMarked now h timestamp db =
    let info = read_or_create now (find same_hash h db.transactions) in
    let marked : DbTxInfo = record info { verified = true; header_timestamp = some timestamp } in
    let found = find-put_same same_hash same_hash_iff h marked db.transactions in
    record {
      verified = ap (λ (o : Option DbTxInfo). (read_tx o).verified) found;
      dated = ap (λ (o : Option DbTxInfo). (read_tx o).header_timestamp) found;
      done = find-delete_same same_hash same_hash_iff h db.unverified;
      others = λ other. elim (ℕ_discrete other h) [
        | yes same ↦ inl same
        | no differs ↦ inr (
          ap read_tx
              (find-put_other same_hash same_hash_iff other h marked db.transactions differs),
          find-delete_other same_hash same_hash_iff other h db.unverified differs,
        )
      ];
    }

module _ (hash : ℕ → ℕ → ℕ) (now : ℕ) (get_merkle : ℕ → Int64 → Option GetMerkleResult)
    (params : Params) (headers : Headers) (tx_hash : ℕ) (height : Int64) (db : Db) (header : Header)
    (answer : GetMerkleResult)
    (synced : verified_header_by_height params headers height ≡ some header)
    (answered : get_merkle tx_hash height ≡ some answer) where
  -- What a call does at a height above 0, with a header and an answer.
  verify_transaction-answer :
      le height 0 ≡ false
      → verify_transaction hash now get_merkle params headers tx_hash height db ≡ (
          if hash_merkle_root hash answer.merkle tx_hash answer.pos == header.merkle_root
          then mark_tx_verified now tx_hash header.timestamp db
          else db)
  unfolding verify_transaction mark_if_proven
  verify_transaction-answer confirmed = rw (confirmed, synced, answered) refl

  -- The verification of a transaction marks it when the answer is the path of the transaction in the
  -- tree of the block at its height: it is no longer among the unverified ones, it has the time of the
  -- block, and the other transactions stay as they are.
  pub verify_transaction-IsMarked :
      {d : ℕ} (t : Tree d)
      → le height 0 ≡ false
      → root hash t ≡ header.merkle_root
      → leaf_at t (answer.pos % 2 ^ 32) ≡ tx_hash
      → answer.merkle ≡ branch hash t (answer.pos % 2 ^ 32)
      → IsMarked tx_hash header.timestamp db
          (verify_transaction hash now get_merkle params headers tx_hash height db)
  unfolding hash_merkle_root
  verify_transaction-IsMarked t confirmed rooted at path =
      let proven : hash_merkle_root hash answer.merkle tx_hash answer.pos ≡ header.merkle_root =
        rw (path, sym at) (hash_branch-root hash t (answer.pos % 2 ^ 32)) ∙ rooted in
      subst (IsMarked tx_hash header.timestamp db)
        (sym (verify_transaction-answer confirmed ∙ rw (proven, ==_self header.merkle_root) refl))
        (mark_tx_verified-IsMarked now tx_hash header.timestamp db)

  -- When a call marks a transaction as verified that was not, and the hash has no collisions, then
  -- the transaction is confirmed and stands in the tree of the block at its height, at the position of
  -- the answer, if the path has the height of the tree.
  pub verify_transaction-leaf_at :
      {d : ℕ} (t : Tree d)
      → IsCollisionFree hash
      → root hash t ≡ header.merkle_root
      → length answer.merkle ≡ d
      → (tx_info tx_hash db).verified ≡ false
      → (tx_info tx_hash
          (verify_transaction hash now get_merkle params headers tx_hash height db)).verified
        ≡ true
      → (le height 0 ≡ false) × (leaf_at t (answer.pos % 2 ^ 32) ≡ tx_hash)
  unfolding hash_merkle_root verify_transaction
  verify_transaction-leaf_at t free rooted depth before after = elim (Bool-cases (le height 0)) [
    | inl unconfirmed ↦ absurd (unmarked (rw unconfirmed at after))
    | inr confirmed ↦
        elim (Bool-cases
          (hash_merkle_root hash answer.merkle tx_hash answer.pos == header.merkle_root)) [
            | inl proven ↦ (
              confirmed,
              sym (
                  root-leaf_at hash free t answer.merkle tx_hash (answer.pos % 2 ^ 32) depth
                    ((==_iff _ _).0 proven ∙ sym rooted)),
            )
            | inr refuted ↦ absurd (
                unmarked (
                  ap (λ (x : Db). (tx_info tx_hash x).verified)
                    (sym (verify_transaction-answer confirmed ∙ rw refuted refl))
                  ∙ after))
          ]
  ]
    where
      unmarked : (tx_info tx_hash db).verified ≡ true → ⊥
      unmarked marked = (let r = rw before at marked in cc)
