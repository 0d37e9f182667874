-- ===== src/Transactions/Index.antt =====
-- backend/coins/btc/transactions/transactions.go: the operations that change the index.
-- The hash of a script and the server's answer to TransactionGet are parameters; an error of the
-- server panics, as does a nil transaction that is read. UpdateAddressHistory is one database
-- transaction. The notifier, the log lines and the goroutine that verifies a transaction are left out.
use bitbox_wallet_app.Prelude.{
  ℕ, suc, Bool, false, List, [], ◌∷◌, Option, none, some, map, ◌==◌, ◌||◌, if◌then◌else◌,
}
use bitbox_wallet_app.Prelude.Int64.{Int64}
use bitbox_wallet_app.Prelude.Run.{Run, ok, panic, ◌>>=◌}
use bitbox_wallet_app.Maketx.Types.{TxOut, TxIn, MsgTx}
use bitbox_wallet_app.Transactions.Db.{
  Db, TxInfo, tx_info, put_tx, delete_tx, add_address_to_tx, remove_address_from_tx, put_input,
  delete_input, put_output, delete_output, put_address_history, address_history,
}

unfoldable pub mem : ℕ → List ℕ → Bool
mem a [] = false
mem a (b ∷ bs) = a == b || mem a bs

unfoldable pub has_duplicates : List ℕ → Bool
unfolding mem
has_duplicates [] = false
has_duplicates (a ∷ as') = mem a as' || has_duplicates as'

-- All inputs are indexed, whoever's output they spend.
unfoldable pub put_inputs : ℕ → List TxIn → Db → Db
put_inputs tx_hash [] db = db
put_inputs tx_hash (i ∷ is) db = put_inputs tx_hash is (put_input i.previous_out_point tx_hash db)

unfoldable pub delete_inputs : List TxIn → Db → Db
delete_inputs [] db = db
delete_inputs (i ∷ is) db = delete_inputs is (delete_input i.previous_out_point db)

-- From an index on.
unfoldable pub delete_outputs : ℕ → ℕ → List TxOut → Db → Db
delete_outputs tx_hash index [] db = db
delete_outputs tx_hash index (o ∷ os) db =
    delete_outputs tx_hash (suc index) os
      (delete_output (record { hash = tx_hash; index = index }) db)

module _ (now : ℕ) (script_hash_of : List ℕ → ℕ) where
  unfoldable pub put_outputs : ℕ → ℕ → ℕ → List TxOut → Db → Db
  put_outputs script_hash tx_hash index [] db = db
  put_outputs script_hash tx_hash index (o ∷ os) db =
      put_outputs script_hash tx_hash (suc index) os (
        if script_hash_of o.pk_script == script_hash
        then put_output (record { hash = tx_hash; index = index }) o db
        else db)

  unfoldable pub process_inputs_and_outputs_for_address : ℕ → ℕ → MsgTx → Db → Db
  process_inputs_and_outputs_for_address script_hash tx_hash tx db =
      put_outputs script_hash tx_hash 0 tx.tx_out (put_inputs tx_hash tx.tx_in db)

  unfoldable pub process_tx_for_address : ℕ → ℕ → MsgTx → Int64 → Db → Db
  process_tx_for_address script_hash tx_hash tx height db =
      process_inputs_and_outputs_for_address script_hash tx_hash tx
        (add_address_to_tx now tx_hash script_hash (put_tx now tx_hash tx height db))

  -- With no address left, the transaction, its inputs and its outputs go.
  unfoldable pub remove_tx : ℕ → Option MsgTx → Db → Run ⊥ Db
  remove_tx tx_hash none db = panic
  remove_tx tx_hash (some tx) db =
      ok (delete_tx tx_hash (delete_outputs tx_hash 0 tx.tx_out (delete_inputs tx.tx_in db)))

  -- TxInfo never returns nil, so the code's early return is never taken.
  unfoldable pub remove_tx_for_address : ℕ → ℕ → Db → Run ⊥ Db
  remove_tx_for_address script_hash tx_hash db =
      let info = tx_info tx_hash db in
      let (db', empty) = remove_address_from_tx now tx_hash script_hash db in
      let removed = remove_tx tx_hash info.tx db' in if empty then removed else ok db'

  -- The previous entries that are not in the new history.
  unfoldable pub remove_missing : ℕ → List ℕ → List TxInfo → Db → Run ⊥ Db
  remove_missing script_hash txs_set [] db = ok db
  remove_missing script_hash txs_set (entry ∷ entries) db =
      (if mem entry.tx_hash txs_set
        then ok db
        else remove_tx_for_address script_hash entry.tx_hash db)
      >>= remove_missing script_hash txs_set entries

  module _ (transaction_get : ℕ → Option MsgTx) where
    unfoldable pub get_transaction_cached : ℕ → Option MsgTx → Run ⊥ MsgTx
    get_transaction_cached tx_hash (some tx) = ok tx
    get_transaction_cached tx_hash none = elim (transaction_get tx_hash) [
      | none ↦ panic
      | some tx ↦ ok tx
    ]

    unfoldable pub process_txs : ℕ → List TxInfo → Db → Run ⊥ Db
    process_txs script_hash [] db = ok db
    process_txs script_hash (entry ∷ entries) db = do
      tx ← get_transaction_cached entry.tx_hash (tx_info entry.tx_hash db).tx
      process_txs script_hash entries
          (process_tx_for_address script_hash entry.tx_hash tx entry.height db)

    -- `closed` is the flag of a closed index.
    unfoldable pub update_address_history : Bool → ℕ → List TxInfo → Db → Run ⊥ Db
    update_address_history closed script_hash txs db =
        let txs_set = map (λ t. t.tx_hash) txs in
        let updated =
          (remove_missing script_hash txs_set (address_history script_hash db) db >>= λ db'.
          process_txs script_hash txs (put_address_history script_hash txs db')) in
        if closed then ok db else (if has_duplicates txs_set then panic else updated)
