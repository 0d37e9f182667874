-- ===== src/Transactions/Updates.antt =====
-- UpdateAddressHistory keeps the index in order.
use bitbox_wallet_app.Prelude.{
  ℕ, ◌≡◌, refl, sym, ap, ◌∙◌, Bool, List, [], ◌∷◌, Option, some, map, Bool-cases, inl, inr,
}
use mathlib.Core.Path.{subst}
use bitbox_wallet_app.Prelude.Run.{ok, >>=-eq-ok, ok_unique}
use bitbox_wallet_app.Maketx.Types.{MsgTx}
use bitbox_wallet_app.Transactions.Db.{
  Db, TxInfo, tx_info, read_tx, put_address_history, address_history,
}
use bitbox_wallet_app.Transactions.Index.{
  process_tx_for_address, remove_tx_for_address, remove_missing, mem, get_transaction_cached,
  process_txs, update_address_history, has_duplicates,
}
use bitbox_wallet_app.Transactions.Indexed.{IsStored, IsIndexed, IsIndexed-cong}
use bitbox_wallet_app.Transactions.Process.{process_tx_for_address-IsIndexed}
use bitbox_wallet_app.Transactions.Removal.{remove_tx_for_address-IsIndexed}

remove_missing-IsIndexed :
    (now : ℕ) (script_hash_of : List ℕ → ℕ) (a : ℕ) (txs_set : List ℕ) (entries : List TxInfo)
    (db db' : Db)
    → remove_missing now script_hash_of a txs_set entries db ≡ ok db'
    → IsIndexed db
    → IsIndexed db'
unfolding remove_missing
remove_missing-IsIndexed now sh a set [] db db' e v = subst IsIndexed (ok_unique refl e) v
remove_missing-IsIndexed now sh a set (entry ∷ entries) db db' e v =
    elim (Bool-cases (mem entry.tx_hash set)) [
      | inl kept ↦ remove_missing-IsIndexed now sh a set entries db db' (rw kept at e) v
      | inr gone ↦
          let (db1, first, rest) =
            >>=-eq-ok (remove_tx_for_address now sh a entry.tx_hash db) _ (rw gone at e) in
          remove_missing-IsIndexed now sh a set entries db1 db' rest
            (remove_tx_for_address-IsIndexed now sh a entry.tx_hash db db1 first v)
    ]

-- What the cache returns is the stored transaction, if there is one.
get_transaction_cached-stored :
    (now : ℕ) (script_hash_of : List ℕ → ℕ) (get : ℕ → Option MsgTx) (h : ℕ) (db : Db)
    (tx t : MsgTx)
    → get_transaction_cached now script_hash_of get h (tx_info h db).tx ≡ ok tx
    → IsStored db h t
    → t ≡ tx
unfolding tx_info read_tx get_transaction_cached
get_transaction_cached-stored now sh get h db tx t e s =
    let read : (tx_info h db).tx ≡ some t = ap (λ r. (read_tx r).tx) s.found ∙ s.stored in
    ok_unique refl (sym (rw read refl) ∙ e)

process_txs-IsIndexed :
    (now : ℕ) (script_hash_of : List ℕ → ℕ) (get : ℕ → Option MsgTx) (a : ℕ) (entries : List TxInfo)
    (db db' : Db)
    → process_txs now script_hash_of get a entries db ≡ ok db'
    → IsIndexed db
    → IsIndexed db'
unfolding process_txs
process_txs-IsIndexed now sh get a [] db db' e v = subst IsIndexed (ok_unique refl e) v
process_txs-IsIndexed now sh get a (entry ∷ entries) db db' e v =
    let h = entry.tx_hash in
    let (tx, cached, rest) =
      >>=-eq-ok (get_transaction_cached now sh get h (tx_info h db).tx) _ e in
    process_txs-IsIndexed now sh get a entries
      (process_tx_for_address now sh a h tx entry.height db) db' rest
      (process_tx_for_address-IsIndexed now sh a h tx entry.height db
        (λ t s. get_transaction_cached-stored now sh get h db tx t cached s) v)

-- Whatever the server reports and returns, an update of an address history that does not panic keeps
-- every stored output an output, with that value and script, of the stored transaction of its hash.
pub update_address_history-IsIndexed :
    (now : ℕ) (script_hash_of : List ℕ → ℕ) (transaction_get : ℕ → Option MsgTx) (closed : Bool)
    (script_hash : ℕ) (txs : List TxInfo) (db db' : Db)
    → update_address_history now script_hash_of transaction_get closed script_hash txs db ≡ ok db'
    → IsIndexed db
    → IsIndexed db'
unfolding update_address_history put_address_history
update_address_history-IsIndexed now sh get closed a txs db db' e v = elim (Bool-cases closed) [
  | inl c ↦ subst IsIndexed (ok_unique refl (rw c at e)) v
  | inr opened ↦ elim (Bool-cases (has_duplicates (map (λ t. t.tx_hash) txs))) [
    | inl twice ↦ cc (rw (opened, twice) at e)
    | inr once ↦
        let r = rw (opened, once) at e in
        let (db1, removed, rest) =
          >>=-eq-ok (remove_missing now sh a (map (λ t. t.tx_hash) txs) (address_history a db) db) _
            r in
        process_txs-IsIndexed now sh get a txs (put_address_history a txs db1) db' rest (
          IsIndexed-cong db1 _ refl refl
            (remove_missing-IsIndexed now sh a _ (address_history a db) db db1 removed v))
  ]
]
