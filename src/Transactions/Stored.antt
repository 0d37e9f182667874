-- ===== src/Transactions/Stored.antt =====
-- The transactions that the index stores.
use bitbox_wallet_app.Prelude.{ℕ, ◌≡◌, refl, sym, ap, ◌∙◌, List, [], ◌∷◌, Option, none, some}
use bitbox_wallet_app.Prelude.Assoc.{find}
use bitbox_wallet_app.Maketx.Types.{TxIn, MsgTx}
use bitbox_wallet_app.Transactions.Db.{
  Db, DbTxInfo, same_hash, put_input, delete_input, tx_info, read_tx, new_wallet_transaction,
}
use bitbox_wallet_app.Transactions.Index.{put_inputs, delete_inputs}
use bitbox_wallet_app.Transactions.Indexed.{IsStored}

-- The inputs' bucket is another one.
pub put_inputs-fields :
    (h : ℕ) (is : List TxIn) (db : Db)
    → ((put_inputs h is db).outputs ≡ db.outputs)
      × ((put_inputs h is db).transactions ≡ db.transactions)
unfolding put_inputs put_input
put_inputs-fields h [] db = (refl, refl)
put_inputs-fields h (i ∷ is) db = put_inputs-fields h is (put_input i.previous_out_point h db)

pub delete_inputs-fields :
    (is : List TxIn) (db : Db)
    → ((delete_inputs is db).outputs ≡ db.outputs)
      × ((delete_inputs is db).transactions ≡ db.transactions)
unfolding delete_inputs delete_input
delete_inputs-fields [] db = (refl, refl)
delete_inputs-fields (i ∷ is) db = delete_inputs-fields is (delete_input i.previous_out_point db)

pub IsStored-cong :
    (db db' : Db) (h : ℕ) (tx : MsgTx)
    → db'.transactions ≡ db.transactions
    → IsStored db h tx
    → IsStored db' h tx
IsStored-cong db db' h tx q s = record {
  info = s.info;
  found = ap (find same_hash h) q ∙ s.found;
  stored = s.stored;
}

pub IsStored-unique : (db : Db) (h : ℕ) (s t : MsgTx) → IsStored db h s → IsStored db h t → s ≡ t
IsStored-unique db h s t p q =
    let same : p.info ≡ q.info = some-inj _ _ (sym p.found ∙ q.found) in
    tx-inj s t (sym p.stored ∙ ap (λ i. i.tx) same ∙ q.stored)
  where
    some-inj : (a b : DbTxInfo) → some a ≡ some b → a ≡ b
    some-inj a b e = cc

    tx-inj : (a b : MsgTx) → some a ≡ some b → a ≡ b
    tx-inj a b e = cc

-- The transaction that TxInfo reads is the stored one.
pub tx_info-IsStored :
    (db : Db) (h : ℕ) (tx : MsgTx) → (tx_info h db).tx ≡ some tx → IsStored db h tx
unfolding tx_info read_tx new_wallet_transaction
tx_info-IsStored db h tx e = go (find same_hash h db.transactions) refl e
  where
    go :
        (r : Option DbTxInfo)
        → find same_hash h db.transactions ≡ r
        → (read_tx r).tx ≡ some tx
        → IsStored db h tx
    go none p q = cc
    go (some info) p q = record { info = info; found = p; stored = q }
