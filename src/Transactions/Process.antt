-- ===== src/Transactions/Process.antt =====
-- Processing a transaction for an address keeps the index in order.
use bitbox_wallet_app.Prelude.{
  ℕ, suc, ◌+◌, ◌≡◌, refl, ap, ◌∙◌, List, [], ◌∷◌, some, arith, get_elem?, Bool-cases, inl, inr,
  ◌==◌,
}
use bitbox_wallet_app.Prelude.Int64.{Int64}
use bitbox_wallet_app.Maketx.Types.{TxOut, MsgTx}
use bitbox_wallet_app.Transactions.Db.{
  add_address, Db, put_output, modify_tx, put_tx, add_address_to_tx,
}
use bitbox_wallet_app.Transactions.Index.{
  put_inputs, put_outputs, process_inputs_and_outputs_for_address, process_tx_for_address,
}
use bitbox_wallet_app.Transactions.Indexed.{
  IsStored, IsIndexed, IsIndexed-cong, modify_tx-IsStored, modify_tx-IsIndexed, put_tx-IsIndexed,
  put_tx-IsStored, put_output-IsIndexed,
}
use bitbox_wallet_app.Transactions.Stored.{put_inputs-fields, IsStored-cong}

put_outputs-IsIndexed :
    (now : ℕ) (script_hash_of : List ℕ → ℕ) (a h : ℕ) (tx : MsgTx) (k : ℕ) (os : List TxOut)
    (db : Db)
    → ((j : ℕ) (v : TxOut) → get_elem? os j ≡ some v → get_elem? tx.tx_out (k + j) ≡ some v)
    → IsStored db h tx
    → IsIndexed db
    → IsIndexed (put_outputs now script_hash_of a h k os db)
unfolding put_outputs put_output
put_outputs-IsIndexed now sh a h tx k [] db inside s v = v
put_outputs-IsIndexed now sh a h tx k (o ∷ os) db inside s v =
    elim (Bool-cases (sh o.pk_script == a)) [
      | inl ours ↦
          rw (ours, put_outputs)
            (put_outputs-IsIndexed now sh a h tx (suc k) os
              (put_output (record { hash = h; index = k }) o db) next
              (IsStored-cong db _ h tx refl s)
              (put_output-IsIndexed (record { hash = h; index = k }) o tx db s here v))
      | inr theirs ↦
          rw (theirs, put_outputs) (put_outputs-IsIndexed now sh a h tx (suc k) os db next s v)
    ]
  where
    here : get_elem? tx.tx_out k ≡ some o
    here = ap (get_elem? tx.tx_out) (omega arith) ∙ inside 0 o refl

    next : (j : ℕ) (w : TxOut) → get_elem? os j ≡ some w → get_elem? tx.tx_out (suc k + j) ≡ some w
    next j w e = ap (get_elem? tx.tx_out) (omega arith) ∙ inside (suc j) w e

pub process_tx_for_address-IsIndexed :
    (now : ℕ) (script_hash_of : List ℕ → ℕ) (a h : ℕ) (tx : MsgTx) (height : Int64) (db : Db)
    → ((t : MsgTx) → IsStored db h t → t ≡ tx)
    → IsIndexed db
    → IsIndexed (process_tx_for_address now script_hash_of a h tx height db)
unfolding process_tx_for_address process_inputs_and_outputs_for_address add_address_to_tx modify_tx
process_tx_for_address-IsIndexed now sh a h tx height db same v =
    let db1 = put_tx now h tx height db in
    let db2 = add_address_to_tx now h a db1 in
    let v2 : IsIndexed db2 =
      modify_tx-IsIndexed now h (add_address a) db1 (λ info t s e. e)
        (put_tx-IsIndexed now h tx height db same v) in
    let s2 : IsStored db2 h tx =
      modify_tx-IsStored now h (add_address a) db1 h tx (λ info p e. e)
        (put_tx-IsStored now h tx height db) in
    let (p, q) = put_inputs-fields h tx.tx_in db2 in
    put_outputs-IsIndexed now sh a h tx 0 tx.tx_out (put_inputs h tx.tx_in db2)
      (λ j w e. ap (get_elem? tx.tx_out) (omega arith) ∙ e) (IsStored-cong db2 _ h tx q s2)
      (IsIndexed-cong db2 _ p q v2)
