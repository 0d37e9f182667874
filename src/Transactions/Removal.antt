-- ===== src/Transactions/Removal.antt =====
-- Removing a transaction for an address keeps the index in order.
use bitbox_wallet_app.Prelude.{
  ℕ, suc, ◌+◌, ◌≤◌, ◌<◌, ◌≡◌, ◌≢◌, refl, sym, ap, ◌∙◌, List, [], ◌∷◌, none, some, arith, length,
  get_elem?, get_elem?-lt, Bool-cases, Option-cases, inl, inr,
}
use mathlib.Core.Path.{subst}
use native.Mathlib.Decide.{ℕ_discrete}
use bitbox_wallet_app.Prelude.Run.{ok, ok_unique}
use bitbox_wallet_app.Prelude.Assoc.{find, delete, find-delete_same, find-delete_other}
use bitbox_wallet_app.Maketx.Types.{OutPoint, TxOut, MsgTx}
use bitbox_wallet_app.Transactions.Db.{
  set_addresses, remove, Db, same_out_point, same_hash, output, delete_output, modify_tx, delete_tx,
  tx_info, read_or_create, remove_address_from_tx,
}
use bitbox_wallet_app.Transactions.Index.{
  delete_inputs, delete_outputs, remove_tx, remove_tx_for_address,
}
use bitbox_wallet_app.Transactions.Indexed.{
  same_out_point_iff, same_hash_iff, IsStored, IsIndexed, IsIndexed-cong, modify_tx-IsStored,
  modify_tx-IsIndexed,
}
use bitbox_wallet_app.Transactions.Stored.{
  delete_inputs-fields, IsStored-cong, IsStored-unique, tx_info-IsStored,
}

-- What is left of the outputs is not among the deleted ones.
delete_outputs-output :
    (h k : ℕ) (os : List TxOut) (db : Db) (o : OutPoint) (v : TxOut)
    → output o (delete_outputs h k os db) ≡ some v
    → (output o db ≡ some v) × (o.hash ≡ h → k ≤ o.index → o.index < k + length os → ⊥)
unfolding delete_outputs delete_output output
delete_outputs-output h k [] db o v e = (e, λ p q r. absurd (omega arith))
delete_outputs-output h k (x ∷ os) db o v e =
    let point : OutPoint = record { hash = h; index = k } in
    let (rest, out) = delete_outputs-output h (suc k) os (delete_output point db) o v e in
    elim (Bool-cases (same_out_point o point)) [
      | inl same ↦
          let p = (same_out_point_iff o point).0 same in
          let gone =
            ap (λ q. find same_out_point q (delete same_out_point point db.outputs)) p
            ∙ find-delete_same same_out_point same_out_point_iff point db.outputs in
          let bad : none ≡ some v = sym gone ∙ rest in cc
      | inr other ↦
          let differs : o ≢ point = λ q. cc (other, (same_out_point_iff o point).1 q) in
          (
            sym (find-delete_other same_out_point same_out_point_iff o point db.outputs differs)
                ∙ rest,
            λ p q r. elim (ℕ_discrete o.index k) [
              | yes at ↦ differs (point-eq o p at)
              | no above ↦ out p (omega (arith, above)) (omega arith)
            ],
          )
    ]
  where
    point-eq : (b : OutPoint) → b.hash ≡ h → b.index ≡ k → b ≡ record { hash = h; index = k }
    point-eq b p q = cc

delete_outputs-transactions :
    (h k : ℕ) (os : List TxOut) (db : Db)
    → (delete_outputs h k os db).transactions ≡ db.transactions
unfolding delete_outputs delete_output
delete_outputs-transactions h k [] db = refl
delete_outputs-transactions h k (o ∷ os) db =
    delete_outputs-transactions h (suc k) os (delete_output (record { hash = h; index = k }) db)

-- The transaction goes with all its outputs.
remove_tx-IsIndexed :
    (h : ℕ) (tx : MsgTx) (db : Db)
    → IsStored db h tx
    → IsIndexed db
    → IsIndexed (delete_tx h (delete_outputs h 0 tx.tx_out (delete_inputs tx.tx_in db)))
unfolding delete_tx output
remove_tx-IsIndexed h tx db s v o w e =
    let (p, q) = delete_inputs-fields tx.tx_in db in
    let v1 = IsIndexed-cong db (delete_inputs tx.tx_in db) p q v in
    let db2 = delete_outputs h 0 tx.tx_out (delete_inputs tx.tx_in db) in
    let (before, out) = delete_outputs-output h 0 tx.tx_out (delete_inputs tx.tx_in db) o w e in
    let old = v1 o w before in
    let differs : o.hash ≢ h = λ r.
      (let stored_at = subst (λ j. IsStored (delete_inputs tx.tx_in db) j old.tx) r old.is_stored in
        let same_tx =
          IsStored-unique (delete_inputs tx.tx_in db) h old.tx tx stored_at
            (IsStored-cong db _ h tx q s) in
        let there = ap (λ t. get_elem? t.tx_out o.index) (sym same_tx) ∙ old.at in
        out r (omega arith) (omega (arith, get_elem?-lt tx.tx_out o.index there))) in
    record {
      tx = old.tx;
      is_stored = record {
        info = old.is_stored.info;
        found =
            find-delete_other same_hash same_hash_iff o.hash h db2.transactions differs
            ∙ ap (find same_hash o.hash) (delete_outputs-transactions h 0 tx.tx_out _)
            ∙ old.is_stored.found;
        stored = old.is_stored.stored;
      };
      at = old.at;
    }

pub remove_tx_for_address-IsIndexed :
    (now : ℕ) (script_hash_of : List ℕ → ℕ) (a h : ℕ) (db db' : Db)
    → remove_tx_for_address now script_hash_of a h db ≡ ok db'
    → IsIndexed db
    → IsIndexed db'
unfolding remove_tx_for_address remove_address_from_tx modify_tx remove_tx
remove_tx_for_address-IsIndexed now sh a h db db' e v =
    elim (Bool-cases (remove_address_from_tx now h a db).1) [
      | inl empty ↦ elim (Option-cases (tx_info h db).tx) [
        | inl none_stored ↦ cc (rw (empty, none_stored) at e)
        | inr (tx, stored) ↦
            let r = rw (empty, stored) at e in
            let s : IsStored after h tx =
              modify_tx-IsStored now h
                (set_addresses
                  (remove a (read_or_create now (find same_hash h db.transactions)).addresses))
                db h tx (λ info p q. q) (tx_info-IsStored db h tx stored) in
            subst IsIndexed (ok_unique refl r) (remove_tx-IsIndexed h tx after s kept)
      ]
      | inr left ↦ subst IsIndexed (ok_unique refl (rw left at e)) kept
    ]
  where
    after : Db
    after = (remove_address_from_tx now h a db).0

    kept : IsIndexed after
    kept =
        modify_tx-IsIndexed now h
          (set_addresses
            (remove a (read_or_create now (find same_hash h db.transactions)).addresses))
          db (λ info t s q. q) v
