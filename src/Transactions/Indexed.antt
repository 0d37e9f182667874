-- ===== src/Transactions/Indexed.antt =====
-- The invariant of the index: a stored output is an output of a stored transaction; and the
-- database's operations that keep it.
use bitbox_wallet_app.Prelude.{
  ℕ, ◌≡◌, ◌≢◌, ◌↔◌, refl, sym, ap, ◌∙◌, true, some, arith, get_elem?, Bool-cases, inl, inr, ==_iff,
}
use mathlib.Core.Path.{subst}
use native.Mathlib.Decide.{ℕ_discrete}
use bitbox_wallet_app.Prelude.Assoc.{find, put, find-put_same, find-put_other}
use bitbox_wallet_app.Prelude.Int64.{Int64}
use bitbox_wallet_app.Maketx.Types.{OutPoint, TxOut, MsgTx}
use bitbox_wallet_app.Transactions.Db.{
  Db, DbTxInfo, same_out_point, same_hash, output, put_output, modify_tx, put_tx, read_or_create,
}

pub same_out_point_iff : (a b : OutPoint) → (same_out_point a b ≡ true) ↔ (a ≡ b)
unfolding same_out_point
same_out_point_iff a b = (λ e. ground arith, λ e. ground arith)

pub same_hash_iff : (a b : ℕ) → (same_hash a b ≡ true) ↔ (a ≡ b)
same_hash_iff a b = ==_iff a b

-- The transaction is stored under the hash.
pub record IsStored (db : Db) (tx_hash : ℕ) (tx : MsgTx) : Type 0 where
  pub info : DbTxInfo
  pub found : find same_hash tx_hash db.transactions ≡ some info
  pub stored : info.tx ≡ some tx

pub record IsOutputOf (db : Db) (o : OutPoint) (v : TxOut) : Type 0 where
  pub tx : MsgTx
  pub is_stored : IsStored db o.hash tx
  pub at : get_elem? tx.tx_out o.index ≡ some v

abbrev pub IsIndexed : Db → Type 0
IsIndexed db = (o : OutPoint) (v : TxOut) → output o db ≡ some v → IsOutputOf db o v

-- The invariant reads two buckets only.
pub IsIndexed-cong :
    (db db' : Db)
    → db'.outputs ≡ db.outputs
    → db'.transactions ≡ db.transactions
    → IsIndexed db
    → IsIndexed db'
unfolding output
IsIndexed-cong db db' p q v o t e =
    let old = v o t (ap (find same_out_point o) (sym p) ∙ e) in
    record {
      tx = old.tx;
      is_stored = record {
        info = old.is_stored.info;
        found = ap (find same_hash o.hash) q ∙ old.is_stored.found;
        stored = old.is_stored.stored;
      };
      at = old.at;
    }

modify_tx-find_same :
    (now h : ℕ) (f : DbTxInfo → DbTxInfo) (db : Db) (info : DbTxInfo)
    → find same_hash h db.transactions ≡ some info
    → find same_hash h (modify_tx now h f db).transactions ≡ some (f info)
unfolding modify_tx read_or_create
modify_tx-find_same now h f db info e =
    find-put_same same_hash same_hash_iff h _ db.transactions
    ∙ ap (λ o. some (f (read_or_create now o))) e

pub modify_tx-IsStored :
    (now h : ℕ) (f : DbTxInfo → DbTxInfo) (db : Db) (k : ℕ) (tx : MsgTx)
    → ((info : DbTxInfo) → h ≡ k → info.tx ≡ some tx → (f info).tx ≡ some tx)
    → IsStored db k tx
    → IsStored (modify_tx now h f db) k tx
unfolding modify_tx
modify_tx-IsStored now h f db k tx keeps s = elim (ℕ_discrete k h) [
  | yes p ↦ record {
    info = f s.info;
    found =
        ap (λ j. find same_hash j (modify_tx now h f db).transactions) p
        ∙ modify_tx-find_same now h f db s.info
            (ap (λ j. find same_hash j db.transactions) (sym p) ∙ s.found);
    stored = keeps s.info (sym p) s.stored;
  }
  | no p ↦ record {
    info = s.info;
    found = find-put_other same_hash same_hash_iff k h _ db.transactions p ∙ s.found;
    stored = s.stored;
  }
]

pub modify_tx-IsIndexed :
    (now h : ℕ) (f : DbTxInfo → DbTxInfo) (db : Db)
    → ((info : DbTxInfo) (tx : MsgTx)
        → IsStored db h tx
        → info.tx ≡ some tx
        → (f info).tx ≡ some tx)
    → IsIndexed db
    → IsIndexed (modify_tx now h f db)
unfolding modify_tx output
modify_tx-IsIndexed now h f db keeps v o t e =
    let old = v o t e in
    record {
      tx = old.tx;
      is_stored =
          modify_tx-IsStored now h f db o.hash old.tx
            (λ info p q.
              keeps info old.tx (subst (λ j. IsStored db j old.tx) (sym p) old.is_stored) q)
            old.is_stored;
      at = old.at;
    }

put_tx-fields :
    (now h : ℕ) (tx : MsgTx) (height : Int64) (db : Db)
    → ((put_tx now h tx height db).outputs ≡ db.outputs)
      × ((put_tx now h tx height db).transactions
          ≡ (modify_tx now h
              (λ info. record info { tx = some tx; height = height })
              db).transactions)
unfolding put_tx modify_tx
put_tx-fields now h tx height db = (ground arith, ground arith)

-- A transaction that is stored already is stored again as it is.
pub put_tx-IsIndexed :
    (now h : ℕ) (tx : MsgTx) (height : Int64) (db : Db)
    → ((t : MsgTx) → IsStored db h t → t ≡ tx)
    → IsIndexed db
    → IsIndexed (put_tx now h tx height db)
unfolding modify_tx
put_tx-IsIndexed now h tx height db same v =
    let f : DbTxInfo → DbTxInfo = λ info. record info { tx = some tx; height = height } in
    let (p, q) = put_tx-fields now h tx height db in
    IsIndexed-cong (modify_tx now h f db) (put_tx now h tx height db) p q
      (modify_tx-IsIndexed now h f db (λ info t s e. ap some (sym (same t s))) v)

pub put_tx-IsStored :
    (now h : ℕ) (tx : MsgTx) (height : Int64) (db : Db) → IsStored (put_tx now h tx height db) h tx
unfolding modify_tx
put_tx-IsStored now h tx height db = record {
  info = record (read_or_create now (find same_hash h db.transactions)) {
    tx = some tx;
    height = height;
  };
  found =
      ap (find same_hash h) (put_tx-fields now h tx height db).1
      ∙ find-put_same same_hash same_hash_iff h _ db.transactions;
  stored = refl;
}

pub put_output-IsIndexed :
    (o : OutPoint) (v : TxOut) (tx : MsgTx) (db : Db)
    → IsStored db o.hash tx
    → get_elem? tx.tx_out o.index ≡ some v
    → IsIndexed db
    → IsIndexed (put_output o v db)
unfolding put_output output
put_output-IsIndexed o v tx db s at valid p w e = elim (Bool-cases (same_out_point p o)) [
  | inl same ↦
      let p_o : p ≡ o = (same_out_point_iff p o).0 same in
      let v_w : v ≡ w = some-inj v w (
        sym (find-put_same same_out_point same_out_point_iff o v db.outputs)
        ∙ ap (λ q. find same_out_point q (put same_out_point o v db.outputs)) (sym p_o)
        ∙ e) in
      record {
        tx = tx;
        is_stored = record {
          info = s.info;
          found = ap (λ q. find same_hash q.hash db.transactions) p_o ∙ s.found;
          stored = s.stored;
        };
        at = ap (λ q. get_elem? tx.tx_out q.index) p_o ∙ at ∙ ap some v_w;
      }
  | inr other ↦
      let differs : p ≢ o = λ q. cc (other, (same_out_point_iff p o).1 q) in
      let old =
        valid p w
          (sym (find-put_other same_out_point same_out_point_iff p o v db.outputs differs) ∙ e) in
      record {
        tx = old.tx;
        is_stored = record {
          info = old.is_stored.info;
          found = old.is_stored.found;
          stored = old.is_stored.stored;
        };
        at = old.at;
      }
]
  where
    some-inj : (a b : TxOut) → some a ≡ some b → a ≡ b
    some-inj a b q = cc
