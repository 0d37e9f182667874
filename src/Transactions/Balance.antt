-- ===== src/Transactions/Balance.antt =====
-- What Balance adds up.
use bitbox_wallet_app.Prelude.{
  ℕ, ◌+◌, ◌<◌, ◌≡◌, refl, sym, ap, ◌∙◌, Bool, true, false, not, List, [], ◌∷◌, some, arith, select,
  All, Bool-cases, inl, inr,
}
use bitbox_wallet_app.Prelude.Int64.{half, add-eq, lt}
use bitbox_wallet_app.Prelude.Run.{ok}
use bitbox_wallet_app.Maketx.Types.{OutPoint, TxOut}
use native.Mathlib.Nat.{zero-add}
use mathlib.Core.List.{append_assoc, ◌++◌}
use bitbox_wallet_app.Prelude.Assoc.{find}
use bitbox_wallet_app.Transactions.Indexed.{IsIndexed, IsOutputOf, same_out_point_iff}
use bitbox_wallet_app.Transactions.Db.{Db, tx_info, read_tx, same_out_point, output}
use bitbox_wallet_app.Transactions.Queries.{
  all_inputs_ours, all_ours, is_input_spent, is_available, spendable_among, balance_loop,
  spendable_outputs, balance,
}

abbrev pub value : OutPoint × TxOut → ℕ
value o = (o.1).value

abbrev pub total : List (OutPoint × TxOut) → ℕ
total [] = 0
total (o ∷ os) = value o + total os

-- The outputs that no indexed input spends.
abbrev pub unspent : Db → List (OutPoint × TxOut) → List (OutPoint × TxOut)
unspent db = select (λ o. not (is_input_spent db o.0))

-- The question whether an output is available has an answer for each of these.
abbrev pub Answers : Db → List (OutPoint × TxOut) → Type 0
Answers db = All (λ o. (b : Bool) × (is_available db o.0 ≡ ok b))

-- The two loops at some outputs, from the sums so far.
record LoopSums (db : Db) (os : List (OutPoint × TxOut)) (a i : ℕ) : Type 0 where
  spendable : List (OutPoint × TxOut)
  incoming : ℕ
  spendable_eq : spendable_among db os ≡ ok spendable
  balance_eq : balance_loop db os a i ≡ ok (a + total spendable, incoming)
  total_eq : a + total spendable + incoming ≡ a + i + total (unspent db os)

spent-LoopSums :
    (db : Db) (o : OutPoint × TxOut) (os : List (OutPoint × TxOut)) (a i : ℕ)
    → is_input_spent db o.0 ≡ true
    → LoopSums db os a i
    → LoopSums db (o ∷ os) a i
unfolding spendable_among balance_loop
spent-LoopSums db o os a i e s = record {
  spendable = s.spendable;
  incoming = s.incoming;
  spendable_eq = rw (e, spendable_among) s.spendable_eq;
  balance_eq = rw (e, balance_loop) s.balance_eq;
  total_eq = rw e s.total_eq;
}

available-LoopSums :
    (db : Db) (o : OutPoint × TxOut) (os : List (OutPoint × TxOut)) (a i : ℕ)
    → is_input_spent db o.0 ≡ false
    → is_available db o.0 ≡ ok true
    → a + value o < half
    → LoopSums db os (a + value o) i
    → LoopSums db (o ∷ os) a i
unfolding spendable_among balance_loop
available-LoopSums db o os a i e ours small s = record {
  spendable = o ∷ s.spendable;
  incoming = s.incoming;
  spendable_eq = rw (e, ours, s.spendable_eq, spendable_among) refl;
  balance_eq =
      rw (e, ours, balance_loop, add-eq a (value o) (omega arith))
        (s.balance_eq ∙ ap (λ n. ok (n, s.incoming)) (omega arith));
  total_eq = rw e (omega (arith, s.total_eq));
}

incoming-LoopSums :
    (db : Db) (o : OutPoint × TxOut) (os : List (OutPoint × TxOut)) (a i : ℕ)
    → is_input_spent db o.0 ≡ false
    → is_available db o.0 ≡ ok false
    → i + value o < half
    → LoopSums db os a (i + value o)
    → LoopSums db (o ∷ os) a i
unfolding spendable_among balance_loop
incoming-LoopSums db o os a i e theirs small s = record {
  spendable = s.spendable;
  incoming = s.incoming;
  spendable_eq = rw (e, theirs, s.spendable_eq, spendable_among) refl;
  balance_eq = rw (e, theirs, balance_loop, add-eq i (value o) (omega arith)) s.balance_eq;
  total_eq = rw e (omega (arith, s.total_eq));
}

balance_loop-LoopSums :
    (db : Db) (os : List (OutPoint × TxOut)) (a i : ℕ)
    → Answers db os
    → a + i + total os < half
    → LoopSums db os a i
unfolding spendable_among balance_loop
balance_loop-LoopSums db [] a i answers small = record {
  spendable = [];
  incoming = i;
  spendable_eq = refl;
  balance_eq = ap (λ n. ok (n, i)) (omega arith);
  total_eq = omega arith;
}
balance_loop-LoopSums db (o ∷ os) a i ((b, answer), answers) small =
    elim (Bool-cases (is_input_spent db o.0)) [
      | inl e ↦ spent-LoopSums db o os a i e (balance_loop-LoopSums db os a i answers (omega arith))
      | inr e ↦ elim (Bool-cases b) [
        | inl ours ↦
            available-LoopSums db o os a i e (answer ∙ ap ok ours) (omega arith)
              (balance_loop-LoopSums db os (a + value o) i answers (omega arith))
        | inr theirs ↦
            incoming-LoopSums db o os a i e (answer ∙ ap ok theirs) (omega arith)
              (balance_loop-LoopSums db os a (i + value o) answers (omega arith))
      ]
    ]

-- An output of an indexed transaction has an answer.
is_available-IsOutputOf :
    (db : Db) (o : OutPoint) (v : TxOut)
    → IsOutputOf db o v
    → (b : Bool) × (is_available db o ≡ ok b)
unfolding is_available all_inputs_ours tx_info read_tx
is_available-IsOutputOf db o v stored =
    let read : (tx_info o.hash db).tx ≡ some stored.tx =
      ap (λ r. (read_tx r).tx) stored.is_stored.found ∙ stored.is_stored.stored in
    elim (Bool-cases (lt 0 (tx_info o.hash db).height)) [
      | inl confirmed ↦ (true, rw confirmed refl)
      | inr pending ↦ (all_ours db stored.tx.tx_in, rw (pending, read) refl)
    ]

-- A key that is listed is found.
find-listed :
    (o : OutPoint × TxOut) (before os : List (OutPoint × TxOut))
    → (v : TxOut) × (find same_out_point o.0 (before ++ o ∷ os) ≡ some v)
unfolding find same_out_point
find-listed o [] os = (o.1, rw ((same_out_point_iff o.0 o.0).1 refl, find) refl)
find-listed o (b ∷ bs) os =
    let (v, e) = find-listed o bs os in
    elim (Bool-cases (same_out_point o.0 b.0)) [
      | inl same ↦ (b.1, rw (same, find) refl)
      | inr other ↦ (v, rw (other, find) e)
    ]

IsIndexed-Answers :
    (db : Db) (before os : List (OutPoint × TxOut))
    → db.outputs ≡ before ++ os
    → IsIndexed db
    → Answers db os
unfolding output
IsIndexed-Answers db before [] e v = tt
IsIndexed-Answers db before (o ∷ os) e v =
    let (w, found) = find-listed o before os in
    (
      is_available-IsOutputOf db o.0 w (v o.0 w (ap (find same_out_point o.0) e ∙ found)),
      IsIndexed-Answers db (before ++ o ∷ []) os (e ∙ sym (append_assoc before (o ∷ []) os)) v,
    )

pub record Sums (db : Db) : Type 0 where
  pub spendable : List (OutPoint × TxOut)
  pub incoming : ℕ
  pub spendable_eq : spendable_outputs db ≡ ok spendable
  pub balance_eq : balance db ≡ ok (total spendable, incoming)
  pub total_eq : total spendable + incoming ≡ total (unspent db db.outputs)

-- On an index in order, with stored outputs of less than 2 ^ 63 satoshi together, neither Balance nor
-- SpendableOutputs panics; the available balance is the sum of the spendable outputs, and with the
-- incoming balance it is the sum of all outputs that no indexed input spends.
pub balance-Sums : (db : Db) → IsIndexed db → total db.outputs < half → Sums db
unfolding balance spendable_outputs
balance-Sums db v small =
    let s =
      balance_loop-LoopSums db db.outputs 0 0 (IsIndexed-Answers db [] db.outputs refl v)
        (omega arith) in
    record {
      spendable = s.spendable;
      incoming = s.incoming;
      spendable_eq = s.spendable_eq;
      balance_eq = s.balance_eq ∙ ap (λ n. ok (n, s.incoming)) (zero-add (total s.spendable));
      total_eq = omega (arith, s.total_eq);
    }
