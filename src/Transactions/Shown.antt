-- ===== src/Transactions/Shown.antt =====
-- What is shown of a transaction adds up to what it changes.
use bitbox_wallet_app.Prelude.{
  ℕ, suc, ◌<◌, ◌≡◌, refl, ◌∙◌, Bool, true, false, List, [], ◌∷◌, Option, none, some, arith,
  Bool-cases, inl, inr,
}
use bitbox_wallet_app.Prelude.Int64.{Int64, modulus, add, sub, neg, le, mul, quot}
use bitbox_wallet_app.Prelude.Run.{ok}
use bitbox_wallet_app.Maketx.Types.{TxOut, TxIn, MsgTx}
use bitbox_wallet_app.Transactions.Db.{Db, DbTxInfo, output}
use bitbox_wallet_app.Transactions.Details.{
  TxType, receive, send, send_self, Gathered, TransactionData, nothing_gathered, note_input,
  gather_inputs, note_output, gather_outputs, classify, fee_of, fee_rate, transaction_data,
  num_confirmations, status_of,
}

abbrev pub or_zero : Option Int64 → Int64
or_zero none = 0
or_zero (some n) = n

-- What a transaction that is shown so adds to the balance of the account.
abbrev pub shown_change : TxType → Int64 → Option Int64 → Int64
shown_change receive amount fee = amount
shown_change send amount fee = sub (neg amount) (or_zero fee)
shown_change send_self amount fee = neg (or_zero fee)

abbrev pub value_if : Option TxOut → Int64 → Int64
value_if none n = 0
value_if (some o) n = n

abbrev pub spent_value : Option TxOut → Int64
spent_value none = 0
spent_value (some o) = o.value

-- The values of the stored outputs that the inputs spend.
abbrev pub our_inputs : Db → List TxIn → Int64
our_inputs db [] = 0
our_inputs db (i ∷ is) = add (spent_value (output i.previous_out_point db)) (our_inputs db is)

-- The values of the outputs that are stored.
abbrev pub our_outputs : Db → ℕ → ℕ → List TxOut → Int64
our_outputs db h k [] = 0
our_outputs db h k (o ∷ os) =
    add (value_if (output (record { hash = h; index = k }) db) o.value)
      (our_outputs db h (suc k) os)

our_inputs_small : (db : Db) (is : List TxIn) → our_inputs db is < modulus
unfolding add
our_inputs_small db [] = omega arith
our_inputs_small db (i ∷ is) = omega arith

note_input-sum :
    (m : Option TxOut) (p : Int64 × Bool)
    → p.0 < modulus
    → (note_input m p).0 ≡ add p.0 (spent_value m)
unfolding note_input add
note_input-sum none (s, b) h = omega arith
note_input-sum (some o) (s, b) h = refl

gather_inputs-sum :
    (db : Db) (is : List TxIn) (p : Int64 × Bool)
    → p.0 < modulus
    → (gather_inputs db is p).0 ≡ add p.0 (our_inputs db is)
unfolding gather_inputs add
gather_inputs-sum db [] p h = omega arith
gather_inputs-sum db (i ∷ is) p h =
    let m = output i.previous_out_point db in
    let step = note_input-sum m p h in
    let rest = gather_inputs-sum db is (note_input m p) (omega (arith, step)) in
    omega (arith, step, rest)

pub record IsSmall (g : Gathered) : Type 0 where
  pub all : g.sum_all < modulus
  pub received : g.sum_receive < modulus
  pub changed : g.sum_change < modulus

-- The two sums of ours, and the sum of all while all are ours.
module _ (is_change : List ℕ → Bool) (output_to_address : List ℕ → ℕ) where
  pub record Step (g r : Gathered) (ours : Int64) : Type 0 where
    pub sums : add r.sum_receive r.sum_change ≡ add (add g.sum_receive g.sum_change) ours
    pub all :
        r.all_outputs_ours ≡ true → (g.all_outputs_ours ≡ true) × (r.sum_all ≡ add g.sum_all ours)

  note_output-Step :
      (o : TxOut) (m : Option TxOut) (g : Gathered)
      → Step g (note_output is_change output_to_address o m g) (value_if m o.value)
  unfolding note_output add
  note_output-Step o none g = record { sums = omega arith; all = λ e. cc }
  note_output-Step o (some stored) g = elim (Bool-cases (is_change stored.pk_script)) [
    | inl c ↦ rw (c, note_output) (record { sums = omega arith; all = λ e. (e, refl) })
    | inr c ↦ rw (c, note_output) (record { sums = omega arith; all = λ e. (e, refl) })
  ]

  note_output-IsSmall :
      (o : TxOut) (m : Option TxOut) (g : Gathered)
      → IsSmall g
      → IsSmall (note_output is_change output_to_address o m g)
  unfolding note_output add
  note_output-IsSmall o none g s = record {
    all = omega arith;
    received = s.received;
    changed = s.changed;
  }
  note_output-IsSmall o (some stored) g s = elim (Bool-cases (is_change stored.pk_script)) [
    | inl c ↦
        rw (c, note_output)
          (record { all = omega arith; received = s.received; changed = omega arith })
    | inr c ↦
        rw (c, note_output)
          (record { all = omega arith; received = omega arith; changed = s.changed })
  ]

  gather_outputs-IsSmall :
      (db : Db) (h k : ℕ) (os : List TxOut) (g : Gathered)
      → IsSmall g
      → IsSmall (gather_outputs is_change output_to_address db h k os g)
  unfolding gather_outputs
  gather_outputs-IsSmall db h k [] g s = s
  gather_outputs-IsSmall db h k (o ∷ os) g s =
      gather_outputs-IsSmall db h (suc k) os _ (note_output-IsSmall o _ g s)

  gather_outputs-Step :
      (db : Db) (h k : ℕ) (os : List TxOut) (g : Gathered)
      → IsSmall g
      → Step g (gather_outputs is_change output_to_address db h k os g) (our_outputs db h k os)
  unfolding gather_outputs add
  gather_outputs-Step db h k [] g small = record { sums = omega arith; all = λ e. (e, omega arith) }
  gather_outputs-Step db h k (o ∷ os) g small =
      let m = output (record { hash = h; index = k }) db in
      let g' = note_output is_change output_to_address o m g in
      let step = note_output-Step o m g in
      let rest = gather_outputs-Step db h (suc k) os g' (note_output-IsSmall o m g small) in
      record {
        sums = omega (arith, step.sums, rest.sums);
        all = λ e.
            (let (still, sum) = rest.all e in
              let (before, sum') = step.all still in (before, omega (arith, sum, sum')));
      }

classify-change :
    (a : Int64) (all_ours : Bool) (g : Gathered)
    → IsSmall g
    → a < modulus
    → (g.all_outputs_ours ≡ true → g.sum_all ≡ add g.sum_receive g.sum_change)
    → shown_change (classify a all_ours g).0 (classify a all_ours g).1 (fee_of a all_ours g)
      ≡ sub (add g.sum_receive g.sum_change) a
unfolding classify fee_of add sub neg
classify-change a false g bounds small all =
    elim (Bool-cases (le 0 (sub (add g.sum_receive g.sum_change) a))) [
      | inl in' ↦ rw (in', classify) refl
      | inr out ↦ rw (out, classify) (omega (arith, bounds.received, bounds.changed))
    ]
classify-change a true g bounds small all = elim (Bool-cases g.all_outputs_ours) [
  | inl e ↦ rw (e, classify) (omega (arith, all e, bounds.all, bounds.received, bounds.changed))
  | inr e ↦ rw (e, classify) (omega (arith, bounds.all, bounds.received, bounds.changed))
]

fee_rate-ok :
    (vsize : ℕ) (fee : Option Int64)
    → 0 < vsize
    → (rate : Option Int64) × (fee_rate vsize fee ≡ ok rate)
unfolding fee_rate
fee_rate-ok vsize none h = (none, refl)
fee_rate-ok vsize (some n) h = (some (quot (mul n 1000) vsize), ground arith)

-- Where the virtual size is not zero, txInfo returns, and what it shows of a transaction, its type,
-- amount and fee, is what the transaction changes of the account, modulo 2 ^ 64: the values of its
-- stored outputs less those of the stored outputs that it spends.
pub transaction_data-change :
    (is_change : List ℕ → Bool) (output_to_address : List ℕ → ℕ) (virtual_size : MsgTx → ℕ)
    (db : Db) (tip_height : Int64) (tx_hash : ℕ) (info : DbTxInfo) (tx : MsgTx)
    → 0 < virtual_size tx
    → (d : TransactionData) × (transaction_data is_change output_to_address virtual_size db
          tip_height tx_hash info tx
        ≡ ok d)
      × (shown_change d.tx_type d.amount d.fee
          ≡ sub (our_outputs db tx_hash 0 tx.tx_out) (our_inputs db tx.tx_in))
unfolding transaction_data add sub
transaction_data-change ic oa vs db tip h info tx sized =
    let (a, all_ours) = gather_inputs db tx.tx_in (0, true) in
    let g = gather_outputs ic oa db h 0 tx.tx_out nothing_gathered in
    let (rate, e) = fee_rate-ok (vs tx) (fee_of a all_ours g) sized in
    let sum = gather_inputs-sum db tx.tx_in (0, true) (omega arith) in
    let zero_small : IsSmall nothing_gathered = record {
      all = omega arith;
      received = omega arith;
      changed = omega arith;
    } in
    let bounds = gather_outputs-IsSmall ic oa db h 0 tx.tx_out nothing_gathered zero_small in
    let step = gather_outputs-Step ic oa db h 0 tx.tx_out nothing_gathered zero_small in
    let shown =
      classify-change a all_ours g bounds (omega (arith, sum))
        (λ q. omega (arith, (step.all q).1, step.sums)) in
    let (tx_type, amount, addresses) = classify a all_ours g in
    let confirmations = num_confirmations tip info.height in
    let d : TransactionData = record {
      fee = fee_of a all_ours g;
      fee_rate_per_kb = rate;
      tx_type = tx_type;
      amount = amount;
      addresses = addresses;
      num_confirmations = confirmations;
      status = status_of confirmations;
      height = info.height;
    } in
    (d, rw e refl, shown ∙ omega (arith, sum, step.sums, our_inputs_small db tx.tx_in))
