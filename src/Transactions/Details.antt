-- ===== src/Transactions/Details.antt =====
-- backend/coins/btc/transactions/transactions.go: txInfo, what the app shows of a transaction.
-- Whether a script hash is a change address, the address of a script, and a transaction's virtual size
-- are parameters; the size and the weight, which are passed on as other packages compute them, and
-- the timestamps are left out. Sums are int64; a division by a virtual size of zero panics.
use bitbox_wallet_app.Prelude.{
  ℕ, suc, Bool, true, false, List, [], ◌∷◌, ◌++◌, Option, none, some, ◌==◌, ◌&&◌, if◌then◌else◌,
}
use bitbox_wallet_app.Prelude.Int64.{Int64, add, sub, neg, mul, quot, lt, le}
use bitbox_wallet_app.Prelude.Run.{Run, ok, panic, ◌>>=◌}
use bitbox_wallet_app.Maketx.Types.{TxOut, TxIn, MsgTx}
use bitbox_wallet_app.Transactions.Db.{Db, DbTxInfo, output}

pub data TxType : Type 0 where
  receive send send_self : TxType

pub data TxStatus : Type 0 where
  pending complete failed : TxStatus

pub record AddressAndAmount : Type 0 where
  pub address : ℕ
  pub amount : Int64
  pub ours : Bool

-- What the loop over the outputs has gathered so far.
pub record Gathered : Type 0 where
  pub sum_all : Int64
  pub sum_receive : Int64
  pub sum_change : Int64
  pub receive_addresses : List AddressAndAmount
  pub send_addresses : List AddressAndAmount
  pub all_outputs_ours : Bool

-- Of accounts.TransactionData what txInfo computes.
pub record TransactionData : Type 0 where
  pub fee : Option Int64
  pub fee_rate_per_kb : Option Int64
  pub tx_type : TxType
  pub amount : Int64
  pub addresses : List AddressAndAmount
  pub num_confirmations : Int64
  pub status : TxStatus
  pub height : Int64

-- The sum of our inputs, and whether all are ours.
unfoldable pub note_input : Option TxOut → Int64 × Bool → Int64 × Bool
note_input none (sum, all_inputs_ours) = (sum, false)
note_input (some spent) (sum, all_inputs_ours) = (add sum spent.value, all_inputs_ours)

unfoldable pub gather_inputs : Db → List TxIn → Int64 × Bool → Int64 × Bool
unfolding note_input
gather_inputs db [] sums = sums
gather_inputs db (i ∷ is) sums =
    gather_inputs db is (note_input (output i.previous_out_point db) sums)

abbrev pub nothing_gathered : Gathered
nothing_gathered = record {
  sum_all = 0;
  sum_receive = 0;
  sum_change = 0;
  receive_addresses = [];
  send_addresses = [];
  all_outputs_ours = true;
}

module _ (is_change : List ℕ → Bool) (output_to_address : List ℕ → ℕ) where
  abbrev pub shown : TxOut → Bool → AddressAndAmount
  shown tx_out ours = record {
    address = output_to_address tx_out.pk_script;
    amount = tx_out.value;
    ours = ours;
  }

  -- `is_change` takes the script, of which the code takes the hash.
  unfoldable pub note_output : TxOut → Option TxOut → Gathered → Gathered
  note_output tx_out none g = record g {
    sum_all = add g.sum_all tx_out.value;
    all_outputs_ours = false;
    send_addresses = g.send_addresses ++ shown tx_out false ∷ [];
  }
  note_output tx_out (some stored) g =
      if is_change stored.pk_script
      then record g {
        sum_all = add g.sum_all tx_out.value;
        receive_addresses = g.receive_addresses ++ shown tx_out true ∷ [];
        sum_change = add g.sum_change tx_out.value;
      }
      else record g {
        sum_all = add g.sum_all tx_out.value;
        receive_addresses = g.receive_addresses ++ shown tx_out true ∷ [];
        sum_receive = add g.sum_receive tx_out.value;
        send_addresses = g.send_addresses ++ shown tx_out true ∷ [];
      }

  unfoldable pub gather_outputs : Db → ℕ → ℕ → List TxOut → Gathered → Gathered
  unfolding note_output
  gather_outputs db tx_hash index [] g = g
  gather_outputs db tx_hash index (o ∷ os) g =
      gather_outputs db tx_hash (suc index) os
        (note_output o (output (record { hash = tx_hash; index = index }) db) g)

-- The type, the amount and the addresses. The sum of our inputs comes first.
unfoldable pub classify : Int64 → Bool → Gathered → TxType × Int64 × List AddressAndAmount
classify sum_our_inputs all_inputs_ours g =
    let change = sub (add g.sum_receive g.sum_change) sum_our_inputs in
    if all_inputs_ours
    then (if g.all_outputs_ours
        then (send_self, g.sum_receive, g.send_addresses)
        else (send, sub (sub g.sum_all g.sum_receive) g.sum_change, g.send_addresses))
    else (if le 0 change
        then (receive, change, g.receive_addresses)
        else (send, neg change, g.send_addresses))

unfoldable pub fee_of : Int64 → Bool → Gathered → Option Int64
fee_of sum_our_inputs all_inputs_ours g =
    if all_inputs_ours then some (sub sum_our_inputs g.sum_all) else none

unfoldable pub fee_rate : ℕ → Option Int64 → Run ⊥ (Option Int64)
fee_rate vsize none = ok none
fee_rate vsize (some fee) = if vsize == 0 then panic else ok (some (quot (mul fee 1000) vsize))

unfoldable pub num_confirmations : Int64 → Int64 → Int64
num_confirmations tip_height height =
    if lt 0 height && lt 0 tip_height then add (sub tip_height height) 1 else 0

unfoldable pub status_of : Int64 → TxStatus
status_of confirmations = if le 6 confirmations then complete else pending

module _ (is_change : List ℕ → Bool) (output_to_address : List ℕ → ℕ)
    (virtual_size : MsgTx → ℕ) where
  unfoldable pub transaction_data : Db → Int64 → ℕ → DbTxInfo → MsgTx → Run ⊥ TransactionData
  unfolding classify fee_of num_confirmations status_of
  transaction_data db tip_height tx_hash info tx =
      let (sum_our_inputs, all_inputs_ours) = gather_inputs db tx.tx_in (0, true) in
      let g = gather_outputs is_change output_to_address db tx_hash 0 tx.tx_out nothing_gathered in
      let (tx_type, amount, addresses) = classify sum_our_inputs all_inputs_ours g in
      let fee = fee_of sum_our_inputs all_inputs_ours g in
      let confirmations = num_confirmations tip_height info.height in
      (fee_rate (virtual_size tx) fee >>= λ rate. ok (record {
        fee = fee;
        fee_rate_per_kb = rate;
        tx_type = tx_type;
        amount = amount;
        addresses = addresses;
        num_confirmations = confirmations;
        status = status_of confirmations;
        height = info.height;
      }))
