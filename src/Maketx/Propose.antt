-- ===== src/Maketx/Propose.antt =====
-- backend/coins/btc/maketx/maketx.go: NewTx and NewTxSpendAll.
-- math/rand's Shuffle, seeded from crypto/rand, is a pair of parameters; the theorems assume that it
-- permutes. The log lines are left out.
pub mod Step
pub mod Ends
pub mod Sums
pub mod Rounds
pub mod Balance
pub mod SpendAll
use bitbox_wallet_app.Prelude.{
  ℕ, zero, suc, ◌+◌, ◌-◌, Bool, true, false, not, List, [], ◌∷◌, none, some, map, length,
  if◌then◌else◌, ◌==◌, ◌&&◌,
}
use bitbox_wallet_app.Prelude.Int64.{Int64, add, sub, lt, le}
use bitbox_wallet_app.Prelude.Run.{Run, ok, err, panic, out_of_fuel, ◌>>=◌}
use bitbox_wallet_app.Maketx.Types.{
  ScriptType, TxOut, Coin, TxIn, AccountAddress, MsgTx, CoinCode, btc, tbtc, rbtc, ltc, tltc,
  PreviousOutput, TxProposal, Error, insufficient_funds,
}
use bitbox_wallet_app.Maketx.Size.{estimate_tx_size}
use bitbox_wallet_app.Maketx.Fee.{fee_for_serialize_size, is_dust_amount}
use bitbox_wallet_app.Maketx.Selection.{value, coin_selection}

-- What the code takes from other packages and from the random source.
pub record Env : Type 0 where
  pub var_int_size : ℕ → ℕ
  pub hash_string : List ℕ → List ℕ
  pub shuffle_in : List TxIn → List TxIn
  pub shuffle_out : List TxOut → List TxOut

-- wire.MaxTxInSequenceNum and wire.TxVersion.
abbrev pub max_tx_in_sequence_num : ℕ
max_tx_in_sequence_num = 0xffffffff

abbrev pub tx_version : ℕ
tx_version = 1

unfoldable pub to_input_configurations : List Coin → List ScriptType
to_input_configurations = map (λ c. c.utxo.configuration)

-- wire.NewTxIn with no scripts.
unfoldable pub new_tx_in : Coin → TxIn
new_tx_in c = record { previous_out_point = c.out_point; sequence = max_tx_in_sequence_num }

unfoldable pub previous_output : Coin → PreviousOutput
previous_output c = record { out_point = c.out_point; tx_out = c.utxo.tx_out }

unfoldable pub enables_rbf : CoinCode → Bool
enables_rbf btc = true
enables_rbf tbtc = true
enables_rbf rbtc = true
enables_rbf ltc = false
enables_rbf tltc = false

unfoldable pub set_rbf : CoinCode → MsgTx → MsgTx
unfolding enables_rbf
set_rbf coin tx = record tx {
  tx_in =
      map (λ i. if enables_rbf coin then record i { sequence = max_tx_in_sequence_num - 2 } else i)
        tx.tx_in;
}

unfoldable pub total_amount : TxProposal → Int64
total_amount p = add p.amount p.fee

-- The sum of the loop of NewTxSpendAll.
unfoldable pub sum_values : List Coin → Int64 → Int64
sum_values [] sum = sum
sum_values (c ∷ cs) sum = sum_values cs (add sum (value c))

-- One round of the loop of NewTx: a new target fee (`continue`), or the proposal.
pub data Round : Type 0 where
  retry : Int64 → Round
  done : TxProposal → Round

-- `continue`, or the return of a round.
unfoldable pub conclude : (Int64 → Run Error TxProposal) → Run Error Round → Run Error TxProposal
conclude next (ok (retry fee)) = next fee
conclude next (ok (done p)) = ok p
conclude next (err e) = err e
conclude next panic = panic
conclude next out_of_fuel = out_of_fuel

module _ (env : Env) where
  unfoldable pub shuffle_tx_inputs_and_outputs : MsgTx → MsgTx
  shuffle_tx_inputs_and_outputs tx = record tx {
    tx_in = env.shuffle_in tx.tx_in;
    tx_out = env.shuffle_out tx.tx_out;
  }

  module _ (coin : CoinCode) (rate : Int64) where
    unfoldable pub new_tx_spend_all : List Coin → List ℕ → Run Error TxProposal
    new_tx_spend_all spendable pk_script = do
      let sum = sum_values spendable 0
      tx_size ←
          estimate_tx_size env.var_int_size (to_input_configurations spendable) (length pk_script) 0
      let fee = fee_for_serialize_size rate tx_size
      if lt sum fee
          then err insufficient_funds
          else ok (record {
            coin = coin;
            amount = sub sum fee;
            fee = fee;
            transaction = set_rbf coin (
                shuffle_tx_inputs_and_outputs (record {
                  version = tx_version;
                  tx_in = map new_tx_in spendable;
                  tx_out = record { value = sub sum fee; pk_script = pk_script } ∷ [];
                  lock_time = 0;
                }));
            change_address = none;
            previous_outputs = map previous_output spendable;
          })

    module _ (spendable : List Coin) (output : TxOut) (change : AccountAddress) where
      abbrev pub change_amount : Int64 → Int64 → Int64
      change_amount sum max_required_fee = sub (sub sum output.value) max_required_fee

      unfoldable pub has_change : Int64 → Int64 → Bool → Bool
      has_change sum max_required_fee change_is_dust =
          not (change_amount sum max_required_fee == 0) && not change_is_dust

      -- The proposal, where the selected coins pay the target and the fee.
      unfoldable pub propose : Int64 → List Coin → Int64 → Bool → TxProposal
      unfolding has_change
      propose sum selected max_required_fee change_is_dust =
          let changed = has_change sum max_required_fee change_is_dust in
          record {
            coin = coin;
            amount = output.value;
            fee = if change_is_dust then sub sum output.value else max_required_fee;
            transaction = set_rbf coin (
                shuffle_tx_inputs_and_outputs (record {
                  version = tx_version;
                  tx_in = map new_tx_in selected;
                  tx_out =
                      if changed
                      then output
                        ∷ record {
                          value = change_amount sum max_required_fee;
                          pk_script = change.pubkey_script;
                        }
                        ∷ []
                      else output ∷ [];
                  lock_time = 0;
                }));
            change_address = if changed then some change else none;
            previous_outputs = map previous_output selected;
          }

      unfoldable pub finish : Int64 → List Coin → Int64 → Run Error TxProposal
      finish sum selected max_required_fee = do
        change_is_dust ←
            is_dust_amount env.var_int_size (change_amount sum max_required_fee)
              (length change.pubkey_script) change.configuration rate
        ok (propose sum selected max_required_fee change_is_dust)

      -- A round after the selection and the estimate of the size.
      unfoldable pub settle : Int64 → List Coin → ℕ → Run Error Round
      settle sum selected tx_size =
          let max_required_fee = fee_for_serialize_size rate tx_size in
          if lt (sub sum output.value) max_required_fee
          then ok (retry max_required_fee)
          else (finish sum selected max_required_fee >>= λ p. ok (done p))

      unfoldable pub round : Int64 → Run Error Round
      round target_fee = do
        (sum, selected) ← coin_selection env.hash_string (add output.value target_fee) spendable
        tx_size ←
            estimate_tx_size env.var_int_size (to_input_configurations selected)
              (length output.pk_script) (length change.pubkey_script)
        settle sum selected tx_size

      unfoldable pub new_tx_loop : ℕ → Int64 → Run Error TxProposal
      unfolding conclude
      new_tx_loop zero target_fee = out_of_fuel
      new_tx_loop (suc fuel) target_fee = conclude (new_tx_loop fuel) (round target_fee)

      -- The loop takes at most one round more than there are coins, and a last one.
      unfoldable pub new_tx : Run Error TxProposal
      new_tx = if le output.value 0 then panic else new_tx_loop (length spendable + 2) 0
