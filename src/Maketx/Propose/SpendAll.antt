-- ===== src/Maketx/Propose/SpendAll.antt =====
-- What NewTxSpendAll returns.
use bitbox_wallet_app.Prelude.{
  ℕ, ◌+◌, ◌≤◌, ◌<◌, ◌≡◌, refl, ◌∙◌, List, [], ◌∷◌, arith, length, ltb, Bool-cases, inl, inr, ◌⊎◌,
  none, map,
}
use native.Mathlib.Nat.{zero-add}
use mathlib.Core.List.Perm
use mathlib.Core.List.{Perm}
use bitbox_wallet_app.Prelude.Int64.{Int64, modulus, sub, add-eq, sub-eq, lt-eq}
use bitbox_wallet_app.Prelude.Run.{ok, err}
use bitbox_wallet_app.Maketx.Types.{TxIn, TxOut, Coin, CoinCode, TxProposal, insufficient_funds}
use bitbox_wallet_app.Maketx.Size.{estimate_tx_size}
use bitbox_wallet_app.Maketx.Size.Bounds.{estimate_tx_size_lem}
use bitbox_wallet_app.Maketx.Fee.{fee_for_serialize_size}
use bitbox_wallet_app.Maketx.Fee.Range.{fee_le_max}
use bitbox_wallet_app.Maketx.Selection.{value}
use bitbox_wallet_app.Maketx.Selection.Total.{total}
use bitbox_wallet_app.Maketx.Propose.{
  Env, to_input_configurations, new_tx_in, tx_version, previous_output, sum_values,
  new_tx_spend_all, set_rbf, shuffle_tx_inputs_and_outputs,
}
use bitbox_wallet_app.Maketx.Propose.Step.{max_total}
use bitbox_wallet_app.Maketx.Propose.Ends.{AllKnown, map-AllKnown}
use bitbox_wallet_app.Maketx.Propose.Sums.{
  spent, paid_out, spent-map, set_rbf-inputs, map-new_tx_in, paid_out-perm,
}

sum_values-eq :
    (cs : List Coin) (sum : ℕ) → sum + total cs < modulus → sum_values cs sum ≡ sum + total cs
unfolding sum_values
sum_values-eq [] sum h = omega arith
sum_values-eq (c ∷ cs) sum h =
    rw (add-eq sum (value c) (omega arith))
      (sum_values-eq cs (sum + value c) (omega arith) ∙ omega arith)

-- What the proposal spends and pays, for a size of the transaction.
pub record SpendsAll (rate : Int64) (spendable : List Coin) (pk_script : List ℕ) (size : ℕ)
    (p : TxProposal) : Type 0 where
  pub inputs : p.previous_outputs ≡ map previous_output spendable
  pub in_perm :
      Perm (map (λ i. i.previous_out_point) p.transaction.tx_in) (map (λ c. c.out_point) spendable)
  pub fee : p.fee ≡ fee_for_serialize_size rate size
  pub balanced : spent p.previous_outputs ≡ paid_out p.transaction.tx_out + p.fee
  pub amount : p.amount + p.fee ≡ total spendable
  pub output : Perm p.transaction.tx_out (record { value = p.amount; pk_script = pk_script } ∷ [])

module _ (env : Env) (coin : CoinCode) (rate : Int64) (spendable : List Coin) (pk_script : List ℕ)
    (rate_fits : rate < modulus) (total_fits : total spendable ≤ max_total)
    (known : AllKnown spendable) (shuffles_in : (l : List TxIn) → Perm (env.shuffle_in l) l)
    (shuffles_out : (l : List TxOut) → Perm (env.shuffle_out l) l) where
  -- The proposal, for a sum and a fee.
  made : Int64 → Int64 → TxProposal
  made sum fee = record {
    coin = coin;
    amount = sub sum fee;
    fee = fee;
    transaction = set_rbf coin (
        shuffle_tx_inputs_and_outputs env (record {
          version = tx_version;
          tx_in = map new_tx_in spendable;
          tx_out = record { value = sub sum fee; pk_script = pk_script } ∷ [];
          lock_time = 0;
        }));
    change_address = none;
    previous_outputs = map previous_output spendable;
  }

  made-SpendsAll :
      (size : ℕ)
      → fee_for_serialize_size rate size ≤ total spendable
      → SpendsAll rate spendable pk_script size
          (made (total spendable) (fee_for_serialize_size rate size))
  unfolding made set_rbf shuffle_tx_inputs_and_outputs
  made-SpendsAll size h =
      let fee = fee_for_serialize_size rate size in
      let rest = sub-eq (total spendable) fee h (omega arith) in
      let out : TxOut = record { value = sub (total spendable) fee; pk_script = pk_script } in
      record {
        inputs = refl;
        in_perm =
            rw (set_rbf-inputs, ← map-new_tx_in)
              (Perm.map (λ i. i.previous_out_point) (shuffles_in (map new_tx_in spendable)));
        fee = refl;
        balanced = omega (arith, spent-map spendable, paid_out-perm (shuffles_out (out ∷ [])));
        amount = omega arith;
        output = shuffles_out (out ∷ []);
      }

  -- With script types that the size estimate knows, NewTxSpendAll reports insufficient funds exactly
  -- if the coins together pay less than the fee for the estimated size. Otherwise it returns a
  -- proposal whose inputs are the out points of all coins, whose single output and fee together are what it spends. Assumed
  -- are a sum of at most 4e18 satoshi and that the shuffles permute.
  pub new_tx_spend_all_cases :
      (size : ℕ) × (estimate_tx_size env.var_int_size
          (to_input_configurations spendable)
          (length pk_script)
          0
        ≡ ok size)
      × ((total spendable < fee_for_serialize_size rate size)
            × (new_tx_spend_all env coin rate spendable pk_script ≡ err insufficient_funds)
          ⊎ (fee_for_serialize_size rate size ≤ total spendable)
            × ((p : TxProposal) × (new_tx_spend_all env coin rate spendable pk_script ≡ ok p)
                × SpendsAll rate spendable pk_script size p))
  unfolding new_tx_spend_all made
  new_tx_spend_all_cases =
      let (size, estimated, _, _) =
        estimate_tx_size_lem env.var_int_size (to_input_configurations spendable) (length pk_script)
          0 (map-AllKnown spendable known) in
      let fee = fee_for_serialize_size rate size in
      let fee_small = fee_le_max rate size rate_fits in
      let sum = sum_values-eq spendable 0 (omega arith) ∙ zero-add (total spendable) in
      let order = lt-eq (total spendable) fee (omega arith) (omega arith) in
      (
        size,
        estimated,
        elim (Bool-cases (ltb (total spendable) fee)) [
          | inl h ↦ inl (ground arith, rw (estimated, sum, order, h) refl)
          | inr h ↦
              let enough : fee ≤ total spendable = ground arith in
              inr (
                enough,
                (
                  made (total spendable) fee,
                  rw (estimated, sum, order, h) refl,
                  made-SpendsAll size enough,
                ),
              )
        ],
      )
