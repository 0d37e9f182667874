-- ===== src/Transactions/Queries.antt =====
-- backend/coins/btc/transactions/transactions.go: Balance and SpendableOutputs.
-- The map of the outputs is the list of its entries. A nil transaction that is read panics.
use bitbox_wallet_app.Prelude.{Bool, true, false, List, [], ◌∷◌, Option, none, some, if◌then◌else◌}
use bitbox_wallet_app.Prelude.Int64.{Int64, add, lt}
use bitbox_wallet_app.Prelude.Run.{Run, ok, panic, ◌>>=◌}
use bitbox_wallet_app.Maketx.Types.{OutPoint, TxOut, TxIn, MsgTx}
use bitbox_wallet_app.Transactions.Db.{Db, tx_info, input, output}

unfoldable pub is_some {ℓ} : {A : Type ℓ} → Option A → Bool
is_some none = false
is_some (some a) = true

unfoldable pub all_ours : Db → List TxIn → Bool
unfolding is_some
all_ours db [] = true
all_ours db (i ∷ is) =
    let rest = all_ours db is in if is_some (output i.previous_out_point db) then rest else false

unfoldable pub all_inputs_ours : Db → Option MsgTx → Run ⊥ Bool
all_inputs_ours db none = panic
all_inputs_ours db (some tx) = ok (all_ours db tx.tx_in)

unfoldable pub is_input_spent : Db → OutPoint → Bool
unfolding is_some
is_input_spent db out_point = is_some (input out_point db)

-- confirmed || allInputsOurs, which is asked only of an unconfirmed transaction.
unfoldable pub is_available : Db → OutPoint → Run ⊥ Bool
is_available db out_point =
    let info = tx_info out_point.hash db in
    if lt 0 info.height then ok true else all_inputs_ours db info.tx

unfoldable pub spendable_among : Db → List (OutPoint × TxOut) → Run ⊥ (List (OutPoint × TxOut))
spendable_among db [] = ok []
spendable_among db (o ∷ os) =
    let rest = spendable_among db os in
    if is_input_spent db o.0 then rest else (do
      available ← is_available db o.0
      others ← rest
      ok (if available then o ∷ others else others))

unfoldable pub spendable_outputs : Db → Run ⊥ (List (OutPoint × TxOut))
spendable_outputs db = spendable_among db db.outputs

-- The loop of Balance, with the two sums so far.
unfoldable pub balance_loop : Db → List (OutPoint × TxOut) → Int64 → Int64 → Run ⊥ (Int64 × Int64)
balance_loop db [] available incoming = ok (available, incoming)
balance_loop db (o ∷ os) available incoming =
    if is_input_spent db o.0
    then balance_loop db os available incoming
    else (is_available db o.0 >>= λ is_ours.
        if is_ours
        then balance_loop db os (add available (o.1).value) incoming
        else balance_loop db os available (add incoming (o.1).value))

unfoldable pub balance : Db → Run ⊥ (Int64 × Int64)
balance db = balance_loop db db.outputs 0 0
