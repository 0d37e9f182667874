-- ===== src/Transactions/Tests.antt =====
-- An index of three transactions and two addresses, and the theorems at it.
use bitbox_wallet_app.Prelude.{
  true, ℕ, ◌≡◌, refl, false, List, [], ◌∷◌, Option, none, some, arith, ◌==◌, if◌then◌else◌,
}
use bitbox_wallet_app.Prelude.Assoc.{find, put, delete}
use bitbox_wallet_app.Prelude.Int64.{sub, mul, quot, le, is_negative, neg, add, lt}
use bitbox_wallet_app.Prelude.Run.{Run, ok, panic, ◌>>=◌}
use bitbox_wallet_app.Maketx.Types.{OutPoint, TxOut, TxIn, MsgTx}
use bitbox_wallet_app.Transactions.Db.{
  Db, TxInfo, empty_db, same_out_point, tx_info, read_tx, new_wallet_transaction, read_or_create,
  modify_tx, put_tx, delete_tx, remove, add_address_to_tx, is_empty, remove_address_from_tx,
  transaction_hashes, unverified_transactions, mark_tx_verified, put_input, input, delete_input,
  put_output, output, delete_output, put_address_history, read_history, address_history,
}
use bitbox_wallet_app.Transactions.Index.{
  mem, has_duplicates, put_inputs, delete_inputs, delete_outputs, put_outputs,
  process_inputs_and_outputs_for_address, process_tx_for_address, remove_tx, remove_tx_for_address,
  remove_missing, get_transaction_cached, process_txs, update_address_history,
}
use bitbox_wallet_app.Transactions.Queries.{
  is_some, all_ours, all_inputs_ours, is_input_spent, is_available, spendable_among,
  spendable_outputs, balance_loop, balance,
}
use bitbox_wallet_app.Transactions.Details.{
  send, complete, TransactionData, note_input, gather_inputs, note_output, gather_outputs, classify,
  fee_of, fee_rate, num_confirmations, status_of, transaction_data,
}
use bitbox_wallet_app.Transactions.Shown.{
  shown_change, our_outputs, our_inputs, transaction_data-change,
}
use bitbox_wallet_app.Transactions.Indexed.{IsIndexed}
use bitbox_wallet_app.Transactions.Updates.{update_address_history-IsIndexed}
use bitbox_wallet_app.Transactions.Balance.{Sums, balance-Sums}

program : Unit {0}
unfolding find put delete neg add lt same_out_point tx_info read_tx new_wallet_transaction
    read_or_create modify_tx put_tx delete_tx remove add_address_to_tx is_empty
    remove_address_from_tx transaction_hashes unverified_transactions mark_tx_verified put_input
    input delete_input put_output output delete_output put_address_history read_history
    address_history mem has_duplicates put_inputs delete_inputs delete_outputs put_outputs
    process_inputs_and_outputs_for_address process_tx_for_address remove_tx remove_tx_for_address
    remove_missing get_transaction_cached process_txs update_address_history is_some all_ours
    all_inputs_ours is_input_spent is_available spendable_among spendable_outputs balance_loop
    balance note_input gather_inputs note_output gather_outputs classify fee_of fee_rate
    num_confirmations status_of transaction_data sub mul quot le is_negative
program = tt

-- A script is one number, which is its hash.
abbrev script_hash_of : List ℕ → ℕ
script_hash_of [] = 0
script_hash_of (a ∷ as') = a

abbrev out_of : ℕ → ℕ → TxOut
out_of amount address = record { value = amount; pk_script = address ∷ [] }

abbrev tx_of : List OutPoint → List TxOut → MsgTx
tx_of points outs = record { version = 1; tx_in = ins points; tx_out = outs; lock_time = 0 }
  where
    ins : List OutPoint → List TxIn
    ins [] = []
    ins (p ∷ ps) = record { previous_out_point = p; sequence = 0 } ∷ ins ps

abbrev point : ℕ → ℕ → OutPoint
point h i = record { hash = h; index = i }

-- 100 pays address 1; 101 spends that to address 2 and to a stranger; 102 pays address 2;
-- 103 replaces 101 and pays a stranger.
abbrev transaction_get : ℕ → Option MsgTx
transaction_get h =
    if h == 100
    then some (tx_of (point 5 0 ∷ []) (out_of 70 9 ∷ out_of 1000 1 ∷ []))
    else (if h == 101
        then some (tx_of (point 100 1 ∷ []) (out_of 600 2 ∷ out_of 390 9 ∷ []))
        else (if h == 102
            then some (tx_of (point 6 3 ∷ []) (out_of 50 2 ∷ []))
            else (if h == 103 then some (tx_of (point 100 1 ∷ []) (out_of 950 9 ∷ [])) else none)))

abbrev entry : ℕ → ℕ → TxInfo
entry h height = record { tx_hash = h; height = height }

abbrev update : ℕ → List TxInfo → Db → Run ⊥ Db
update = update_address_history 1 script_hash_of transaction_get false

abbrev updates : Run ⊥ Db
updates = do
  db ← update 1 (entry 100 5 ∷ entry 101 0 ∷ []) empty_db
  update 2 (entry 101 0 ∷ entry 102 0 ∷ []) db

-- The change of 101 is ours at once; what 102 pays is incoming.
balance_run : (updates >>= balance) ≡ ok (600, 50)
unfolding program
balance_run = refl

spendable_run : (updates >>= spendable_outputs) ≡ ok ((point 101 0, out_of 600 2) ∷ [])
unfolding program
spendable_run = refl

-- 101 is dropped from the history of both addresses: the first output is unspent again.
dropped_run :
    (do
      db ← updates
      db' ← update 1 (entry 100 5 ∷ []) db
      db'' ← update 2 (entry 102 0 ∷ []) db'
      balance db'')
    ≡ ok (1000, 50)
unfolding program
dropped_run = refl

-- 103 takes the place of 101 in the history of address 1, and then the history of address 2 is emptied.
-- Removing 101 deletes the input that 103 has overwritten, so the output that 103 spends counts again.
replaced_run :
    (do
      db ← update 1 (entry 100 5 ∷ entry 101 0 ∷ []) empty_db
      db' ← update 2 (entry 101 0 ∷ []) db
      db'' ← update 1 (entry 100 5 ∷ entry 103 6 ∷ []) db'
      db3 ← update 2 [] db''
      balance db3)
    ≡ ok (1000, 0)
unfolding program
replaced_run = refl

-- In the other order the output stays spent.
replaced_in_order_run :
    (do
      db ← update 1 (entry 100 5 ∷ entry 101 0 ∷ []) empty_db
      db' ← update 2 (entry 101 0 ∷ []) db
      db'' ← update 2 [] db'
      db3 ← update 1 (entry 100 5 ∷ entry 103 6 ∷ []) db''
      balance db3)
    ≡ ok (0, 0)
unfolding program
replaced_in_order_run = refl

duplicates_run : update 1 (entry 100 5 ∷ entry 100 5 ∷ []) empty_db ≡ panic
unfolding program
duplicates_run = refl

verified_run :
    (updates >>= λ db. ok (unverified_transactions (mark_tx_verified 1 100 77 db)))
    ≡ ok (101 ∷ 102 ∷ [])
unfolding program
verified_run = refl

empty_db-IsIndexed : IsIndexed empty_db
unfolding output find
empty_db-IsIndexed o v e = cc

abbrev db_of : Run ⊥ Db → Db
db_of (ok db) = db
db_of other = empty_db

abbrev first_db : Db
first_db = db_of (update 1 (entry 100 5 ∷ entry 101 0 ∷ []) empty_db)

update_address_history-IsIndexed_example : IsIndexed first_db
unfolding program
update_address_history-IsIndexed_example =
    update_address_history-IsIndexed 1 script_hash_of transaction_get false 1
      (entry 100 5 ∷ entry 101 0 ∷ []) empty_db first_db refl empty_db-IsIndexed

first_db-IsIndexed : IsIndexed first_db
unfolding program
first_db-IsIndexed =
    update_address_history-IsIndexed 1 script_hash_of transaction_get false 1
      (entry 100 5 ∷ entry 101 0 ∷ []) empty_db first_db refl empty_db-IsIndexed

abbrev spending : MsgTx
spending = tx_of (point 100 1 ∷ []) (out_of 600 1 ∷ out_of 390 9 ∷ [])

-- 101 spends the first output of 1000, gets 600 back as change, and pays 390 with a fee of 10.
transaction_data_run :
    transaction_data
      (λ s. true)
      script_hash_of
      (λ t. 141)
      (put_output (point 101 0) (out_of 600 1) first_db)
      10
      101
      (record new_wallet_transaction { height = 5 })
      spending
    ≡ ok (record {
      fee = some 10;
      fee_rate_per_kb = some 70;
      tx_type = send;
      amount = 390;
      addresses = record { address = 9; amount = 390; ours = false } ∷ [];
      num_confirmations = 6;
      status = complete;
      height = 5;
    })
unfolding program
transaction_data_run = refl

transaction_data-change_example :
    (d : TransactionData) × (transaction_data
        (λ s. true)
        script_hash_of
        (λ t. 141)
        first_db
        10
        101
        (record new_wallet_transaction { height = 5 })
        spending
      ≡ ok d)
    × (shown_change d.tx_type d.amount d.fee
        ≡ sub (our_outputs first_db 101 0 spending.tx_out) (our_inputs first_db spending.tx_in))
transaction_data-change_example =
    transaction_data-change (λ s. true) script_hash_of (λ t. 141) first_db 10 101
      (record new_wallet_transaction { height = 5 }) spending (omega arith)

balance-Sums_example : Sums first_db
unfolding program
balance-Sums_example = balance-Sums first_db first_db-IsIndexed (omega arith)
