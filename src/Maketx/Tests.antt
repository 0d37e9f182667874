-- ===== src/Maketx/Tests.antt =====
-- The transaction builder on small wallets, and its theorems at them.
use bitbox_wallet_app.Prelude.{
  select, ℕ, ◌*◌, ◌+◌, ◌≤◌, ◌<◌, ◌≡◌, refl, List, [], ◌∷◌, arith, length, ltb, if◌then◌else◌, some,
  ◌⊎◌, take,
}
use mathlib.Core.List.{reverse, reverse_perm}
use bitbox_wallet_app.Prelude.Int64.{half, add, sub, mul, quot, neg, lt, le, is_negative}
use bitbox_wallet_app.Prelude.Run.{ok, err, panic}
use bitbox_wallet_app.Maketx.Types.{
  p2pkh, p2wpkh, p2tr, unknown, ScriptType, TxOut, Coin, AccountAddress, btc, TxProposal,
  insufficient_funds,
}
use bitbox_wallet_app.Maketx.Size.{
  estimate_tx_size, is_segwit, add_inputs, sig_script_witness_size, witness_v0_size, base_weight,
  calc_input_size, output_size, round_up,
}
use bitbox_wallet_app.Maketx.Size.Bounds.{tx_weight, estimate_tx_size_lem}
use bitbox_wallet_app.Maketx.Fee.{raw_fee, max_satoshi, fee_for_serialize_size, is_dust_amount}
use bitbox_wallet_app.Maketx.Fee.Range.{fee_in_range}
use bitbox_wallet_app.Maketx.Selection.{
  coin_selection, select_loop, sort_reverse, insert, less, str_less,
}
use bitbox_wallet_app.Maketx.Selection.Enough.{
  IsPrefix, coin_selection_cases, coin_selection_optimal,
}
use bitbox_wallet_app.Maketx.Selection.Total.{total}
use bitbox_wallet_app.Maketx.Selection.{value}
use bitbox_wallet_app.Maketx.Propose.{
  new_tx_loop, round, settle, conclude, finish, propose, has_change, set_rbf, enables_rbf,
  shuffle_tx_inputs_and_outputs, new_tx_in, previous_output, to_input_configurations, sum_values,
  Env, new_tx, new_tx_spend_all,
}
use bitbox_wallet_app.Maketx.Propose.Ends.{Ends, new_tx-Ends}
use bitbox_wallet_app.Maketx.Propose.Balance.{IsProposal, new_tx-IsProposal}
use bitbox_wallet_app.Maketx.Propose.SpendAll.{SpendsAll, new_tx_spend_all_cases}

abbrev var_int_size : ℕ → ℕ
var_int_size n = if ltb n 253 then 1 else 3

abbrev env : Env
env = record {
  var_int_size = var_int_size;
  hash_string = λ s. s;
  shuffle_in = reverse;
  shuffle_out = reverse;
}

abbrev coin_of : ℕ → ℕ → ScriptType → Coin
coin_of id amount script_type = record {
  out_point = record { hash = id; index = 0 };
  utxo = record {
    tx_out = record { value = amount; pk_script = id ∷ [] };
    configuration = script_type;
  };
}

abbrev wallet : List Coin
wallet = coin_of 1 3000 p2wpkh ∷ coin_of 2 90000 p2tr ∷ coin_of 3 20000 p2pkh ∷ []

abbrev target : TxOut
target = record { value = 95000; pk_script = 7 ∷ 7 ∷ 7 ∷ [] }

abbrev change : AccountAddress
change = record { pubkey_script = 8 ∷ 8 ∷ []; configuration = p2wpkh }

abbrev proposal : TxProposal
proposal = record {
  coin = btc;
  amount = 95000;
  fee = 240;
  transaction = record {
    version = 1;
    tx_in =
        record { previous_out_point = record { hash = 3; index = 0 }; sequence = 0xfffffffd }
        ∷ record { previous_out_point = record { hash = 2; index = 0 }; sequence = 0xfffffffd }
        ∷ [];
    tx_out = record { value = 14760; pk_script = 8 ∷ 8 ∷ [] } ∷ target ∷ [];
    lock_time = 0;
  };
  change_address = some change;
  previous_outputs =
      record {
        out_point = record { hash = 2; index = 0 };
        tx_out = record { value = 90000; pk_script = 2 ∷ [] };
      }
      ∷ record {
        out_point = record { hash = 3; index = 0 };
        tx_out = record { value = 20000; pk_script = 3 ∷ [] };
      }
      ∷ [];
}

-- Everything that a run of the builder computes with.
program : Unit {0}
unfolding new_tx new_tx_loop round settle conclude finish propose has_change set_rbf enables_rbf
    shuffle_tx_inputs_and_outputs new_tx_in previous_output to_input_configurations new_tx_spend_all
    sum_values coin_selection select_loop sort_reverse insert less str_less estimate_tx_size
    is_segwit add_inputs sig_script_witness_size witness_v0_size base_weight calc_input_size
    output_size round_up fee_for_serialize_size raw_fee is_dust_amount add sub mul quot neg lt le
    is_negative
program = tt

size_of_three : estimate_tx_size var_int_size (p2wpkh ∷ p2tr ∷ p2pkh ∷ []) 22 0 ≡ ok 316
unfolding program
size_of_three = refl

size_of_unknown : estimate_tx_size var_int_size (p2wpkh ∷ unknown ∷ []) 22 0 ≡ panic
unfolding program
size_of_unknown = refl

new_tx-wallet : new_tx env btc 1000 wallet target change ≡ ok proposal
unfolding program
new_tx-wallet = refl

new_tx-poor : new_tx env btc 100000 wallet target change ≡ err insufficient_funds
unfolding program
new_tx-poor = refl

new_tx-zero : new_tx env btc 1000 wallet (record target { value = 0 }) change ≡ panic
unfolding program
new_tx-zero = refl

fee_in_range_example :
    (fee_for_serialize_size 1000 250 ≤ max_satoshi)
    × ((0 < fee_for_serialize_size 1000 250) ⊎ (◌≡◌ {A = ℕ} 1000 0) ⊎ (half ≤ 1000))
fee_in_range_example = fee_in_range 1000 250 (omega arith)

estimate_tx_size_lem_example :
    (size : ℕ) × (estimate_tx_size var_int_size (p2wpkh ∷ p2pkh ∷ []) 22 0 ≡ ok size)
    × (tx_weight var_int_size (p2wpkh ∷ p2pkh ∷ []) 22 0 ≤ 4 * size)
    × (4 * size < tx_weight var_int_size (p2wpkh ∷ p2pkh ∷ []) 22 0 + 4)
estimate_tx_size_lem_example =
    estimate_tx_size_lem var_int_size (p2wpkh ∷ p2pkh ∷ []) 22 0 (refl, (refl, tt))

-- Two coins are enough for 95000, so no single coin is.
coin_selection_optimal_example :
    length (coin_of 2 90000 p2tr ∷ coin_of 3 20000 p2pkh ∷ [])
    ≤ length (select (λ c. ltb 0 (value c)) wallet)
unfolding program
coin_selection_optimal_example =
    coin_selection_optimal (λ s. s) 95000 wallet (omega arith) (omega arith) (λ c. ltb 0 (value c))
      110000 (coin_of 2 90000 p2tr ∷ coin_of 3 20000 p2pkh ∷ []) refl (omega arith)

new_tx-Ends_example :
    Ends env btc 1000 wallet target change (new_tx env btc 1000 wallet target change)
new_tx-Ends_example =
    new_tx-Ends env btc 1000 wallet target change (omega arith) (omega arith) (omega arith)
      (refl, (refl, (refl, tt))) refl (omega arith)

new_tx-IsProposal_example : IsProposal env btc 1000 wallet target change proposal
new_tx-IsProposal_example =
    new_tx-IsProposal env btc 1000 wallet target change (omega arith) (omega arith) (omega arith)
      reverse_perm reverse_perm proposal new_tx-wallet

new_tx_spend_all_cases_example :
    (size : ℕ) × (estimate_tx_size var_int_size (to_input_configurations wallet) 3 0 ≡ ok size)
    × ((113000 < fee_for_serialize_size 1000 size)
          × (new_tx_spend_all env btc 1000 wallet (7 ∷ 7 ∷ 7 ∷ []) ≡ err insufficient_funds)
        ⊎ (fee_for_serialize_size 1000 size ≤ 113000)
          × ((p : TxProposal) × (new_tx_spend_all env btc 1000 wallet (7 ∷ 7 ∷ 7 ∷ []) ≡ ok p)
              × SpendsAll 1000 wallet (7 ∷ 7 ∷ 7 ∷ []) size p))
new_tx_spend_all_cases_example =
    new_tx_spend_all_cases env btc 1000 wallet (7 ∷ 7 ∷ 7 ∷ []) (omega arith) (omega arith)
      (refl, (refl, (refl, tt))) reverse_perm reverse_perm

coin_selection_cases_example :
    (count : ℕ) × IsPrefix 95000 0 (sort_reverse (λ s. s) wallet) count
    × (count ≤ 3)
    × ((95000 ≤ 113000)
          × (95000 ≤ total (take count (sort_reverse (λ s. s) wallet)))
          × (coin_selection (λ s. s) 95000 wallet
              ≡ ok (
                total (take count (sort_reverse (λ s. s) wallet)),
                take count (sort_reverse (λ s. s) wallet),
              ))
        ⊎ (113000 < 95000) × (coin_selection (λ s. s) 95000 wallet ≡ err insufficient_funds))
coin_selection_cases_example =
    coin_selection_cases (λ s. s) 95000 wallet (omega arith) (omega arith)
