-- ===== src/Accounts/Tests.antt =====
-- An account with four transactions, and the theorems at it.
use mathlib.Core.List.{Permᴰ}
use mathlib.Core.List.Permᴰ
use bitbox_wallet_app.Prelude.{
  ℕ, ◌≡◌, refl, Bool, true, false, List, [], ◌∷◌, map, Option, none, some, if◌then◌else◌,
}
use bitbox_wallet_app.Prelude.Int.{ℤ, pos, negsuc, ◌+ℤ◌, ◌-ℤ◌}
use bitbox_wallet_app.Prelude.Run.{ok, err}
use bitbox_wallet_app.Transactions.Details.{TxType, receive, send, send_self, complete, failed}
use bitbox_wallet_app.Accounts.{
  Tx, not_available, is_confirmed, less_by_height, less_at, less, charge, is_failed, add_as,
  fill_balances, new_ordered_transactions, earliest_of, earliest_time, lacks_time, some_lacks_time,
  is_settled, is_settled_at, search, balance_at, entry_at, series, timeseries,
}

program : Unit {0}
unfolding is_confirmed less_by_height less_at less charge is_failed add_as fill_balances
    new_ordered_transactions earliest_of earliest_time lacks_time some_lacks_time is_settled
    is_settled_at search balance_at entry_at series timeseries ◌+ℤ◌ ◌-ℤ◌
program = tt

abbrev insert : (Tx → Tx → Bool) → Tx → List Tx → List Tx
insert lt x [] = x ∷ []
insert lt x (y ∷ ys) = let rest = insert lt x ys in if lt y x then y ∷ rest else x ∷ y ∷ ys

abbrev sort : (Tx → Tx → Bool) → List Tx → List Tx
sort lt [] = []
sort lt (x ∷ xs) = insert lt x (sort lt xs)

abbrev tx : ℕ → TxType → ℤ → ℤ → Option ℕ → Tx
tx n t amount height timestamp = record {
  internal_id = n;
  tx_type = t;
  status = complete;
  amount = amount;
  fee = some (pos 1);
  fee_is_different_unit = false;
  height = height;
  timestamp = timestamp;
  created_timestamp = some n;
  balance = pos 0;
}

abbrev history : List Tx
history =
    tx 1 receive (pos 100) (pos 10) (some 50)
    ∷ tx 2 send (pos 30) (pos 0) none
    ∷ tx 3 send_self (pos 5) (pos 11) (some 60)
    ∷ record (tx 4 send (pos 20) (pos 11) (some 60)) { status = failed }
    ∷ []

abbrev ordered : List Tx
ordered = new_ordered_transactions sort history

order_run :
    (map (λ (t : Tx). t.internal_id) ordered ≡ 2 ∷ 4 ∷ 3 ∷ 1 ∷ [])
    × (map (λ (t : Tx). t.balance) ordered ≡ pos 67 ∷ pos 98 ∷ pos 99 ∷ pos 100 ∷ [])
    × (earliest_time ordered ≡ ok 50)
unfolding program
order_run = (refl, refl, refl)

series_run :
    (timeseries ordered 45 65 10
      ≡ ok (
          record { time = 45; value = pos 0 }
          ∷ record { time = 55; value = pos 100 }
          ∷ record { time = 65; value = pos 98 }
          ∷ []))
    × (timeseries ordered 0 65 10 ≡ ok [])
    × (timeseries (tx 1 receive (pos 1) (pos 1) none ∷ []) 45 65 10 ≡ err not_available)
unfolding program
series_run = (refl, refl, refl)

-- Two unconfirmed transactions of the heights 0 and -1 each come before the other.
unconfirmed_run :
    (less (tx 1 send (pos 1) (pos 0) none) (tx 2 send (pos 1) (negsuc 0) none) ≡ true)
    × (less (tx 2 send (pos 1) (negsuc 0) none) (tx 1 send (pos 1) (pos 0) none) ≡ true)
unfolding program
unconfirmed_run = (refl, refl)
