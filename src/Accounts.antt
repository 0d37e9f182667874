-- ===== src/Accounts.antt =====
-- backend/accounts/transaction.go: the transactions of an account in order, their running balance, and
-- the balance over time.
-- big.Int is ℤ. A time is the number of nanoseconds since the zero time, and an interval is not
-- negative. `sort` is sort.Sort: it gets the test for less and the elements.
pub mod Running
pub mod Order
pub mod Search
pub mod Series
mod Tests
use bitbox_wallet_app.Prelude.{
  ℕ, zero, suc, ◌+◌, ◌-◌, ◌/◌, Bool, true, false, not, ◌&&◌, ◌||◌, List, [], ◌∷◌, Option, none,
  some, length, get_elem?, ltb, leb, ◌==◌, if◌then◌else◌,
}
use bitbox_wallet_app.Prelude.Int.{ℤ, pos, negsuc, pos_part, neg_part, ◌+ℤ◌, ◌-ℤ◌, ltb_ℤ}
use bitbox_wallet_app.Prelude.Run.{Run, ok, err, panic, out_of_fuel, ◌>>=◌}
use bitbox_wallet_app.Transactions.Details.{
  TxType, receive, send, send_self, TxStatus, pending, complete, failed,
}

pub record Tx : Type 0 where
  pub internal_id : ℕ
  pub tx_type : TxType
  pub status : TxStatus
  pub amount : ℤ
  pub fee : Option ℤ
  pub fee_is_different_unit : Bool
  pub height : ℤ
  pub timestamp : Option ℕ
  pub created_timestamp : Option ℕ
  pub balance : ℤ

-- errors.ErrNotAvailable.
pub data Error : Type 0 where
  not_available : Error

unfoldable pub is_confirmed : Tx → Bool
is_confirmed tx = ltb_ℤ (pos 0) tx.height

abbrev same_height : ℤ → ℤ → Bool
same_height a b = not (ltb_ℤ a b) && not (ltb_ℤ b a)

unfoldable pub less_by_height : ℤ → ℤ → Bool
less_by_height a b =
    if not (ltb_ℤ (pos 0) b) then true else (if not (ltb_ℤ (pos 0) a) then false else ltb_ℤ a b)

unfoldable pub less_at : Option ℕ → Option ℕ → ℤ → ℤ → Bool
unfolding less_by_height
less_at (some s) (some t) a b = if same_height a b then ltb s t else less_by_height a b
less_at s t a b = less_by_height a b

unfoldable pub less : Tx → Tx → Bool
unfolding less_at
less a b = less_at a.created_timestamp b.created_timestamp a.height b.height

unfoldable pub charge : Tx → ℤ → ℤ
charge tx balance = elim tx.fee [
  | none ↦ balance
  | some fee ↦ if tx.fee_is_different_unit then balance else balance -ℤ fee
]

unfoldable pub is_failed : TxStatus → Bool
is_failed failed = true
is_failed s = false

-- The cases of the type.
unfoldable pub add_as : TxType → Tx → ℤ → ℤ
unfolding is_failed charge
add_as receive tx balance = if is_failed tx.status then balance else balance +ℤ tx.amount
add_as send tx balance = charge tx (if is_failed tx.status then balance else balance -ℤ tx.amount)
add_as send_self tx balance = charge tx balance

-- From the last to the first; the balance so far is the second part.
unfoldable pub fill_balances : List Tx → List Tx × ℤ
unfolding add_as
fill_balances [] = ([], pos 0)
fill_balances (tx ∷ txs) =
    let (rest, so_far) = fill_balances txs in
    let balance = add_as tx.tx_type tx so_far in (record tx { balance = balance } ∷ rest, balance)

unfoldable pub new_ordered_transactions : ((Tx → Tx → Bool) → List Tx → List Tx) → List Tx → List Tx
unfolding less
new_ordered_transactions sort txs = (fill_balances (sort (λ a b. less b a) txs)).0

abbrev last_tx : List Tx → Option Tx
last_tx [] = none
last_tx (tx ∷ []) = some tx
last_tx (tx ∷ next ∷ txs) = last_tx (next ∷ txs)

unfoldable pub earliest_of : Option Tx → Run Error ℕ
unfolding is_confirmed
earliest_of none = ok 0
earliest_of (some tx) = elim tx.timestamp [
  | none ↦ if is_confirmed tx then err not_available else ok 0
  | some t ↦ ok t
]

unfoldable pub earliest_time : List Tx → Run Error ℕ
unfolding earliest_of
earliest_time txs = earliest_of (last_tx txs)

unfoldable pub lacks_time : Tx → Bool
unfolding is_confirmed
lacks_time tx = is_confirmed tx && elim tx.timestamp [ none ↦ true | some t ↦ false ]

unfoldable pub some_lacks_time : List Tx → Bool
unfolding lacks_time
some_lacks_time [] = false
some_lacks_time (tx ∷ txs) = lacks_time tx || some_lacks_time txs

-- The closure at an element. The code reads the timestamp of a confirmed one only after it has seen
-- that there is one.
unfoldable pub is_settled : ℕ → Tx → Bool
unfolding is_confirmed
is_settled now tx = is_confirmed tx && elim tx.timestamp [ none ↦ false | some t ↦ leb t now ]

unfoldable pub is_settled_at : ℕ → List Tx → ℕ → Bool
unfolding is_settled
is_settled_at now txs i = elim (get_elem? txs i) [ none ↦ false | some tx ↦ is_settled now tx ]

-- sort.Search between i and j.
unfoldable pub search : (ℕ → Bool) → ℕ → ℕ → ℕ → Run Error ℕ
search f zero i j = out_of_fuel
search f (suc fuel) i j =
    let h = (i + j) / 2 in
    let rest = search f fuel (if f h then i else suc h) (if f h then h else j) in
    if ltb i j then rest else ok i

pub record TimeseriesEntry : Type 0 where
  pub time : ℕ
  pub value : ℤ

unfoldable pub balance_at : List Tx → ℕ → ℤ
balance_at txs i = elim (get_elem? txs i) [ none ↦ pos 0 | some tx ↦ tx.balance ]

unfoldable pub entry_at : List Tx → ℕ → Run Error TimeseriesEntry
unfolding search is_settled_at balance_at
entry_at txs now = search (is_settled_at now txs) (suc (length txs)) 0 (length txs) >>= λ i.
    ok (record { time = now; value = balance_at txs i })

unfoldable pub series : ℕ → List Tx → ℕ → ℕ → ℕ → Run Error (List TimeseriesEntry)
unfolding entry_at
series zero txs now end interval = out_of_fuel
series (suc fuel) txs now end interval =
    let rest = series fuel txs (now + interval) end interval in
    entry_at txs now >>= λ entry.
    (if ltb end (now + interval) then ok (entry ∷ []) else rest >>= λ entries. ok (entry ∷ entries))

unfoldable pub timeseries : List Tx → ℕ → ℕ → ℕ → Run Error (List TimeseriesEntry)
unfolding some_lacks_time series
timeseries txs start end interval =
    if some_lacks_time txs
    then err not_available
    else (if start == 0 then ok [] else series (suc (end - start)) txs start end interval)
