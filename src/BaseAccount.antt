-- ===== src/BaseAccount.antt =====
-- backend/accounts/baseaccount.go: what the accounts of all coins have in common.
-- The synchronizer is that of Synchronizer: its callbacks are `on_callback`. The frontend gets the
-- events. The rate updater, the notes of older versions and the CSV encoding are not modelled.
use bitbox_wallet_app.Prelude.{
  ℕ, Bool, true, false, not, ◌&&◌, List, [], ◌∷◌, ◌++◌, Option, none, some, if◌then◌else◌,
}
use bitbox_wallet_app.Prelude.Int.{ℤ}
use bitbox_wallet_app.Prelude.Run.{Run, ok, err, panic}
use bitbox_wallet_app.Coins.{Text, text}
use bitbox_wallet_app.Synchronizer.{Callback, sync_started, sync_finished}
use bitbox_wallet_app.Transactions.Details.{TxType, receive, send, send_self}
use bitbox_wallet_app.Notes as N
use bitbox_wallet_app.Notes.{Data, Notes, File, Writing, load_notes, tx_note, set_tx_note}
pub mod Rounds
pub mod Rows
mod Tests

pub data Event : Type 0 where
  status_changed event_sync_started sync_done : Event

-- `offline` is the text of the error.
pub record BaseAccount : Type 0 where
  pub synced : Bool
  pub offline : Option Text
  pub notes : Option (Notes Text)
  pub proposed_tx_note : Text
  pub events : List Event

abbrev pub new_base_account : BaseAccount
new_base_account = record {
  synced = false;
  offline = none;
  notes = none;
  proposed_tx_note = [];
  events = [];
}

unfoldable pub on_event : Event → BaseAccount → BaseAccount
on_event e a = record a { events = a.events ++ e ∷ [] }

-- The callbacks given to the synchronizer.
unfoldable pub on_callback : Callback → BaseAccount → BaseAccount
unfolding on_event
on_callback sync_started a = on_event event_sync_started a
on_callback sync_finished a =
    if a.synced
    then on_event sync_done a
    else on_event sync_done (on_event status_changed (record a { synced = true }))

unfoldable pub close : BaseAccount → BaseAccount
close a = record a { synced = false }

unfoldable pub reset_synced : BaseAccount → BaseAccount
reset_synced a = record a { synced = false }

unfoldable pub set_offline : Option Text → BaseAccount → BaseAccount
unfolding on_event
set_offline offline a = on_event status_changed (record a { offline = offline })

unfoldable pub propose_tx_note : Text → BaseAccount → BaseAccount
propose_tx_note note a = record a { proposed_tx_note = note }

unfoldable pub get_and_clear_proposed_tx_note : BaseAccount → Text × BaseAccount
get_and_clear_proposed_tx_note a = (a.proposed_tx_note, record a { proposed_tx_note = [] })

unfoldable pub refresh :
    Run N.Error (Unit {0}) × Notes Text → BaseAccount → Run N.Error (Unit {0}) × BaseAccount
unfolding on_event
refresh (ok done, n) a = (ok done, on_event status_changed (record a { notes = some n }))
refresh (r, n) a = (r, record a { notes = some n })

-- What JSON makes of the notes is a parameter. Before Initialize the notes are nil, which panics.
unfoldable pub set_note_of :
    (Data → Text)
    → Writing Text
    → Text
    → Text
    → Option (Notes Text)
    → BaseAccount
    → Run N.Error (Unit {0}) × BaseAccount
unfolding refresh
set_note_of encode writing tx_id note none a = (panic, a)
set_note_of encode writing tx_id note (some n) a =
    refresh (set_tx_note encode writing tx_id note n) a

unfoldable pub account_set_tx_note :
    (Data → Text) → Writing Text → Text → Text → BaseAccount → Run N.Error (Unit {0}) × BaseAccount
unfolding set_note_of
account_set_tx_note encode writing tx_id note a = set_note_of encode writing tx_id note a.notes a

unfoldable pub account_tx_note : Text → BaseAccount → Run N.Error Text
account_tx_note tx_id a = elim a.notes [ none ↦ panic | some n ↦ ok (tx_note tx_id n) ]

pub record AddressAndAmount : Type 0 where
  pub address : Text
  pub amount : ℤ
  pub ours : Bool

pub record Exported : Type 0 where
  pub tx_type : TxType
  pub fee : Option ℤ
  pub timestamp : Option ℕ
  pub addresses : List AddressAndAmount
  pub tx_id : Text
  pub internal_id : Text

-- A line of the CSV file; numbers and times are not printed here.
pub record Row : Type 0 where
  pub time : Option ℕ
  pub kind : Text
  pub amount : ℤ
  pub unit : Text
  pub fee : Option ℤ
  pub address : Text
  pub tx_id : Text
  pub note : Text

unfoldable pub type_text : TxType → Text
type_text receive = text "received"
type_text send = text "sent"
type_text send_self = text "sent_to_yourself"

-- The variable transactionType before and after an address.
unfoldable pub next_type : TxType → Bool → TxType
next_type send true = send_self
next_type t ours = t

-- The loop over the addresses, with the smallest unit of the coin; the fee is written in the first line only.
unfoldable pub rows_of :
    Text → (Text → Text) → Exported → TxType → Option ℤ → List AddressAndAmount → List Row
unfolding next_type type_text
rows_of unit note_of tx t fee [] = []
rows_of unit note_of tx t fee (a ∷ as') =
    let t' = next_type t a.ours in
    record {
      time = tx.timestamp;
      kind = type_text t';
      amount = a.amount;
      unit = unit;
      fee = fee;
      address = a.address;
      tx_id = tx.tx_id;
      note = note_of tx.internal_id;
    }
    ∷ rows_of unit note_of tx t' none as'

-- The lines below the header.
unfoldable pub export_rows : Text → (Text → Text) → List Exported → List Row
unfolding rows_of
export_rows unit note_of [] = []
export_rows unit note_of (tx ∷ txs) =
    rows_of unit note_of tx tx.tx_type tx.fee tx.addresses ++ export_rows unit note_of txs
