-- ===== src/BaseAccount/Tests.antt =====
-- An account's events and the lines of a transaction, and the theorems at them.
use bitbox_wallet_app.Prelude.{
  ◌≡◌, refl, true, false, [], ◌∷◌, none, some, ℕ, get_elem?, if◌then◌else◌, map,
}
use bitbox_wallet_app.Prelude.Int.{pos}
use bitbox_wallet_app.Prelude.Run.{ok}
use bitbox_wallet_app.Coins.{Text, text}
use bitbox_wallet_app.Synchronizer.{new_synchronizer}
use bitbox_wallet_app.Synchronizer.Pairs.{started, finished, run, synced}
use bitbox_wallet_app.Transactions.Details.{send}
use bitbox_wallet_app.BaseAccount.{
  status_changed, event_sync_started, sync_done, new_base_account, on_event, on_callback,
  AddressAndAmount, Exported, type_text, next_type, rows_of, export_rows, propose_tx_note,
  get_and_clear_proposed_tx_note, close,
}
use bitbox_wallet_app.BaseAccount.Rounds.{replay, is_positive, account_after, replay_lem}
use bitbox_wallet_app.BaseAccount.Rows.{type_at, fee_at, row_at, rows_of-at}

program : Unit {0}
unfolding on_event on_callback type_text next_type rows_of export_rows propose_tx_note
    get_and_clear_proposed_tx_note close
program = tt

events_run :
    (replay (synced 1 2).called new_base_account).events
    ≡ event_sync_started ∷ status_changed ∷ sync_done ∷ event_sync_started ∷ sync_done
      ∷ event_sync_started ∷ []
unfolding program
events_run = refl

note_run :
    (get_and_clear_proposed_tx_note (propose_tx_note (text "n") new_base_account)).0 ≡ text "n"
unfolding program
note_run = refl

replay_example :
    (k : ℕ) × (run (started ∷ finished ∷ started ∷ []) new_synchronizer ≡ ok (synced 1 k))
    × (replay (synced 1 k).called new_base_account ≡ (
        if is_positive 1 then on_event event_sync_started (account_after k) else account_after k))
replay_example = replay_lem (started ∷ finished ∷ started ∷ []) 1 refl

abbrev own : AddressAndAmount
own = record { address = text "own"; amount = pos 5; ours = true }

abbrev foreign : AddressAndAmount
foreign = record { address = text "foreign"; amount = pos 7; ours = false }

abbrev sending : Exported
sending = record {
  tx_type = send;
  fee = some (pos 1);
  timestamp = none;
  addresses = own ∷ foreign ∷ [];
  tx_id = text "id";
  internal_id = text "id";
}

abbrev no_note : Text → Text
no_note tx_id = []

-- The payment to a foreign address is marked as sent to oneself, since one to us comes before it.
kinds_run :
    map (λ r. r.kind) (export_rows (text "sat") no_note (sending ∷ []))
    ≡ text "sent_to_yourself" ∷ text "sent_to_yourself" ∷ []
unfolding program
kinds_run = refl

rows_of-at_example :
    get_elem? (rows_of (text "sat") no_note sending send (some (pos 1)) (own ∷ foreign ∷ [])) 1
    ≡ some (
        row_at
          (text "sat")
          no_note
          sending
          (type_at send (own ∷ foreign ∷ []))
          (fee_at (some (pos 1)) (own ∷ []))
          foreign)
rows_of-at_example =
    rows_of-at (text "sat") no_note sending send (some (pos 1)) (own ∷ []) foreign []
