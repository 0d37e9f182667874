-- ===== src/Notes/Tests.antt =====
-- Two files of notes, and the theorems at them.
use bitbox_wallet_app.Prelude.{◌≡◌, refl, Bool, true, [], ◌∷◌, Option, none, some}
use bitbox_wallet_app.Prelude.Assoc.{find, put, delete}
use bitbox_wallet_app.Signing.Configuration.{same_bytes}
use bitbox_wallet_app.Coins.{Text, text}
use bitbox_wallet_app.Notes.{
  missing, holds, Data, Notes, decoded, read, load_of, load_notes, write, set_in, set_tx_note,
  note_or_empty, tx_note, add_missing, merge_into, merge_legacy,
}
use bitbox_wallet_app.Notes.Kept.{first_of, all_valid, IsStored, merge_legacy_lem}

program : Unit {0}
unfolding find put delete same_bytes decoded read load_of load_notes write set_in set_tx_note
    note_or_empty tx_note add_missing merge_into merge_legacy
program = tt

abbrev encode : Data → Data
encode d = d

abbrev decode : Data → Option Data
decode d = some d

abbrev valid : Text → Bool
valid t = true

abbrev current : Notes Data
current = record { data_of = (text "t", text "new") ∷ []; file = missing }

abbrev older : Notes Data
older = record { data_of = (text "t", text "old") ∷ (text "u", text "rent") ∷ []; file = missing }

merge_run :
    (tx_note (text "t") (merge_legacy encode none older current).1 ≡ text "new")
    × (tx_note (text "u") (merge_legacy encode none older current).1 ≡ text "rent")
    × ((set_tx_note encode none (text "t") [] current).1.file ≡ holds [])
unfolding program
merge_run = (refl, refl, refl)

json :
    (d : Data)
    → all_valid valid d ≡ true
    → (back : Data) × (decode (encode d) ≡ some back)
      × ((tx_id : Text) → find same_bytes tx_id back ≡ find same_bytes tx_id d)
json d e = (d, refl, λ tx_id. refl)

merge_legacy_example :
    ((tx_id : Text)
      → tx_note tx_id (merge_legacy encode none older current).1
        ≡ note_or_empty (
            first_of (find same_bytes tx_id current.data_of) (find same_bytes tx_id older.data_of)))
    × IsStored encode decode valid (merge_legacy encode none older current)
merge_legacy_example = merge_legacy_lem encode decode valid json none older current
