-- ===== src/Notes.antt =====
-- backend/accounts/notes/notes.go: the notes of an account's transactions.
-- A map is an association list, and a text the list of its bytes. A file is missing, unreadable, or
-- holds bytes. What JSON makes of the data, and reads from the bytes, are parameters, as is what a
-- failed write leaves in the file.
use bitbox_wallet_app.Prelude.{
  ℕ, Bool, true, false, List, [], ◌∷◌, Option, none, some, length, ltb, if◌then◌else◌,
}
use bitbox_wallet_app.Prelude.Assoc.{find, put, delete}
use bitbox_wallet_app.Prelude.Run.{Run, ok, err}
use bitbox_wallet_app.Coins.{Text}
use bitbox_wallet_app.Signing.Configuration.{same_bytes}
pub mod Kept
mod Tests

pub data Error : Type 0 where
  too_long not_written not_read : Error

-- The notes by the transaction's identifier.
abbrev pub Data : Type 0
Data = List (Text × Text)

pub data File (B : Type 0) : Type 0 where
  missing unreadable : File B
  holds : B → File B

pub record Notes (B : Type 0) : Type 0 where
  pub data_of : Data
  pub file : File B

-- None for a write that succeeds, or the file after one that does not.
abbrev pub Writing : Type 0 → Type 0
Writing B = Option (File B)

abbrev pub max_note_len : ℕ
max_note_len = 1024

unfoldable pub load_of : {B : Type 0} → File B → Run Error Data → Run Error (Notes B)
load_of file (ok d) = ok (record { data_of = d; file = file })
load_of file r = err not_read

unfoldable pub decoded : Option Data → Run Error Data
decoded none = err not_read
decoded (some d) = ok d

module _ {B : Type 0} (decode : B → Option Data) where
  unfoldable pub read : File B → Run Error Data
  unfolding decoded
  read missing = ok []
  read unreadable = err not_read
  read (holds b) = decoded (decode b)

  unfoldable pub load_notes : File B → Run Error (Notes B)
  unfolding read load_of
  load_notes file = load_of file (read file)

unfoldable pub set_in : Text → Text → Data → Data
set_in tx_id [] d = delete same_bytes tx_id d
set_in tx_id (c ∷ note) d = put same_bytes tx_id (c ∷ note) d

unfoldable pub note_or_empty : Option Text → Text
note_or_empty none = []
note_or_empty (some note) = note

unfoldable pub tx_note : {B : Type 0} → Text → Notes B → Text
unfolding note_or_empty
tx_note tx_id notes = note_or_empty (find same_bytes tx_id notes.data_of)

unfoldable pub add_missing : Text × Text → Option Text → Data → Data
add_missing e none d = put same_bytes e.0 e.1 d
add_missing e (some note) d = d

-- The loop over the older notes.
unfoldable pub merge_into : Data → Data → Data
unfolding add_missing
merge_into [] d = d
merge_into (e ∷ es) d = merge_into es (add_missing e (find same_bytes e.0 d) d)

module _ {B : Type 0} (encode : Data → B) where
  unfoldable pub write : Writing B → Notes B → Run Error (Unit {0}) × Notes B
  write none notes = (ok tt, record notes { file = holds (encode notes.data_of) })
  write (some left) notes = (err not_written, record notes { file = left })

  unfoldable pub set_tx_note : Writing B → Text → Text → Notes B → Run Error (Unit {0}) × Notes B
  unfolding set_in write
  set_tx_note writing tx_id note notes =
      if ltb max_note_len (length note)
      then (err too_long, notes)
      else write writing (record notes { data_of = set_in tx_id note notes.data_of })

  unfoldable pub merge_legacy : Writing B → Notes B → Notes B → Run Error (Unit {0}) × Notes B
  unfolding merge_into write
  merge_legacy writing older notes =
      write writing (record notes { data_of = merge_into older.data_of notes.data_of })
