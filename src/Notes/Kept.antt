-- ===== src/Notes/Kept.antt =====
-- Notes are found again.
use bitbox_wallet_app.Prelude.{
  ◌≡◌, ◌⊎◌, ◌↔◌, inl, inr, refl, ap, ◌∙◌, Bool, true, false, [], ◌∷◌, Option, none, some,
  Bool-cases, if◌then◌else◌, ◌&&◌,
}
use bitbox_wallet_app.Prelude.Assoc.{find, put, find-put_same, find-put_other}
use bitbox_wallet_app.Prelude.Run.{Run, ok, err}
use bitbox_wallet_app.Coins.{Text}
use bitbox_wallet_app.Signing.Configuration.{same_bytes}
use bitbox_wallet_app.Signing.Configuration.Bytes.{
  same_bytes-true, same_bytes-false, same_bytes_refl,
}
use mathlib.Core.Path.{subst}
use bitbox_wallet_app.Notes.{
  Error, not_written, holds, Data, Notes, Writing, load_notes, write, read, load_of, decoded,
  note_or_empty, tx_note, add_missing, merge_into, merge_legacy,
}

same_bytes_iff : (a b : Text) → (same_bytes a b ≡ true) ↔ (a ≡ b)
same_bytes_iff a b =
    (same_bytes-true a b, λ e. subst (λ (c : Text). same_bytes a c ≡ true) e (same_bytes_refl a))

-- The notes after a change of one of them.
abbrev pub IsChanged : {B : Type 0} → Text → Text → Notes B → Notes B → Type 0
IsChanged tx_id note before after =
    (tx_note tx_id after ≡ note)
    × ((other : Text)
        → (same_bytes tx_id other ≡ true) ⊎ (tx_note other after ≡ tx_note other before))

-- An entry, or that of the other map where there is none.
abbrev pub first_of : Option Text → Option Text → Option Text
first_of none o = o
first_of (some note) o = some note

first_of-none : (o : Option Text) → o ≡ first_of o none
first_of-none none = refl
first_of-none (some note) = refl

first_of_nested :
    (o : Option Text) (b : Bool) (v : Text) (p : Option Text)
    → first_of (first_of o (if b then some v else none)) p ≡ first_of o (if b then some v else p)
first_of_nested (some note) b v p = refl
first_of_nested none true v p = refl
first_of_nested none false v p = refl

add_missing-find :
    (k : Text) (e : Text × Text) (d : Data)
    → find same_bytes k (add_missing e (find same_bytes e.0 d) d)
      ≡ first_of (find same_bytes k d) (if same_bytes k e.0 then some e.1 else none)
unfolding add_missing
add_missing-find k e d = by_entry (find same_bytes e.0 d) refl
  where
    by_entry :
        (r : Option Text)
        → find same_bytes e.0 d ≡ r
        → find same_bytes k (add_missing e r d)
          ≡ first_of (find same_bytes k d) (if same_bytes k e.0 then some e.1 else none)
    by_entry none q = elim (Bool-cases (same_bytes k e.0)) [
      | inl same ↦
          let at : k ≡ e.0 = same_bytes-true k e.0 same in
          let nothing_yet : find same_bytes k d ≡ none =
            ap (λ (j : Text). find same_bytes j d) at ∙ q in
          rw (same, nothing_yet)
            (ap (λ (j : Text). find same_bytes j (put same_bytes e.0 e.1 d)) at
              ∙ find-put_same same_bytes same_bytes_iff e.0 e.1 d)
      | inr differ ↦ rw differ (
          find-put_other same_bytes same_bytes_iff k e.0 e.1 d (same_bytes-false k e.0 differ)
          ∙ first_of-none (find same_bytes k d))
    ]
    by_entry (some note) q = elim (Bool-cases (same_bytes k e.0)) [
      | inl same ↦
          let found : find same_bytes k d ≡ some note =
            ap (λ (j : Text). find same_bytes j d) (same_bytes-true k e.0 same) ∙ q in
          rw (same, found) refl
      | inr differ ↦ rw differ (first_of-none (find same_bytes k d))
    ]

merge_into-find :
    (k : Text) (es d : Data)
    → find same_bytes k (merge_into es d) ≡ first_of (find same_bytes k d) (find same_bytes k es)
unfolding merge_into find
merge_into-find k [] d = first_of-none (find same_bytes k d)
merge_into-find k (e ∷ es) d =
    merge_into-find k es (add_missing e (find same_bytes e.0 d) d)
    ∙ ap (λ (o : Option Text). first_of o (find same_bytes k es)) (add_missing-find k e d)
    ∙ first_of_nested (find same_bytes k d) (same_bytes k e.0) e.1 (find same_bytes k es)

-- Whether the identifiers and the notes are all valid UTF-8, for a test of one text.
abbrev pub all_valid : (Text → Bool) → Data → Bool
all_valid valid [] = true
all_valid valid (e ∷ es) = valid e.0 && (valid e.1 && all_valid valid es)

module _ {B : Type 0} (encode : Data → B) (decode : B → Option Data) (valid : Text → Bool) where
  -- The write failed, or the file holds the JSON of the notes; then, if they are all valid UTF-8,
  -- loading the file gives the same notes.
  abbrev pub IsStored : Run Error (Unit {0}) × Notes B → Type 0
  IsStored r =
      (r.0 ≡ err not_written)
      ⊎ (r.1.file ≡ holds (encode r.1.data_of))
        × ((all_valid valid r.1.data_of ≡ false)
            ⊎ ((loaded : Notes B) × (load_notes decode r.1.file ≡ ok loaded)
                × ((tx_id : Text) → tx_note tx_id loaded ≡ tx_note tx_id r.1)))

module _ {B : Type 0} (encode : Data → B) (decode : B → Option Data) (valid : Text → Bool)
    (json : (d : Data)
      → all_valid valid d ≡ true
      → (back : Data) × (decode (encode d) ≡ some back)
        × ((tx_id : Text) → find same_bytes tx_id back ≡ find same_bytes tx_id d)) where
  write-data_of : (w : Writing B) (n : Notes B) → (write encode w n).1.data_of ≡ n.data_of
  unfolding write
  write-data_of none n = refl
  write-data_of (some left) n = refl

  write-IsStored : (w : Writing B) (n : Notes B) → IsStored encode decode valid (write encode w n)
  unfolding write load_notes read load_of decoded tx_note
  write-IsStored none n = elim (Bool-cases (all_valid valid n.data_of)) [
    | inl good ↦
        let (back, decodes, same) = json n.data_of good in
        inr (
          refl,
          inr (
            record { data_of = back; file = holds (encode n.data_of) },
            rw decodes refl,
            λ tx_id. ap note_or_empty (same tx_id),
          ),
        )
    | inr bad ↦ inr (refl, inl bad)
  ]
  write-IsStored (some left) n = inl refl

  -- After MergeLegacy every transaction has the note that it had, or, without an entry of its own, that
  -- of the older notes; also when the file could not be written. Without that error, the file holds the
  -- JSON of the notes, and loading it gives the same notes if all of them are valid UTF-8. Assumed is
  -- that decoding gives back each note of encoded data that is valid UTF-8.
  pub merge_legacy_lem :
      (w : Writing B) (older n : Notes B)
      → ((tx_id : Text)
          → tx_note tx_id (merge_legacy encode w older n).1
            ≡ note_or_empty
                (first_of (find same_bytes tx_id n.data_of) (find same_bytes tx_id older.data_of)))
        × IsStored encode decode valid (merge_legacy encode w older n)
  unfolding merge_legacy tx_note
  merge_legacy_lem w older n =
      let merged : Notes B = record n { data_of = merge_into older.data_of n.data_of } in
      (
        λ tx_id.
            ap (λ (d : Data). note_or_empty (find same_bytes tx_id d)) (write-data_of w merged)
            ∙ ap note_or_empty (merge_into-find tx_id older.data_of n.data_of),
        write-IsStored w merged,
      )
