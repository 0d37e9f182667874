-- ===== src/BaseAccount/Rows.antt =====
-- The lines of the CSV file.
use bitbox_wallet_app.Prelude.{
  ◌≡◌, refl, ap, ◌∙◌, Bool, true, false, ◌||◌, List, [], ◌∷◌, ◌++◌, Option, none, some, length,
  get_elem?, if◌then◌else◌,
}
use bitbox_wallet_app.Prelude.Int.{ℤ}
use bitbox_wallet_app.Coins.{Text}
use bitbox_wallet_app.Transactions.Details.{TxType, receive, send, send_self}
use bitbox_wallet_app.BaseAccount.{AddressAndAmount, Exported, Row, type_text, next_type, rows_of}

abbrev pub any_ours : List AddressAndAmount → Bool
any_ours [] = false
any_ours (a ∷ as') = a.ours || any_ours as'

-- The type of the line of the last of some addresses.
abbrev pub type_at : TxType → List AddressAndAmount → TxType
type_at send as' = if any_ours as' then send_self else send
type_at t as' = t

abbrev pub fee_at : Option ℤ → List AddressAndAmount → Option ℤ
fee_at fee [] = fee
fee_at fee (a ∷ as') = none

type_at-cons :
    (t : TxType) (b : AddressAndAmount) (as' : List AddressAndAmount)
    → type_at (next_type t b.ours) as' ≡ type_at t (b ∷ as')
unfolding next_type
type_at-cons receive b as' = refl
type_at-cons send_self b as' = refl
type_at-cons send b as' = by_owner b.ours
  where
    by_owner :
        (o : Bool)
        → type_at (next_type send o) as' ≡ (if o || any_ours as' then send_self else send)
    by_owner true = refl
    by_owner false = refl

type_at_one : (t : TxType) (a : AddressAndAmount) → next_type t a.ours ≡ type_at t (a ∷ [])
unfolding next_type
type_at_one receive a = refl
type_at_one send_self a = refl
type_at_one send a = by_owner a.ours
  where
    by_owner : (o : Bool) → next_type send o ≡ (if o || false then send_self else send)
    by_owner true = refl
    by_owner false = refl

abbrev pub row_at : Text → (Text → Text) → Exported → TxType → Option ℤ → AddressAndAmount → Row
row_at unit note_of tx t fee a = record {
  time = tx.timestamp;
  kind = type_text t;
  amount = a.amount;
  unit = unit;
  fee = fee;
  address = a.address;
  tx_id = tx.tx_id;
  note = note_of tx.internal_id;
}

fee_at-none : (ps : List AddressAndAmount) → fee_at none ps ≡ none
fee_at-none [] = refl
fee_at-none (p ∷ ps) = refl

-- The line of an address of a transaction comes at its place, with its amount, the transaction's time,
-- identifier and note, and with the fee only in the first line. It is marked as sent to oneself if the
-- transaction is, or if the transaction sends and this address or one before it is ours.
pub rows_of-at :
    (unit : Text) (note_of : Text → Text) (tx : Exported) (t : TxType) (fee : Option ℤ)
    (before : List AddressAndAmount) (a : AddressAndAmount) (after : List AddressAndAmount)
    → get_elem? (rows_of unit note_of tx t fee (before ++ a ∷ after)) (length before)
      ≡ some (row_at unit note_of tx (type_at t (before ++ a ∷ [])) (fee_at fee before) a)
unfolding rows_of
rows_of-at unit note_of tx t fee [] a after =
    ap (λ (t : TxType). some (row_at unit note_of tx t fee a)) (type_at_one t a)
rows_of-at unit note_of tx t fee (b ∷ before) a after =
    rows_of-at unit note_of tx (next_type t b.ours) none before a after
    ∙ ap (λ (t : TxType). some (row_at unit note_of tx t (fee_at none before) a))
        (type_at-cons t b (before ++ a ∷ []))
    ∙ ap
        (λ (fee : Option ℤ). some (row_at unit note_of tx (type_at t (b ∷ before ++ a ∷ [])) fee a))
        (fee_at-none before)
