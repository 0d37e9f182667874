-- ===== src/Accounts/Series.antt =====
-- The balance over time is the sum of what was settled.
use bitbox_wallet_app.Prelude.{
  ℕ, zero, suc, ◌+◌, ◌≤◌, ◌≡◌, ◌⊎◌, true, false, List, [], ◌∷◌, Option, none, some, All,
}
use bitbox_wallet_app.Accounts.{Tx, is_confirmed, is_settled, TimeseriesEntry}
use bitbox_wallet_app.Accounts.Running.{total}

abbrev pub time_of : Option ℕ → ℕ
time_of none = 0
time_of (some t) = t

-- One transaction is unconfirmed, or the next is confirmed and not later.
abbrev pub IsNotBefore : Tx → Tx → Type 0
IsNotBefore a b =
    (is_confirmed a ≡ false) ⊎ (is_confirmed b ≡ true) × (time_of b.timestamp ≤ time_of a.timestamp)

-- The unconfirmed ones first, then from newest to oldest.
abbrev pub IsChronological : List Tx → Type 0
IsChronological [] = Unit
IsChronological (tx ∷ txs) = All (λ older. IsNotBefore tx older) txs × IsChronological txs

-- What the series has to say at a time.
abbrev pub entry : List Tx → ℕ → TimeseriesEntry
entry txs now = record { time = now; value = total (is_settled now) txs }

-- The times start, start + interval, and so on.
abbrev pub times : ℕ → ℕ → ℕ → List ℕ
times zero start interval = []
times (suc n) start interval = start ∷ times n (start + interval) interval
