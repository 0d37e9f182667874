-- ===== src/Accounts/Running.antt =====
-- The running balance is the sum of what the transactions change.
use mathlib.Core.Path.{ap₂}
use mathlib.Core.List.{Perm, Permᴰ}
use mathlib.Core.Logic.{∥∥₁_elim}
use native.Mathlib.Nat.{ℕ_set}
use bitbox_wallet_app.Prelude.{
  ◌≡◌, refl, sym, ap, ◌∙◌, Bool, true, false, List, [], ◌∷◌, Option, none, some, arith,
  if◌then◌else◌,
}
use bitbox_wallet_app.Prelude.Int.{ℤ, pos, pos_part, neg_part, ◌+ℤ◌, ◌-ℤ◌, eq_of_parts, int_laws}
use bitbox_wallet_app.Transactions.Details.{
  TxType, receive, send, send_self, TxStatus, pending, complete, failed,
}
use bitbox_wallet_app.Accounts.{
  Tx, less, charge, is_failed, add_as, fill_balances, new_ordered_transactions,
}

-- The amount that moves: none of a failed transaction.
abbrev moved : TxStatus → ℤ → ℤ
moved failed amount = pos 0
moved s amount = amount

-- The fee as far as it counts towards this account.
abbrev paid_fee : Option ℤ → Bool → ℤ
paid_fee none different = pos 0
paid_fee (some fee) true = pos 0
paid_fee (some fee) false = fee

abbrev change_as : TxType → ℤ → ℤ → ℤ
change_as receive amount fee = amount
change_as send amount fee = pos 0 -ℤ amount -ℤ fee
change_as send_self amount fee = pos 0 -ℤ fee

-- What a transaction changes of the balance.
abbrev pub change_of : Tx → ℤ
change_of tx =
    change_as tx.tx_type (moved tx.status tx.amount) (paid_fee tx.fee tx.fee_is_different_unit)

-- The changes of the transactions that pass a test.
abbrev pub total : (Tx → Bool) → List Tx → ℤ
total p [] = pos 0
total p (tx ∷ txs) = (if p tx then change_of tx else pos 0) +ℤ total p txs

abbrev pub all_txs : Tx → Bool
all_txs tx = true

charge-paid : (tx : Tx) (b : ℤ) → charge tx b ≡ b -ℤ paid_fee tx.fee tx.fee_is_different_unit
unfolding charge
charge-paid tx b = go tx.fee tx.fee_is_different_unit
  where
    go :
        (fee : Option ℤ) (different : Bool)
        → elim fee [ none ↦ b | some f ↦ if different then b else b -ℤ f ]
          ≡ b -ℤ paid_fee fee different
    go none different = omega int_laws
    go (some f) true = omega int_laws
    go (some f) false = refl

if_failed :
    (s : TxStatus) (b amount : ℤ)
    → ((if is_failed s then b else b +ℤ amount) ≡ b +ℤ moved s amount)
      × ((if is_failed s then b else b -ℤ amount) ≡ b -ℤ moved s amount)
unfolding is_failed
if_failed failed b amount = (omega int_laws, omega int_laws)
if_failed pending b amount = (refl, refl)
if_failed complete b amount = (refl, refl)

add_as-change :
    (t : TxType) (tx : Tx) (b : ℤ)
    → add_as t tx b
      ≡ change_as t (moved tx.status tx.amount) (paid_fee tx.fee tx.fee_is_different_unit) +ℤ b
unfolding add_as
add_as-change receive tx b = (if_failed tx.status b tx.amount).0 ∙ omega int_laws
add_as-change send tx b =
    charge-paid tx _
    ∙ ap (λ (x : ℤ). x -ℤ paid_fee tx.fee tx.fee_is_different_unit)
        (if_failed tx.status b tx.amount).1
    ∙ omega int_laws
add_as-change send_self tx b = charge-paid tx b ∙ omega int_laws

-- Every balance is the total from its transaction to the last one.
abbrev pub IsRunning : List Tx → Type 0
IsRunning [] = Unit
IsRunning (tx ∷ txs) = (tx.balance ≡ total all_txs (tx ∷ txs)) × IsRunning txs

fill_balances-total :
    (p : Tx → Bool) (txs : List Tx)
    → ((tx : Tx) (b : ℤ) → p (record tx { balance = b }) ≡ p tx)
    → total p (fill_balances txs).0 ≡ total p txs
unfolding fill_balances
fill_balances-total p [] h = refl
fill_balances-total p (tx ∷ txs) h =
    ap₂ (λ (c : Bool) (t : ℤ). (if c then change_of tx else pos 0) +ℤ t) (h tx _)
      (fill_balances-total p txs h)

fill_balances-sum : (txs : List Tx) → (fill_balances txs).1 ≡ total all_txs txs
unfolding fill_balances
fill_balances-sum [] = refl
fill_balances-sum (tx ∷ txs) =
    add_as-change tx.tx_type tx _ ∙ ap (λ (t : ℤ). change_of tx +ℤ t) (fill_balances-sum txs)

fill_balances-IsRunning : (txs : List Tx) → IsRunning (fill_balances txs).0
unfolding fill_balances
fill_balances-IsRunning [] = _
fill_balances-IsRunning (tx ∷ txs) = (
  add_as-change tx.tx_type tx _
      ∙ ap (λ (t : ℤ). change_of tx +ℤ t)
          (fill_balances-sum txs ∙ sym (fill_balances-total all_txs txs (λ tx b. refl))),
  fill_balances-IsRunning txs,
)

swapped : (a b c : ℤ) → a +ℤ (b +ℤ c) ≡ b +ℤ (a +ℤ c)
swapped a b c = omega int_laws

abbrev weight : (Tx → Bool) → Tx → ℤ
weight p tx = if p tx then change_of tx else pos 0

total-Permᴰ : (p : Tx → Bool) {a b : List Tx} → Permᴰ a b → total p a ≡ total p b
total-Permᴰ p Permᴰ.nil = refl
total-Permᴰ p (Permᴰ.cons e q) = ap₂ (λ (x : Tx) (t : ℤ). weight p x +ℤ t) e (total-Permᴰ p q)
total-Permᴰ p (Permᴰ.swap {a' = a'} {b' = b'} {l = l} x y) =
    ap₂ (λ (u v : Tx). weight p u +ℤ (weight p v +ℤ total p l)) x y
    ∙ swapped (weight p b') (weight p a') (total p l)
total-Permᴰ p (Permᴰ.trans q r) = total-Permᴰ p q ∙ total-Permᴰ p r

pub total-perm : (p : Tx → Bool) {a b : List Tx} → Perm a b → total p a ≡ total p b
total-perm p {a} {b} q =
    let gains = ∥∥₁_elim q (ℕ_set _ _) (λ d. ap pos_part (total-Permᴰ p d)) in
    let losses = ∥∥₁_elim q (ℕ_set _ _) (λ d. ap neg_part (total-Permᴰ p d)) in
    eq_of_parts (total p a) (total p b) (omega (arith, gains, losses))

-- The balance of the newest transaction.
abbrev pub current : List Tx → ℤ
current [] = pos 0
current (tx ∷ txs) = tx.balance

-- The totals of the ordered transactions are those of the given ones, where the test does not look at
-- the balance.
pub ordered-total :
    (sort : (Tx → Tx → Bool) → List Tx → List Tx)
    → ((lt : Tx → Tx → Bool) (txs : List Tx) → Perm (sort lt txs) txs)
    → (txs : List Tx) (p : Tx → Bool) → ((tx : Tx) (b : ℤ) → p (record tx { balance = b }) ≡ p tx)
    → total p (new_ordered_transactions sort txs) ≡ total p txs
unfolding new_ordered_transactions
ordered-total sort perm txs p h =
    fill_balances-total p (sort (λ a b. less b a) txs) h ∙ total-perm p (perm (λ a b. less b a) txs)

-- Every balance is the sum from its transaction to the end of the list.
pub ordered-IsRunning :
    (sort : (Tx → Tx → Bool) → List Tx → List Tx) (txs : List Tx)
    → IsRunning (new_ordered_transactions sort txs)
unfolding new_ordered_transactions
ordered-IsRunning sort txs = fill_balances-IsRunning (sort (λ a b. less b a) txs)
