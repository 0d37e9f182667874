-- ===== src/Maketx/Propose/Sums.antt =====
-- The sums of what a transaction spends and pays, and inversion of a round's result.
use bitbox_wallet_app.Prelude.{
  ℕ, ◌+◌, ◌-◌, ◌≡◌, refl, ap, ◌∙◌, if◌then◌else◌, List, [], ◌∷◌, arith, inl, inr, ◌⊎◌, map,
}
use mathlib.Core.Path.{ap₂}
use mathlib.Core.List.{Perm, Permᴰ}
use mathlib.Core.Logic.{∥∥₁_elim}
use native.Mathlib.Nat.{ℕ_set}
use bitbox_wallet_app.Prelude.Int64.{Int64}
use bitbox_wallet_app.Prelude.Run.{Run, ok, err, panic, out_of_fuel}
use bitbox_wallet_app.Maketx.Types.{
  MsgTx, TxIn, TxOut, Coin, CoinCode, TxProposal, Error, PreviousOutput,
}
use bitbox_wallet_app.Maketx.Selection.Total.{total}
use bitbox_wallet_app.Maketx.Propose.{
  enables_rbf, max_tx_in_sequence_num, Round, retry, done, conclude, previous_output, new_tx_in,
  set_rbf,
}

-- The mathematical sums of what a transaction spends and pays.
abbrev pub paid_out : List TxOut → ℕ
paid_out [] = 0
paid_out (o ∷ os) = o.value + paid_out os

abbrev pub spent : List PreviousOutput → ℕ
spent [] = 0
spent (o ∷ os) = o.tx_out.value + spent os

pub spent-map : (cs : List Coin) → spent (map previous_output cs) ≡ total cs
unfolding previous_output
spent-map [] = refl
spent-map (c ∷ cs) = ground (arith, spent-map cs)

paid_out-Permᴰ : {a b : List TxOut} → Permᴰ a b → paid_out a ≡ paid_out b
paid_out-Permᴰ Permᴰ.nil = refl
paid_out-Permᴰ (Permᴰ.cons e p) = ap₂ ◌+◌ (ap (λ (o : TxOut). o.value) e) (paid_out-Permᴰ p)
paid_out-Permᴰ (Permᴰ.swap x y) =
    omega (arith, ap (λ (o : TxOut). o.value) x, ap (λ (o : TxOut). o.value) y)
paid_out-Permᴰ (Permᴰ.trans p q) = paid_out-Permᴰ p ∙ paid_out-Permᴰ q

pub paid_out-perm : {a b : List TxOut} → Perm a b → paid_out a ≡ paid_out b
paid_out-perm p = ∥∥₁_elim p (ℕ_set _ _) paid_out-Permᴰ

pub set_rbf-inputs :
    (coin : CoinCode) (tx : MsgTx)
    → map (λ i. i.previous_out_point) (set_rbf coin tx).tx_in
      ≡ map (λ i. i.previous_out_point) tx.tx_in
unfolding set_rbf
set_rbf-inputs coin tx = go tx.tx_in
  where
    go :
        (l : List TxIn)
        → map
            (λ i. i.previous_out_point)
            (map
              (λ i.
                if enables_rbf coin then record i { sequence = max_tx_in_sequence_num - 2 } else i)
              l)
          ≡ map (λ i. i.previous_out_point) l
    go [] = refl
    go (x ∷ xs) = ap₂ ◌∷◌ (ground arith) (go xs)

pub map-new_tx_in :
    (cs : List Coin)
    → map (λ i. i.previous_out_point) (map new_tx_in cs) ≡ map (λ c. c.out_point) cs
unfolding new_tx_in
map-new_tx_in [] = refl
map-new_tx_in (c ∷ cs) = ap (◌∷◌ c.out_point) (map-new_tx_in cs)

pub panic≢ok : {p : TxProposal} → ¬ (◌≡◌ {A = Run Error TxProposal} panic (ok p))
panic≢ok h = cc

pub conclude-eq-ok :
    (next : Int64 → Run Error TxProposal) (m : Run Error Round) {p : TxProposal}
    → conclude next m ≡ ok p
    → ((fee : Int64) × (m ≡ ok (retry fee)) × (next fee ≡ ok p)) ⊎ (m ≡ ok (done p))
unfolding conclude
conclude-eq-ok next (ok (retry fee)) e = inl (fee, refl, e)
conclude-eq-ok next (ok (done q)) e = inr (cc)
conclude-eq-ok next (err _) e = cc
conclude-eq-ok next panic e = cc
conclude-eq-ok next out_of_fuel e = cc
