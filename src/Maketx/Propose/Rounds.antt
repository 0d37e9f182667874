-- ===== src/Maketx/Propose/Rounds.antt =====
-- The rounds of the loop of NewTx.
use bitbox_wallet_app.Prelude.{ℕ, zero, suc, ◌≤◌, ◌<◌, ◌≡◌, List, inl, inr}
use bitbox_wallet_app.Prelude.Int64.{Int64, modulus}
use bitbox_wallet_app.Prelude.Run.{ok}
use bitbox_wallet_app.Maketx.Types.{TxOut, Coin, AccountAddress, CoinCode, TxProposal}
use bitbox_wallet_app.Maketx.Fee.{max_satoshi, fee_for_serialize_size}
use bitbox_wallet_app.Maketx.Fee.Range.{fee_le_max}
use bitbox_wallet_app.Maketx.Propose.{Env, retry, done, round, new_tx_loop}
use bitbox_wallet_app.Maketx.Propose.Step.{round-eq-ok}
use bitbox_wallet_app.Maketx.Propose.Sums.{conclude-eq-ok}

module _ (env : Env) (coin : CoinCode) (rate : Int64) (spendable : List Coin) (output : TxOut)
    (change : AccountAddress) where
  pub retry-le :
      (target_fee fee : Int64)
      → rate < modulus
      → round env coin rate spendable output change target_fee ≡ ok (retry fee)
      → fee ≤ max_satoshi
  retry-le target_fee fee h r =
      let (s, o) = round-eq-ok env coin rate spendable output change target_fee (retry fee) r in
      elim o [
        | inl (_, same) ↦
            let eq : fee ≡ fee_for_serialize_size rate s.size = cc in
            rw eq (fee_le_max rate s.size h)
        | inr (_, (p, other, _)) ↦ cc
      ]

  -- The round that made the proposal of the loop.
  pub new_tx_loop-eq-ok :
      (fuel : ℕ) (target_fee : Int64) (p : TxProposal)
      → rate < modulus
      → target_fee ≤ max_satoshi
      → new_tx_loop env coin rate spendable output change fuel target_fee ≡ ok p
      → (fee : Int64) × (fee ≤ max_satoshi)
        × (round env coin rate spendable output change fee ≡ ok (done p))
  unfolding new_tx_loop
  new_tx_loop-eq-ok zero fee p h k e = cc
  new_tx_loop-eq-ok (suc fuel) fee p h k e =
      elim (conclude-eq-ok (new_tx_loop env coin rate spendable output change fuel)
        (round env coin rate spendable output change fee) e) [
          | inl (fee', r, e') ↦ new_tx_loop-eq-ok fuel fee' p h (retry-le fee fee' h r) e'
          | inr r ↦ (fee, k, r)
        ]
