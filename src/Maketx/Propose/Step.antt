-- ===== src/Maketx/Propose/Step.antt =====
-- What the outcome of one round of NewTx says of the calls in it.
use bitbox_wallet_app.Prelude.{ℕ, ◌≡◌, true, false, List, arith, length, Bool-cases, inl, inr, ◌⊎◌}
use bitbox_wallet_app.Prelude.Int64.{Int64, add, sub, lt}
use bitbox_wallet_app.Prelude.Run.{ok, >>=-eq-ok}
use bitbox_wallet_app.Maketx.Types.{TxOut, Coin, AccountAddress, CoinCode, TxProposal}
use bitbox_wallet_app.Maketx.Size.{estimate_tx_size}
use bitbox_wallet_app.Maketx.Fee.{fee_for_serialize_size}
use bitbox_wallet_app.Maketx.Selection.{coin_selection}
use bitbox_wallet_app.Maketx.Propose.{
  Env, Round, retry, done, to_input_configurations, finish, settle, round,
}

abbrev pub max_total : ℕ
max_total = 4_000_000_000_000_000_000

module _ (env : Env) (coin : CoinCode) (rate : Int64) (spendable : List Coin) (output : TxOut)
    (change : AccountAddress) where
  -- The calls of a round that selects coins.
  pub record Selected (target_fee : Int64) : Type 0 where
    pub sum : Int64
    pub selected : List Coin
    pub size : ℕ
    pub selection :
        coin_selection env.hash_string (add output.value target_fee) spendable ≡ ok (sum, selected)
    pub estimate :
        estimate_tx_size env.var_int_size
          (to_input_configurations selected)
          (length output.pk_script)
          (length change.pubkey_script)
        ≡ ok size

  abbrev pub required : {target_fee : Int64} → Selected target_fee → Int64
  required s = fee_for_serialize_size rate s.size

  settle-eq-ok :
      (sum : Int64) (selected : List Coin) (size : ℕ) (r : Round)
      → settle env coin rate spendable output change sum selected size ≡ ok r
      → (lt (sub sum output.value) (fee_for_serialize_size rate size) ≡ true)
          × (r ≡ retry (fee_for_serialize_size rate size))
        ⊎ (lt (sub sum output.value) (fee_for_serialize_size rate size) ≡ false)
          × ((p : TxProposal) × (r ≡ done p)
              × (finish env coin rate spendable output change sum selected
                    (fee_for_serialize_size rate size)
                  ≡ ok p))
  unfolding settle
  settle-eq-ok sum selected size r e =
      elim (Bool-cases (lt (sub sum output.value) (fee_for_serialize_size rate size))) [
        | inl h ↦ inl (h, ground arith)
        | inr h ↦ inr (h, ground arith)
      ]

  -- What a round returns: the fee to try next, or the proposal.
  abbrev pub Outcome : {target_fee : Int64} → Selected target_fee → Round → Type 0
  Outcome s r =
      (lt (sub s.sum output.value) (required s) ≡ true) × (r ≡ retry (required s))
      ⊎ (lt (sub s.sum output.value) (required s) ≡ false)
        × ((p : TxProposal) × (r ≡ done p)
            × (finish env coin rate spendable output change s.sum s.selected (required s) ≡ ok p))

  pub round-eq-ok :
      (target_fee : Int64) (r : Round)
      → round env coin rate spendable output change target_fee ≡ ok r
      → (s : Selected target_fee) × Outcome s r
  unfolding round
  round-eq-ok target_fee r e =
      let ((sum, selected), chosen, e') =
        >>=-eq-ok (coin_selection env.hash_string (add output.value target_fee) spendable) _ e in
      let (size, estimated, e'') =
        >>=-eq-ok
          (estimate_tx_size env.var_int_size (to_input_configurations selected)
            (length output.pk_script) (length change.pubkey_script))
          _ e' in
      (
        record {
          sum = sum;
          selected = selected;
          size = size;
          selection = chosen;
          estimate = estimated;
        },
        settle-eq-ok sum selected size r e'',
      )
