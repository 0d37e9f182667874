-- ===== src/Maketx/Propose/Ends.antt =====
-- NewTx ends: every further round selects more coins.
use bitbox_wallet_app.Prelude.{
  ℕ, zero, suc, ◌+◌, ◌*◌, ◌-◌, ◌≤◌, ◌<◌, ◌≡◌, refl, ◌∙◌, ap, Bool, List, [], ◌∷◌, arith, length,
  take, ltb, Bool-cases, inl, inr, ◌⊎◌, All, take-All,
}
use bitbox_wallet_app.Prelude.Int64.{
  Int64, modulus, add, sub, mul, quot, lt, add-eq, sub-eq, lt-eq, lt→le_false,
}
use bitbox_wallet_app.Prelude.Run.{Run, ok, err, ◌>>=◌}
use bitbox_wallet_app.Maketx.Types.{
  TxOut, Coin, AccountAddress, CoinCode, TxProposal, Error, insufficient_funds,
}
use bitbox_wallet_app.Maketx.Size.{estimate_tx_size, output_size, calc_input_size}
use bitbox_wallet_app.Maketx.Size.Bounds.{
  IsKnown, script_size, sig_script_witness_size-ok, estimate_tx_size_lem,
}
use bitbox_wallet_app.Maketx.Fee.{max_satoshi, fee_for_serialize_size, is_dust_amount}
use bitbox_wallet_app.Maketx.Fee.Range.{fee_le_max}
use bitbox_wallet_app.Maketx.Selection.{sort_reverse, coin_selection}
use bitbox_wallet_app.Maketx.Selection.Total.{total, total-take-le, total-sorted, total-take_mono}
use bitbox_wallet_app.Maketx.Selection.Sorted.{sort_reverse-All}
use bitbox_wallet_app.Maketx.Selection.Enough.{coin_selection_cases}
use bitbox_wallet_app.Maketx.Propose.{
  Env, retry, done, to_input_configurations, finish, propose, change_amount, settle, round,
  new_tx_loop, new_tx,
}
use bitbox_wallet_app.Maketx.Propose.Step.{max_total}

-- Every coin has a script type that the size estimate knows.
abbrev pub AllKnown : List Coin → Type 0
AllKnown = All (λ c. IsKnown c.utxo.configuration)

pub map-AllKnown : (cs : List Coin) → AllKnown cs → All IsKnown (to_input_configurations cs)
unfolding to_input_configurations
map-AllKnown [] h = tt
map-AllKnown (c ∷ cs) h = (h.0, map-AllKnown cs h.1)

module _ (env : Env) (coin : CoinCode) (rate : Int64) (spendable : List Coin) (output : TxOut)
    (change : AccountAddress) where
  -- The fee of a round is the one that some of the largest coins need.
  abbrev pub IsAsked : Int64 → Type 0
  IsAsked fee =
      (fee ≡ 0)
      ⊎ ((count size : ℕ) × (estimate_tx_size env.var_int_size
              (to_input_configurations (take count (sort_reverse env.hash_string spendable)))
              (length output.pk_script) (length change.pubkey_script)
            ≡ ok size)
          × (fee ≡ fee_for_serialize_size rate size))

  -- The two ways in which NewTx ends.
  abbrev pub Ends : Run Error TxProposal → Type 0
  Ends r =
      ((p : TxProposal) × (r ≡ ok p))
      ⊎ (r ≡ err insufficient_funds)
        × ((fee : Int64) × IsAsked fee × (total spendable < output.value + fee))

module _ (env : Env) (coin : CoinCode) (rate : Int64) (spendable : List Coin) (output : TxOut)
    (change : AccountAddress) (rate_fits : rate < modulus)
    (total_fits : total spendable ≤ max_total) (target_fits : output.value ≤ max_total)
    (known : AllKnown spendable) (change_known : IsKnown change.configuration) where
  abbrev Asked : Int64 → Type 0
  Asked = IsAsked env coin rate spendable output change

  abbrev sorted : List Coin
  sorted = sort_reverse env.hash_string spendable

  is_dust_amount-ok :
      (amount : Int64) (size : ℕ)
      → (b : Bool) × (is_dust_amount env.var_int_size amount size change.configuration rate ≡ ok b)
  unfolding is_dust_amount
  is_dust_amount-ok amount size =
      let v = env.var_int_size in
      let c = change.configuration in
      (
        lt (quot (mul amount 1000) (3 * (output_size v size + calc_input_size v (script_size c))))
            rate,
        rw (sig_script_witness_size-ok v c change_known) refl,
      )

  finish-ok :
      (sum : Int64) (selected : List Coin) (fee : Int64)
      → (p : TxProposal) × (finish env coin rate spendable output change sum selected fee ≡ ok p)
  unfolding finish
  finish-ok sum selected fee =
      let (dust, e) =
        is_dust_amount-ok (change_amount env coin rate spendable output change sum fee)
          (length change.pubkey_script) in
      (propose env coin rate spendable output change sum selected fee dust, rw e refl)

  -- No prefix of less than `bound` coins pays the target and the fee.
  abbrev TooFew : ℕ → Int64 → Type 0
  TooFew bound fee = (j : ℕ) → j < bound → total (take j sorted) < output.value + fee

  data RoundCase (target_fee : Int64) (bound : ℕ) : Type 0 where
    short :
        total spendable < output.value + target_fee
        → round env coin rate spendable output change target_fee ≡ err insufficient_funds
        → RoundCase target_fee bound
    again :
        (fee : Int64)
        → fee ≤ max_satoshi
        → Asked fee
        → bound ≤ length spendable
        → TooFew (suc bound) fee
        → round env coin rate spendable output change target_fee ≡ ok (retry fee)
        → RoundCase target_fee bound
    end :
        (p : TxProposal)
        → round env coin rate spendable output change target_fee ≡ ok (done p)
        → RoundCase target_fee bound

  -- A round whose selection and size are known.
  settle_cases :
      (target_fee : Int64) (bound count : ℕ)
      → TooFew bound target_fee
      → count ≤ length spendable
      → output.value + target_fee ≤ total (take count sorted)
      → round env coin rate spendable output change target_fee ≡ (
          estimate_tx_size env.var_int_size
            (to_input_configurations (take count sorted))
            (length output.pk_script)
            (length change.pubkey_script)
          >>= settle env coin rate spendable output change
              (total (take count sorted))
              (take count sorted))
      → RoundCase target_fee bound
  unfolding settle
  settle_cases target_fee bound count few inside enough e =
      let taken = take count sorted in
      let paid = total taken in
      let (size, estimated, _, _) =
        estimate_tx_size_lem env.var_int_size (to_input_configurations taken)
          (length output.pk_script) (length change.pubkey_script)
          (map-AllKnown taken (
            take-All (λ c. IsKnown c.utxo.configuration) count sorted
              (sort_reverse-All env.hash_string (λ c. IsKnown c.utxo.configuration) spendable
                known))) in
      let fee = fee_for_serialize_size rate size in
      let fee_small = fee_le_max rate size rate_fits in
      let all = total-sorted env.hash_string spendable in
      let part = total-take-le count sorted in
      let apart : bound ≤ count = elim (Bool-cases (ltb count bound)) [
        | inl l ↦ absurd (omega (arith, few count (ground arith)))
        | inr l ↦ ground arith
      ] in
      let left = sub-eq paid output.value (omega arith) (omega arith) in
      let order = lt-eq (paid - output.value) fee (omega arith) (omega arith) in
      elim (Bool-cases (lt (sub paid output.value) fee)) [
        | inl h ↦
            let low : paid - output.value < fee = ground arith in
            again fee fee_small (inr (count, size, estimated, refl)) (omega arith)
              (λ j p. omega (arith, total-take_mono j count sorted (omega arith)))
              (e ∙ rw (estimated, h))
        | inr h ↦ let (p, r) = finish-ok paid taken fee in end p (e ∙ rw (estimated, h, r))
      ]

  round-select :
      (target_fee sum : Int64) (selected : List Coin)
      → coin_selection env.hash_string (add output.value target_fee) spendable ≡ ok (sum, selected)
      → round env coin rate spendable output change target_fee ≡ (
          estimate_tx_size env.var_int_size
            (to_input_configurations selected)
            (length output.pk_script)
            (length change.pubkey_script)
          >>= settle env coin rate spendable output change sum selected)
  unfolding round
  round-select target_fee sum selected e = rw e refl

  round_cases :
      (target_fee : Int64) (bound : ℕ)
      → target_fee ≤ max_satoshi
      → TooFew bound target_fee
      → RoundCase target_fee bound
  unfolding round
  round_cases fee bound small few =
      let sum_eq = add-eq output.value fee (omega arith) in
      let (count, found, inside, c) =
        coin_selection_cases env.hash_string (output.value + fee) spendable (omega arith)
          (omega arith) in
      elim c [
        | inl (_, enough, r) ↦
            settle_cases fee bound count few inside enough (
              round-select fee _ _
                (ap (λ t. coin_selection env.hash_string t spendable) sum_eq ∙ r))
        | inr (low, r) ↦ short low (rw (sum_eq, r) refl)
      ]

  new_tx_loop-Ends :
      (fuel bound : ℕ) (target_fee : Int64)
      → target_fee ≤ max_satoshi
      → Asked target_fee
      → bound ≤ length spendable + 1
      → length spendable + 1 < fuel + bound
      → TooFew bound target_fee
      → Ends env coin rate spendable output change
          (new_tx_loop env coin rate spendable output change fuel target_fee)
  unfolding new_tx_loop
  new_tx_loop-Ends zero bound fee small asked inside enough few = absurd (omega arith)
  new_tx_loop-Ends (suc fuel) bound fee small asked inside enough few =
      elim (round_cases fee bound small few) [
        | short low r ↦ inr (rw (r, new_tx_loop), (fee, asked, low))
        | again fee' small' asked' room few' r ↦
            rw (r, new_tx_loop)
              (new_tx_loop-Ends fuel (suc bound) fee' small' asked' (omega arith) (omega arith)
                few')
        | end p r ↦ inl (p, rw (r, new_tx_loop))
      ]

  -- NewTx always ends within the fuel: it returns a proposal, or it reports insufficient funds, and
  -- then the coins together pay less than the amount and a fee that the loop asked for (zero, or the
  -- fee for a transaction that spends some of the largest coins). Assumed are a positive amount, sums
  -- below 4e18 satoshi, and script types that the size estimate knows.
  pub new_tx-Ends :
      0 < output.value
      → Ends env coin rate spendable output change (new_tx env coin rate spendable output change)
  unfolding new_tx
  new_tx-Ends positive = rw (lt→le_false output.value 0 positive (omega arith)) (
      new_tx_loop-Ends (length spendable + 2) 0 0 (omega arith) (inl refl) (omega arith)
        (omega arith) (λ j p. absurd (omega arith)))
