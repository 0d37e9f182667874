-- ===== src/Maketx/Propose/Balance.antt =====
-- What the proposal of NewTx spends and pays.
use bitbox_wallet_app.Prelude.{
  ℕ, ◌+◌, ◌-◌, ◌≤◌, ◌<◌, ◌≡◌, refl, sym, ap, ◌∙◌, Bool, true, false, List, [], ◌∷◌, arith, length,
  take, Bool-cases, inl, inr, ◌⊎◌, none, some, map, ◌==◌,
}
use mathlib.Core.Path.{subst}
use mathlib.Core.List.Perm
use mathlib.Core.List.{Perm}
use bitbox_wallet_app.Prelude.Int64.{Int64, modulus, add, sub, lt, le, add-eq, sub-eq, lt-eq}
use bitbox_wallet_app.Prelude.Run.{ok, >>=-eq-ok}
use bitbox_wallet_app.Maketx.Types.{TxIn, TxOut, Coin, AccountAddress, CoinCode, TxProposal}
use bitbox_wallet_app.Maketx.Size.{estimate_tx_size}
use bitbox_wallet_app.Maketx.Fee.{max_satoshi, fee_for_serialize_size, is_dust_amount}
use bitbox_wallet_app.Maketx.Fee.Range.{fee_le_max}
use bitbox_wallet_app.Maketx.Selection.{sort_reverse, coin_selection}
use bitbox_wallet_app.Maketx.Selection.Total.{total, total-take-le, total-sorted}
use bitbox_wallet_app.Maketx.Selection.Enough.{coin_selection_cases}
use bitbox_wallet_app.Maketx.Propose.{
  Env, done, to_input_configurations, finish, propose, previous_output, has_change, change_amount,
  new_tx_in, new_tx, set_rbf, shuffle_tx_inputs_and_outputs,
}
use bitbox_wallet_app.Maketx.Propose.Step.{max_total, round-eq-ok}
use bitbox_wallet_app.Maketx.Propose.Sums.{
  paid_out, spent, spent-map, paid_out-perm, set_rbf-inputs, map-new_tx_in, panic≢ok,
}
use bitbox_wallet_app.Maketx.Propose.Rounds.{new_tx_loop-eq-ok}

-- What NewTx promises of a proposal: it spends the first `count` of the coins in descending order.
pub record IsProposal (env : Env) (coin : CoinCode) (rate : Int64) (spendable : List Coin)
    (output : TxOut) (change : AccountAddress) (p : TxProposal) : Type 0 where
  pub count : ℕ
  pub size : ℕ
  pub estimated :
      estimate_tx_size env.var_int_size
        (to_input_configurations (take count (sort_reverse env.hash_string spendable)))
        (length output.pk_script)
        (length change.pubkey_script)
      ≡ ok size
  pub inputs :
      p.previous_outputs ≡ map previous_output (take count (sort_reverse env.hash_string spendable))
  pub in_perm :
      Perm
        (map (λ i. i.previous_out_point) p.transaction.tx_in)
        (map (λ c. c.out_point) (take count (sort_reverse env.hash_string spendable)))
  pub balanced : spent p.previous_outputs ≡ paid_out p.transaction.tx_out + p.fee
  pub pays_target : p.amount ≡ output.value
  pub pays_fee : fee_for_serialize_size rate size ≤ p.fee
  pub outputs :
      (p.change_address ≡ none) × Perm p.transaction.tx_out (output ∷ [])
      ⊎ (p.change_address ≡ some change)
        × (p.fee ≡ fee_for_serialize_size rate size)
        × ((amount : Int64) × (0 < amount)
            × (is_dust_amount env.var_int_size amount
                  (length change.pubkey_script)
                  change.configuration
                  rate
                ≡ ok false)
            × Perm p.transaction.tx_out
                (output ∷ record { value = amount; pk_script = change.pubkey_script } ∷ []))

module _ (env : Env) (coin : CoinCode) (rate : Int64) (spendable : List Coin) (output : TxOut)
    (change : AccountAddress) (rate_fits : rate < modulus)
    (total_fits : total spendable ≤ max_total) (target_fits : output.value ≤ max_total)
    (shuffles_in : (l : List TxIn) → Perm (env.shuffle_in l) l)
    (shuffles_out : (l : List TxOut) → Perm (env.shuffle_out l) l) where
  abbrev made : ℕ → ℕ → Bool → TxProposal
  made count fee dust =
      let taken = take count (sort_reverse env.hash_string spendable) in
      propose env coin rate spendable output change (total taken) taken fee dust

  paid_out-shuffle : (l : List TxOut) → paid_out (env.shuffle_out l) ≡ paid_out l
  paid_out-shuffle l = paid_out-perm (shuffles_out l)

  module _ (count fee : ℕ)
      (paid : output.value + fee
        ≤ total (take count (sort_reverse env.hash_string spendable))) where
    abbrev taken : List Coin
    taken = take count (sort_reverse env.hash_string spendable)

    whole : total taken ≤ max_total
    whole = omega (
      arith,
      total-sorted env.hash_string spendable,
      total-take-le count (sort_reverse env.hash_string spendable),
    )

    above : sub (total taken) output.value ≡ total taken - output.value
    above = sub-eq (total taken) output.value (omega arith) (omega (arith, whole))

    left :
        change_amount env coin rate spendable output change (total taken) fee
        ≡ total taken - output.value - fee
    left = rw above (sub-eq (total taken - output.value) fee (omega arith) (omega (arith, whole)))

    made-out :
        (dust : Bool)
        → (paid_out (made count fee dust).transaction.tx_out + (made count fee dust).fee
            ≡ total taken)
          × (fee ≤ (made count fee dust).fee)
    unfolding propose has_change set_rbf shuffle_tx_inputs_and_outputs
    made-out true = (rw (paid_out-shuffle, left, above) (ground arith), rw above (omega arith))
    made-out false = rw (paid_out-shuffle, left) (ground arith)

    made-outputs :
        (dust : Bool)
        → is_dust_amount env.var_int_size
            (change_amount env coin rate spendable output change (total taken) fee)
            (length change.pubkey_script)
            change.configuration
            rate
          ≡ ok dust
        → ((made count fee dust).change_address ≡ none)
            × Perm (made count fee dust).transaction.tx_out (output ∷ [])
          ⊎ ((made count fee dust).change_address ≡ some change)
            × ((made count fee dust).fee ≡ fee)
            × ((amount : Int64) × (0 < amount)
                × (is_dust_amount env.var_int_size amount
                      (length change.pubkey_script)
                      change.configuration
                      rate
                    ≡ ok false)
                × Perm
                    (made count fee dust).transaction.tx_out
                    (output ∷ record { value = amount; pk_script = change.pubkey_script } ∷ []))
    unfolding propose has_change set_rbf shuffle_tx_inputs_and_outputs
    made-outputs true e =
        let amount = change_amount env coin rate spendable output change (total taken) fee in
        elim (Bool-cases (amount == 0)) [
          | inl z ↦ inl (rw z refl, rw z (shuffles_out (output ∷ [])))
          | inr z ↦ inl (rw z refl, rw z (shuffles_out (output ∷ [])))
        ]
    made-outputs false e =
        let amount = change_amount env coin rate spendable output change (total taken) fee in
        elim (Bool-cases (amount == 0)) [
          | inl z ↦ inl (rw z refl, rw z (shuffles_out (output ∷ [])))
          | inr z ↦ inr (rw z refl, refl, (amount, ground arith, e, rw z (shuffles_out _)))
        ]

    made-inputs :
        (dust : Bool)
        → Perm
            (map (λ i. i.previous_out_point) (made count fee dust).transaction.tx_in)
            (map (λ c. c.out_point) taken)
    unfolding propose shuffle_tx_inputs_and_outputs
    made-inputs dust =
        rw (set_rbf-inputs, ← map-new_tx_in)
          (Perm.map (λ i. i.previous_out_point) (shuffles_in (map new_tx_in taken)))

  made-IsProposal :
      (count size : ℕ)
      → estimate_tx_size env.var_int_size
          (to_input_configurations (take count (sort_reverse env.hash_string spendable)))
          (length output.pk_script)
          (length change.pubkey_script)
        ≡ ok size
      → output.value + fee_for_serialize_size rate size
        ≤ total (take count (sort_reverse env.hash_string spendable))
      → (dust : Bool)
      → is_dust_amount env.var_int_size
          (change_amount env coin rate spendable output change
            (total (take count (sort_reverse env.hash_string spendable)))
            (fee_for_serialize_size rate size))
          (length change.pubkey_script)
          change.configuration
          rate
        ≡ ok dust
      → IsProposal env coin rate spendable output change
          (made count (fee_for_serialize_size rate size) dust)
  unfolding propose
  made-IsProposal count size estimated paid dust d =
      let fee = fee_for_serialize_size rate size in
      let (balance, covers) = made-out count fee paid dust in
      record {
        count = count;
        size = size;
        estimated = estimated;
        inputs = refl;
        in_perm = made-inputs count fee paid dust;
        balanced = spent-map (take count (sort_reverse env.hash_string spendable)) ∙ sym balance;
        pays_target = refl;
        pays_fee = covers;
        outputs = made-outputs count fee paid dust d;
      }

  finish-IsProposal :
      (count size : ℕ) (p : TxProposal)
      → estimate_tx_size env.var_int_size
          (to_input_configurations (take count (sort_reverse env.hash_string spendable)))
          (length output.pk_script)
          (length change.pubkey_script)
        ≡ ok size
      → output.value + fee_for_serialize_size rate size
        ≤ total (take count (sort_reverse env.hash_string spendable))
      → finish env coin rate spendable output change
          (total (take count (sort_reverse env.hash_string spendable)))
          (take count (sort_reverse env.hash_string spendable))
          (fee_for_serialize_size rate size)
        ≡ ok p
      → IsProposal env coin rate spendable output change p
  unfolding finish
  finish-IsProposal count size p estimated paid e =
      let taken = take count (sort_reverse env.hash_string spendable) in
      let fee = fee_for_serialize_size rate size in
      let (dust, d, e') =
        >>=-eq-ok
          (is_dust_amount env.var_int_size
            (change_amount env coin rate spendable output change (total taken) fee)
            (length change.pubkey_script) change.configuration rate)
          _ e in
      let same : made count fee dust ≡ p = cc in
      subst (IsProposal env coin rate spendable output change) same
        (made-IsProposal count size estimated paid dust d)

  -- The test that lets a round finish.
  paid-le :
      (target_fee : Int64) (count size : ℕ)
      → target_fee ≤ max_satoshi
      → output.value ≤ total (take count (sort_reverse env.hash_string spendable))
      → lt
          (sub (total (take count (sort_reverse env.hash_string spendable))) output.value)
          (fee_for_serialize_size rate size)
        ≡ false
      → output.value + fee_for_serialize_size rate size
        ≤ total (take count (sort_reverse env.hash_string spendable))
  paid-le target_fee count size small reached h =
      let paid = total (take count (sort_reverse env.hash_string spendable)) in
      let fee = fee_for_serialize_size rate size in
      let fee_small = fee_le_max rate size rate_fits in
      let all = total-sorted env.hash_string spendable in
      let part = total-take-le count (sort_reverse env.hash_string spendable) in
      let left = sub-eq paid output.value reached (omega arith) in
      let order = lt-eq (paid - output.value) fee (omega arith) (omega arith) in ground arith

  selected-IsProposal :
      (target_fee sum : Int64) (selected : List Coin) (size : ℕ) (p : TxProposal)
      → target_fee ≤ max_satoshi
      → coin_selection env.hash_string (add output.value target_fee) spendable ≡ ok (sum, selected)
      → estimate_tx_size env.var_int_size
          (to_input_configurations selected)
          (length output.pk_script)
          (length change.pubkey_script)
        ≡ ok size
      → lt (sub sum output.value) (fee_for_serialize_size rate size) ≡ false
      → finish env coin rate spendable output change sum selected (fee_for_serialize_size rate size)
        ≡ ok p
      → IsProposal env coin rate spendable output change p
  selected-IsProposal target_fee sum selected size p small chosen estimated enough e =
      let sum_eq = add-eq output.value target_fee (omega arith) in
      let (count, _, _, c) =
        coin_selection_cases env.hash_string (output.value + target_fee) spendable (omega arith)
          (omega arith) in
      elim c [
        | inl (_, reached, r) ↦
            let both = ap (λ t. coin_selection env.hash_string t spendable) (sym sum_eq) in
            let sum_is : sum ≡ total (take count (sort_reverse env.hash_string spendable)) = cc in
            let selected_is : selected ≡ take count (sort_reverse env.hash_string spendable) = cc in
            finish-IsProposal count size p (rw selected_is at estimated)
              (paid-le target_fee count size small (omega arith) (rw sum_is at enough))
              (rw (sum_is, selected_is) at e)
        | inr (_, r) ↦
            let both = ap (λ t. coin_selection env.hash_string t spendable) (sym sum_eq) in cc
      ]

  -- A proposal that NewTx returns spends a prefix of the coins in descending order, each input once; what
  -- it spends is what it pays out and the fee; the fee is at least the one for the estimated size; and
  -- its outputs are the target alone, or the target and a change output above the dust limit with
  -- exactly that fee. Assumed are sums below 4e18 satoshi and that the shuffles permute.
  pub new_tx-IsProposal :
      (p : TxProposal)
      → new_tx env coin rate spendable output change ≡ ok p
      → IsProposal env coin rate spendable output change p
  unfolding new_tx
  new_tx-IsProposal p e = elim (Bool-cases (le output.value 0)) [
    | inl h ↦ absurd (panic≢ok (rw h at e))
    | inr h ↦
        let (fee, small, r) =
          new_tx_loop-eq-ok env coin rate spendable output change (length spendable + 2) 0 p
            rate_fits (omega arith) (rw h at e) in
        let (s, o) = round-eq-ok env coin rate spendable output change fee (done p) r in
        elim o [
          | inl (_, other) ↦ cc
          | inr (enough, (q, same, made_it)) ↦
              let q_eq : q ≡ p = cc in
              selected-IsProposal fee s.sum s.selected s.size p small s.selection s.estimate enough
                (made_it ∙ ap ok q_eq)
        ]
  ]
