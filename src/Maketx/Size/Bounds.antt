-- ===== src/Maketx/Size/Bounds.antt =====
-- The estimate returns for every known script type, with the size that a sum over the inputs gives.
use bitbox_wallet_app.Prelude.{
  ℕ, ◌+◌, ◌*◌, ◌≤◌, ◌<◌, ◌≡◌, refl, ap, ◌∙◌, Bool, true, false, List, [], ◌∷◌, arith, length, All,
  ◌==◌, if◌then◌else◌, ◌&&◌, ◌||◌, ltb, Bool-cases, inl, inr,
}
use bitbox_wallet_app.Prelude.Run.{ok}
use bitbox_wallet_app.Maketx.Types.{ScriptType, p2pkh, p2wpkh_p2sh, p2wpkh, p2tr, unknown}
use bitbox_wallet_app.Maketx.Size.{
  calc_input_size, sig_script_witness_size, is_segwit, add_inputs, round_up, base_weight,
  output_size, witness_v0_size, estimate_tx_size,
}

abbrev pub is_known : ScriptType → Bool
is_known unknown = false
is_known _ = true

abbrev pub IsKnown : ScriptType → Type 0
IsKnown c = is_known c ≡ true

-- The size of the signature script and of the witness, by themselves.
abbrev pub script_size : ScriptType → ℕ
script_size p2pkh = 107
script_size p2wpkh_p2sh = 23
script_size _ = 0

module _ (var_int_size : ℕ → ℕ) where
  abbrev pub witness_size : ScriptType → ℕ
  witness_size p2pkh = 0
  witness_size p2tr = var_int_size 1 + var_int_size 64 + 64
  witness_size _ = var_int_size 2 + var_int_size 72 + 72 + var_int_size 33 + 33

  pub sig_script_witness_size-ok :
      (c : ScriptType)
      → IsKnown c
      → sig_script_witness_size var_int_size c ≡ ok (script_size c, witness_size c)
  unfolding sig_script_witness_size witness_v0_size
  sig_script_witness_size-ok p2pkh h = refl
  sig_script_witness_size-ok p2wpkh_p2sh h = refl
  sig_script_witness_size-ok p2wpkh h = refl
  sig_script_witness_size-ok p2tr h = refl
  sig_script_witness_size-ok unknown h = cc

  abbrev pub any_witness : List ScriptType → Bool
  any_witness [] = false
  any_witness (c ∷ cs) = ltb 0 (witness_size c) || any_witness cs

  -- The weight units of one input: four for each byte outside the witness, one in it, and the count
  -- of an empty witness in a transaction that has witnesses.
  abbrev input_weight : Bool → ScriptType → ℕ
  input_weight segwit c =
      4 * (32 + 4 + var_int_size (script_size c) + script_size c + 4)
      + witness_size c
      + (if segwit && witness_size c == 0 then var_int_size 0 else 0)

  abbrev inputs_weight : Bool → List ScriptType → ℕ
  inputs_weight segwit [] = 0
  inputs_weight segwit (c ∷ cs) = input_weight segwit c + inputs_weight segwit cs

  is_segwit-ok :
      (cs : List ScriptType) → All IsKnown cs → is_segwit var_int_size cs ≡ ok (any_witness cs)
  unfolding is_segwit
  is_segwit-ok [] h = refl
  is_segwit-ok (c ∷ cs) h =
      rw (sig_script_witness_size-ok c h.0) (ground (arith, is_segwit-ok cs h.1))

  add_inputs-ok :
      (segwit : Bool) (cs : List ScriptType) (weight : ℕ)
      → All IsKnown cs
      → add_inputs var_int_size segwit cs weight ≡ ok (weight + inputs_weight segwit cs)
  unfolding add_inputs calc_input_size
  add_inputs-ok segwit [] weight h = ground arith
  add_inputs-ok segwit (c ∷ cs) weight h =
      rw (sig_script_witness_size-ok c h.0) (elim (Bool-cases (segwit && witness_size c == 0)) [
        | inl e ↦ rw (e, add_inputs-ok segwit cs _ h.1) (ground arith)
        | inr e ↦ rw (e, add_inputs-ok segwit cs _ h.1) (ground arith)
      ])

  -- The weight that the code adds up.
  abbrev code_weight : List ScriptType → ℕ → ℕ → ℕ
  code_weight cs output change =
      base_weight var_int_size (length cs) output change
      + inputs_weight (any_witness cs) cs
      + (if any_witness cs then 2 else 0)

  pub estimate_tx_size-ok :
      (cs : List ScriptType) (output change : ℕ)
      → All IsKnown cs
      → estimate_tx_size var_int_size cs output change
        ≡ ok (round_up (code_weight cs output change))
  unfolding estimate_tx_size
  estimate_tx_size-ok cs output change h =
      rw
        (
          is_segwit-ok cs h,
          add_inputs-ok (any_witness cs) cs (base_weight var_int_size (length cs) output change) h,
        )
        (ground arith)

  round_up_bounds :
      (weight : ℕ) → (weight ≤ 4 * round_up weight) × (4 * round_up weight < weight + 4)
  unfolding round_up
  round_up_bounds weight = ground arith

  -- The bytes of the inputs outside the witness: the out point, the signature script behind its
  -- length, and the sequence number.
  abbrev pub inputs_size : List ScriptType → ℕ
  inputs_size [] = 0
  inputs_size (c ∷ cs) = 32 + 4 + var_int_size (script_size c) + script_size c + 4 + inputs_size cs

  -- The bytes of the witnesses; an input without one has the count 0 in its place.
  abbrev pub witnesses_size : List ScriptType → ℕ
  witnesses_size [] = 0
  witnesses_size (c ∷ cs) =
      (if witness_size c == 0 then var_int_size 0 else witness_size c) + witnesses_size cs

  -- The bytes of an output: its value, and its script behind the script's length. No script stands
  -- for no output.
  abbrev pub tx_out_size : ℕ → ℕ
  tx_out_size pk_script = if pk_script == 0 then 0 else 8 + var_int_size pk_script + pk_script

  -- A transaction without its witnesses: the version, the inputs and the outputs behind their counts,
  -- and the locktime.
  abbrev pub base_size : List ScriptType → ℕ → ℕ → ℕ
  base_size cs output change =
      4
      + var_int_size (length cs)
      + inputs_size cs
      + var_int_size (if change == 0 then 1 else 2)
      + tx_out_size output
      + tx_out_size change
      + 4

  -- The same with the witnesses, behind a marker and a flag, if there are any.
  abbrev pub total_size : List ScriptType → ℕ → ℕ → ℕ
  total_size cs output change =
      base_size cs output change + (if any_witness cs then 2 + witnesses_size cs else 0)

  -- The weight of BIP 141.
  abbrev pub tx_weight : List ScriptType → ℕ → ℕ → ℕ
  tx_weight cs output change = 3 * base_size cs output change + total_size cs output change

  inputs_weight-true :
      (cs : List ScriptType) → inputs_weight true cs ≡ 4 * inputs_size cs + witnesses_size cs
  inputs_weight-true [] = refl
  inputs_weight-true (c ∷ cs) = ground (arith, inputs_weight-true cs)

  inputs_weight-false :
      (cs : List ScriptType) → any_witness cs ≡ false → inputs_weight false cs ≡ 4 * inputs_size cs
  inputs_weight-false [] e = refl
  inputs_weight-false (c ∷ cs) e = elim (Bool-cases (ltb 0 (witness_size c))) [
    | inl some_bytes ↦ absurd (true≢false (rw some_bytes at e))
    | inr no_bytes ↦
        let rest = inputs_weight-false cs (rw no_bytes at e) in
        let empty : witness_size c ≡ 0 = ground arith in rw empty (omega (arith, rest))
  ]
    where
      true≢false : true ≡ false → ⊥
      true≢false p = cc

  code_weight-tx_weight :
      (cs : List ScriptType) (output change : ℕ)
      → code_weight cs output change ≡ tx_weight cs output change
  unfolding base_weight output_size
  code_weight-tx_weight cs output change = elim (Bool-cases (any_witness cs)) [
    | inl e ↦ rw e (omega (arith, inputs_weight-true cs))
    | inr e ↦ rw e (omega (arith, inputs_weight-false cs e))
  ]

  -- For known script types the estimate returns the least size of which four times is not below the
  -- weight of the transaction: four times its bytes outside the witness, and those in it.
  pub estimate_tx_size_lem :
      (cs : List ScriptType) (output change : ℕ)
      → All IsKnown cs
      → (size : ℕ) × (estimate_tx_size var_int_size cs output change ≡ ok size)
        × (tx_weight cs output change ≤ 4 * size)
        × (4 * size < tx_weight cs output change + 4)
  estimate_tx_size_lem cs output change h =
      let b = round_up_bounds (tx_weight cs output change) in
      (
        round_up (tx_weight cs output change),
        estimate_tx_size-ok cs output change h
            ∙ ap (λ w. ok (round_up w)) (code_weight-tx_weight cs output change),
        b.0,
        b.1,
      )
