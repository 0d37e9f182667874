-- ===== src/Maketx/Size.antt =====
-- backend/coins/btc/maketx/txsize.go: the estimated virtual size of a transaction.
-- wire.VarIntSerializeSize is a parameter. Sizes are counts of bytes and stay far below 2 ^ 63, so
-- they are plain numbers.
pub mod Bounds
use bitbox_wallet_app.Prelude.{
  ℕ, ◌+◌, ◌*◌, ◌/◌, ◌%◌, Bool, true, false, List, [], ◌∷◌, length, ltb, ◌==◌, if◌then◌else◌, ◌&&◌,
}
use bitbox_wallet_app.Prelude.Run.{Run, ok, panic, ◌>>=◌}
use bitbox_wallet_app.Maketx.Types.{ScriptType, p2pkh, p2wpkh_p2sh, p2wpkh, p2tr, unknown, Error}

abbrev pub signature_size : ℕ
signature_size = 72

abbrev pub pubkey_size : ℕ
pubkey_size = 33

-- weight / 4, rounded up.
unfoldable pub round_up : ℕ → ℕ
round_up weight = if weight % 4 == 0 then weight / 4 else weight / 4 + 1

module _ (var_int_size : ℕ → ℕ) where
  unfoldable pub calc_input_size : ℕ → ℕ
  calc_input_size sig_script_size = 32 + 4 + var_int_size sig_script_size + sig_script_size + 4

  unfoldable pub output_size : ℕ → ℕ
  output_size pk_script_size =
      if pk_script_size == 0 then 0 else 8 + var_int_size pk_script_size + pk_script_size

  unfoldable pub witness_v0_size : ℕ
  witness_v0_size =
      var_int_size 2
      + var_int_size signature_size
      + signature_size
      + var_int_size pubkey_size
      + pubkey_size

  -- The sizes of the signature script and of the witness of an input.
  unfoldable pub sig_script_witness_size : ScriptType → Run Error (ℕ × ℕ)
  sig_script_witness_size p2pkh = ok (1 + 72 + 1 + 33, 0)
  sig_script_witness_size p2wpkh_p2sh = ok (1 + (1 + 1 + 20), witness_v0_size)
  sig_script_witness_size p2wpkh = ok (0, witness_v0_size)
  sig_script_witness_size p2tr = ok (0, var_int_size 1 + var_int_size 64 + 64)
  sig_script_witness_size unknown = panic

  -- The first loop: whether an input has a witness.
  unfoldable pub is_segwit : List ScriptType → Run Error Bool
  is_segwit [] = ok false
  is_segwit (c ∷ cs) = do
    (_, witness_size) ← sig_script_witness_size c
    if ltb 0 witness_size then ok true else is_segwit cs

  -- The second loop: the weight of the inputs, added to the weight so far.
  unfoldable pub add_inputs : Bool → List ScriptType → ℕ → Run Error ℕ
  add_inputs segwit [] weight = ok weight
  add_inputs segwit (c ∷ cs) weight = do
    (sig_script_size, witness_size) ← sig_script_witness_size c
    let weight' = weight + (4 * calc_input_size sig_script_size + witness_size)
    add_inputs segwit cs (if segwit && witness_size == 0 then weight' + var_int_size 0 else weight')

  unfoldable pub base_weight : ℕ → ℕ → ℕ → ℕ
  base_weight inputs output_pk_script_size change_pk_script_size =
      4
      * (4
          + 4
          + var_int_size inputs
          + var_int_size (if change_pk_script_size == 0 then 1 else 2)
          + output_size output_pk_script_size
          + output_size change_pk_script_size)

  unfoldable pub estimate_tx_size : List ScriptType → ℕ → ℕ → Run Error ℕ
  estimate_tx_size configurations output_pk_script_size change_pk_script_size = do
    segwit ← is_segwit configurations
    weight ←
        add_inputs segwit configurations
          (base_weight (length configurations) output_pk_script_size change_pk_script_size)
    ok (round_up (if segwit then weight + 2 else weight))
