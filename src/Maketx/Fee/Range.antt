-- ===== src/Maketx/Fee/Range.antt =====
-- The range of the fee, for every rate and size.
use bitbox_wallet_app.Prelude.{
  ℕ, ◌+◌, ◌*◌, ◌/◌, ◌≤◌, ◌<◌, ◌≡◌, arith, ltb, ltb→lt, lt→ltb, true, ap, ◌∙◌, ◌↔◌, refl, ◌⊎◌, inl,
  inr,
}
use native.Mathlib.Nat.{div-lt_iff_lt-mul}
use bitbox_wallet_app.Prelude.Int64.{
  Int64, modulus, half, mul, quot, lt, is_negative, mul-eq, quot-eq, lt-eq,
}
use bitbox_wallet_app.Prelude.Run.{ok, ok_unique}
use bitbox_wallet_app.Maketx.Types.{ScriptType}
use bitbox_wallet_app.Maketx.Size.{sig_script_witness_size, calc_input_size, output_size}
use bitbox_wallet_app.Maketx.Fee.{max_satoshi, raw_fee, fee_for_serialize_size, is_dust_amount}

pub fee_le_max :
    (rate : Int64) (size : ℕ) → rate < modulus → fee_for_serialize_size rate size ≤ max_satoshi
unfolding fee_for_serialize_size is_negative lt
fee_le_max rate size h = ground arith

raw_fee_pos : (rate : Int64) (size : ℕ) → 0 < rate → rate < half → 0 < raw_fee rate size
unfolding raw_fee lt
raw_fee_pos rate size h k = ground arith

fee_pos : (rate : Int64) (size : ℕ) → 0 < rate → rate < half → 0 < fee_for_serialize_size rate size
unfolding fee_for_serialize_size
fee_pos rate size p q = ground (arith, raw_fee_pos rate size p q)

-- Whatever the rate and the size, the multiplication that overflows included, the fee is at most
-- MaxSatoshi; and it is not zero, or the rate is zero or negative.
pub fee_in_range :
    (rate : Int64) (size : ℕ)
    → rate < modulus
    → (fee_for_serialize_size rate size ≤ max_satoshi)
      × ((0 < fee_for_serialize_size rate size) ⊎ (rate ≡ 0) ⊎ (half ≤ rate))
fee_in_range rate size h =
    (fee_le_max rate size h, positive_or (omega arith) (λ p q. fee_pos rate size p q))
  where
    positive_or :
        (rate ≡ 0) ⊎ (half ≤ rate) ⊎ (0 < rate) × (rate < half)
        → (0 < rate → rate < half → 0 < fee_for_serialize_size rate size)
        → (0 < fee_for_serialize_size rate size) ⊎ (rate ≡ 0) ⊎ (half ≤ rate)
    positive_or (inl e) f = inr (inl e)
    positive_or (inr (inl e)) f = inr (inr e)
    positive_or (inr (inr (p, q))) f = inl (f p q)

-- Where rate * size does not overflow and a thousandth of it, rounded down, is at most MaxSatoshi, the
-- fee is at least that.
pub fee_covers_rate :
    (rate : Int64) (size : ℕ)
    → rate * size < half
    → rate < half
    → rate * size / 1000 ≤ max_satoshi
    → rate * size / 1000 ≤ fee_for_serialize_size rate size
unfolding fee_for_serialize_size is_negative lt mul quot
fee_covers_rate rate size h k m = ground arith

abbrev pub spend_size : (ℕ → ℕ) → ℕ → ℕ → ℕ
spend_size v n sig_script_size = output_size v n + calc_input_size v sig_script_size

is_dust_amount-eq :
    (v : ℕ → ℕ) (amount : Int64) (n : ℕ) (c : ScriptType) (rate : Int64) (sizes : ℕ × ℕ)
    → sig_script_witness_size v c ≡ ok sizes
    → amount * 1000 < half
    → rate < half
    → is_dust_amount v amount n c rate
      ≡ ok (ltb (amount * 1000 / (3 * spend_size v n sizes.0)) rate)
unfolding is_dust_amount
is_dust_amount-eq v amount n c rate sizes e h k =
    let d = 3 * spend_size v n sizes.0 in
    let small : amount * 1000 / d < half = grind arith in
    rw (e, mul-eq amount 1000 (omega arith), quot-eq (amount * 1000) d h, lt-eq _ rate small k) refl

calc_input_size_pos : (v : ℕ → ℕ) (n : ℕ) → 0 < calc_input_size v n
unfolding calc_input_size
calc_input_size_pos v n = omega arith

-- Where amount * 1000 does not overflow and the script type is known, an amount that is not negative is dust exactly if it is less than three times
-- the cost, at the rate, of the bytes of its output and of the input that spends it.
pub is_dust_amount_lem :
    (var_int_size : ℕ → ℕ) (amount : Int64) (pk_script_size : ℕ) (configuration : ScriptType)
    (rate : Int64) (sizes : ℕ × ℕ)
    → sig_script_witness_size var_int_size configuration ≡ ok sizes
    → amount * 1000 < half
    → rate < half
    → (is_dust_amount var_int_size amount pk_script_size configuration rate ≡ ok true)
      ↔ (amount * 1000 < rate * (3 * spend_size var_int_size pk_script_size sizes.0))
is_dust_amount_lem v amount n c rate sizes e h k =
    let r = is_dust_amount-eq v amount n c rate sizes e h k in
    let pos = calc_input_size_pos v sizes.0 in
    let (from, to) =
      div-lt_iff_lt-mul {k = 3 * spend_size v n sizes.0} {x = amount * 1000} {y = rate}
        (omega arith) in
    (λ d. from (ltb→lt _ _ (ok_unique r d)), λ less. r ∙ ap ok (lt→ltb _ _ (to less)))
