-- ===== src/Headers/Target/Clamp.antt =====
-- How far the difficulty moves.
use bitbox_wallet_app.Prelude.{ℕ, ◌*◌, ◌/◌, ◌≤◌, ◌<◌, arith}
use native.Mathlib.Nat.{mul_left_comm, mul-le-mul_left, div-le_self, div-le_of_le-mul}
use bitbox_wallet_app.Prelude.Int64.{Int64, half, modulus, lt}
use bitbox_wallet_app.Headers.Net.{Params}
use bitbox_wallet_app.Headers.Target.{clamp_timespan, new_target}

scale : (l c t f : ℕ) → c ≤ t * f → l * c ≤ t * (l * f)
scale l c t f h = rw (mul_left_comm t l f) (mul-le-mul_left l h)

module _ (params : Params) (factor_pos : 0 < params.retarget_adjustment_factor)
    (timespan_pos : 0 < params.target_timespan)
    (fits : params.target_timespan * params.retarget_adjustment_factor < half) where
  -- Where the adjustment factor and the target time span are positive and their product fits in
  -- int64, the clamped time between two headers, whatever it is, negative times included, is at
  -- least the time span divided by the factor and at most the time span times the factor.
  pub clamp_timespan_bounds :
      (timespan : Int64)
      → timespan < modulus
      → (params.target_timespan / params.retarget_adjustment_factor
          ≤ clamp_timespan params timespan)
        × (clamp_timespan params timespan
            ≤ params.target_timespan * params.retarget_adjustment_factor)
  unfolding clamp_timespan lt
  clamp_timespan_bounds timespan h =
      let low = div-le_self params.target_timespan params.retarget_adjustment_factor in
      let high : params.target_timespan
          ≤ params.target_timespan * params.retarget_adjustment_factor =
        grind arith in
      ground arith

  -- Where the adjustment factor and the target time span are positive and their product fits in
  -- int64, the new target, whatever the time stamps, is at most the limit, and at most the last target times
  -- the adjustment factor.
  pub new_target_bounds :
      (last_target : ℕ) (timespan : Int64)
      → timespan < modulus
      → (new_target params last_target timespan ≤ params.pow_limit)
        × (new_target params last_target timespan ≤ last_target * params.retarget_adjustment_factor)
  unfolding new_target
  new_target_bounds last_target timespan h =
      let clamped = clamp_timespan params timespan in
      let (_, high) = clamp_timespan_bounds timespan h in
      let product : last_target * clamped
          ≤ params.target_timespan * (last_target * params.retarget_adjustment_factor) =
        scale last_target clamped params.target_timespan params.retarget_adjustment_factor high in
      let bound = div-le_of_le-mul params.target_timespan product in ground arith
