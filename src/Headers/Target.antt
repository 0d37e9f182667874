-- ===== src/Headers/Target.antt =====
-- backend/coins/btc/headers/headers.go: getTarget, the difficulty at a height.
-- CompactToBig is a parameter; on the bits of checked headers it gives no negative number.
pub mod Clamp
use bitbox_wallet_app.Prelude.{
  ℕ, zero, suc, ◌+◌, ◌-◌, ◌*◌, ◌/◌, Bool, List, Option, none, some, ltb, ◌==◌, ◌&&◌, ◌||◌,
  if◌then◌else◌,
}
use bitbox_wallet_app.Prelude.Int64.{Int64, sub, lt}
use bitbox_wallet_app.Prelude.Run.{Run, ok, err, panic, ◌>>=◌}
use bitbox_wallet_app.Headers.Db.{Header, header_by_height}
use bitbox_wallet_app.Headers.Net.{Params, is_ltc_main}

pub data Error : Type 0 where
  wrong_genesis prev_hash checkpoint_mismatch unexpected_difficulty insufficient_work : Error
  not_found : ℕ → Error

unfoldable pub require : List Header → ℕ → Run Error Header
require db height = elim (header_by_height db height) [
  | none ↦ err (not_found height)
  | some h ↦ ok h
]

-- The time between the two headers, held between a quarter and four times the intended time (for
-- the usual adjustment factor).
unfoldable pub clamp_timespan : Params → Int64 → Int64
clamp_timespan params timespan =
    let min_timespan = params.target_timespan / params.retarget_adjustment_factor in
    let max_timespan = params.target_timespan * params.retarget_adjustment_factor in
    if lt timespan min_timespan
    then min_timespan
    else (if lt max_timespan timespan then max_timespan else timespan)

unfoldable pub new_target : Params → ℕ → Int64 → ℕ
unfolding clamp_timespan
new_target params last_target timespan =
    let target = last_target * clamp_timespan params timespan / params.target_timespan in
    if ltb params.pow_limit target then params.pow_limit else target

unfoldable pub blocks_per_retarget : Params → ℕ
blocks_per_retarget params = params.target_timespan / params.target_time_per_block

unfoldable pub first_index : Params → ℕ → ℕ
first_index params chunk_index =
    let index = chunk_index * blocks_per_retarget params in
    if is_ltc_main params.net && ltb 0 chunk_index then index - 1 else index

-- Behind the first chunk; the chunk index is the one of the code.
unfoldable pub retarget : (ℕ → ℕ) → Params → List Header → ℕ → Run Error ℕ
retarget compact_to_big params db chunk_index = do
  first ← require db (first_index params chunk_index)
  last ← require db ((chunk_index + 1) * blocks_per_retarget params - 1)
  ok (new_target params (compact_to_big last.bits) (sub last.timestamp first.timestamp))

-- Division by zero panics.
unfoldable pub get_target : (ℕ → ℕ) → Params → List Header → ℕ → Run Error ℕ
get_target compact_to_big params db index =
    let blocks = blocks_per_retarget params in
    if params.target_time_per_block == 0 || blocks == 0 then panic else elim (index / blocks) [
      | zero ↦ ok (compact_to_big params.genesis_bits)
      | suc chunk_index ↦ retarget compact_to_big params db chunk_index
    ]
