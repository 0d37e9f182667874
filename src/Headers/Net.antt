-- ===== src/Headers/Net.antt =====
-- backend/coins/btc/headers/headers.go: the networks and their checkpoints.
-- The parameters of a network come from chaincfg and from the coin's own tables; the model takes the
-- ones that the code reads. Time spans are in seconds.
use bitbox_wallet_app.Prelude.{ℕ, Bool, true, false, Option, none, some}

-- net.Net: the four networks that `checkpoint` names, and any other.
pub data Net : Type 0 where
  main_net test_net3 ltc_main_net ltc_test_net4 other_net : Net

pub record Params : Type 0 where
  pub net : Net
  pub genesis_hash : ℕ
  pub genesis_bits : ℕ
  pub target_timespan : ℕ
  pub target_time_per_block : ℕ
  pub retarget_adjustment_factor : ℕ
  pub pow_limit : ℕ

pub record Checkpoint : Type 0 where
  pub height : ℕ
  pub hash : ℕ

unfoldable pub checkpoint : Net → Option Checkpoint
checkpoint main_net = some (record {
  height = 629350;
  hash = 0x000000000000000000076807241b4e0f830c638cc1122cb67bfb856c58a21017;
})
checkpoint test_net3 = some (record {
  height = 1723210;
  hash = 0x00000000a2aa46899e5eda73c816b55903799a4feb321c903d9baeacc9443925;
})
checkpoint ltc_main_net = some (record {
  height = 1837000;
  hash = 0x43e55db47d6fdbc6e9f1d2f7a8974689f10bc3abf6e27355564dd5e18bfa53e4;
})
checkpoint ltc_test_net4 = some (record {
  height = 1464330;
  hash = 0x4329edb4d3eb20baded30bc67f59ce7d951de176012688124a65fe55e60244b4;
})
checkpoint other_net = none

-- The networks whose difficulty and work are checked.
unfoldable pub checks_work : Net → Bool
checks_work main_net = true
checks_work ltc_main_net = true
checks_work test_net3 = false
checks_work ltc_test_net4 = false
checks_work other_net = false

unfoldable pub is_ltc_main : Net → Bool
is_ltc_main ltc_main_net = true
is_ltc_main main_net = false
is_ltc_main test_net3 = false
is_ltc_main ltc_test_net4 = false
is_ltc_main other_net = false
