-- ===== src/Maketx/Fee.antt =====
-- backend/coins/btc/maketx/author.go: the fee for a size, and the dust test.
-- btcutil.MaxSatoshi is 21e6 coins of 1e8 satoshi.
pub mod Range
use bitbox_wallet_app.Prelude.{ℕ, ◌+◌, ◌*◌, Bool, ltb, ◌==◌, if◌then◌else◌, ◌&&◌, ◌||◌}
use bitbox_wallet_app.Prelude.Int64.{Int64, mul, quot, lt, is_negative}
use bitbox_wallet_app.Prelude.Run.{Run, ok, ◌>>=◌}
use bitbox_wallet_app.Maketx.Types.{ScriptType, Error}
use bitbox_wallet_app.Maketx.Size.{sig_script_witness_size, calc_input_size, output_size}

abbrev pub max_satoshi : Int64
max_satoshi = 21_000_000 * 100_000_000

-- The first two steps: the rounded fee, which is the rate itself where it would be zero.
unfoldable pub raw_fee : Int64 → ℕ → Int64
raw_fee rate size =
    let fee = quot (mul rate size) 1000 in if fee == 0 && lt 0 rate then rate else fee

unfoldable pub fee_for_serialize_size : Int64 → ℕ → Int64
unfolding raw_fee
fee_for_serialize_size rate size =
    let fee = raw_fee rate size in
    if is_negative fee || lt max_satoshi fee then max_satoshi else fee

-- amount * 1000 / (3 * total_size) < rate, in int64.
unfoldable pub is_dust_amount : (ℕ → ℕ) → Int64 → ℕ → ScriptType → Int64 → Run Error Bool
is_dust_amount var_int_size amount pk_script_size configuration rate = do
  (sig_script_size, _) ← sig_script_witness_size var_int_size configuration
  let total_size =
      output_size var_int_size pk_script_size + calc_input_size var_int_size sig_script_size
  ok (lt (quot (mul amount 1000) (3 * total_size)) rate)
