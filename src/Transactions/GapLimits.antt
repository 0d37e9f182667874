-- ===== src/Transactions/GapLimits.antt =====
-- backend/coins/btc/db/transactionsdb/transactionsdb.go: the gap limits in the bucket of the
-- configuration. The bucket is the bytes under its key, if there are any; errors of the database are
-- not modelled, and an error of binary.Read, on too few bytes, is.
use bitbox_wallet_app.Prelude.{
  ℕ, ◌+◌, ◌*◌, ◌/◌, ◌%◌, ◌^◌, ◌<◌, ◌≡◌, List, [], ◌∷◌, ◌++◌, Option, none, some, arith,
}
use mathlib.Core.Path.{ap₂}
use bitbox_wallet_app.Prelude.Run.{Run, ok, err, ◌>>=◌}

pub data Error : Type 0 where
  too_short : Error

pub record GapLimits : Type 0 where
  pub receive : ℕ
  pub change : ℕ

-- A uint16, the low byte first.
unfoldable pub write_uint16 : ℕ → List ℕ
write_uint16 n = n % 2 ^ 8 ∷ n / 2 ^ 8 % 2 ^ 8 ∷ []

-- The number, and the bytes behind it.
unfoldable pub read_uint16 : List ℕ → Run Error (ℕ × List ℕ)
read_uint16 (low ∷ high ∷ rest) = ok (low + 2 ^ 8 * high, rest)
read_uint16 bytes = err too_short

unfoldable pub put_gap_limits : GapLimits → Option (List ℕ)
unfolding write_uint16
put_gap_limits limits = some (write_uint16 limits.receive ++ write_uint16 limits.change)

unfoldable pub gap_limits : Option (List ℕ) → Run Error GapLimits
unfolding read_uint16
gap_limits none = ok (record { receive = 0; change = 0 })
gap_limits (some bytes) = do
  receive ← read_uint16 bytes
  change ← read_uint16 receive.1
  ok (record { receive = receive.0; change = change.0 })

uint16_bytes : (n : ℕ) → n < 2 ^ 16 → n % 2 ^ 8 + 2 ^ 8 * (n / 2 ^ 8 % 2 ^ 8) ≡ n
uint16_bytes n h = omega arith

-- Limits that were put are read back, if they are below 2 ^ 16.
gap_limits-put_gap_limits :
    (limits : GapLimits)
    → limits.receive < 2 ^ 16
    → limits.change < 2 ^ 16
    → gap_limits (put_gap_limits limits) ≡ ok limits
unfolding gap_limits put_gap_limits read_uint16 write_uint16
gap_limits-put_gap_limits limits r c =
    ap₂ (λ (x y : ℕ). ok (record { receive = x; change = y })) (uint16_bytes limits.receive r)
      (uint16_bytes limits.change c)
