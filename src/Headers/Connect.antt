-- ===== src/Headers/Connect.antt =====
-- backend/coins/btc/headers/headers.go: canConnect and powHash.
-- Hashing, scrypt and the compact form of a target are other packages': parameters. A hash is the
-- number that HashToBig makes of it.
pub mod Checks
use bitbox_wallet_app.Prelude.{
  ℕ, zero, suc, ◌-◌, Bool, List, Option, none, some, ltb, ◌==◌, if◌then◌else◌,
}
use bitbox_wallet_app.Prelude.Run.{Run, ok, err, panic, ◌>>=◌, ◌>>◌}
use bitbox_wallet_app.Headers.Db.{Header}
use bitbox_wallet_app.Headers.Net.{
  Net, main_net, test_net3, ltc_main_net, ltc_test_net4, other_net, Params, Checkpoint, checkpoint,
  checks_work,
}
use bitbox_wallet_app.Headers.Target.{
  Error, wrong_genesis, prev_hash, checkpoint_mismatch, unexpected_difficulty, insufficient_work,
  require, get_target,
}

pub record Crypto : Type 0 where
  pub block_hash : Header → ℕ
  pub compact_to_big : ℕ → ℕ
  pub big_to_compact : ℕ → ℕ
  -- DoubleHashH and scrypt of the serialised header.
  pub double_hash : Header → ℕ
  pub scrypt_hash : Header → ℕ

unfoldable pub ensure : Bool → Error → Run Error (Unit {0})
ensure b e = if b then ok tt else err e

module _ (crypto : Crypto) (params : Params) where
  unfoldable pub pow_hash : Header → Run Error ℕ
  pow_hash header = elim (params.net) [
    | main_net ↦ ok (crypto.double_hash header)
    | ltc_main_net ↦ ok (crypto.scrypt_hash header)
    | _ ↦ panic
  ]

  unfoldable pub check_checkpoint : ℕ → Header → Run Error (Unit {0})
  unfolding ensure
  check_checkpoint tip header = elim (checkpoint params.net) [
    | none ↦ ok tt
    | some c ↦
        if tip == c.height
        then ensure (c.hash == crypto.block_hash header) checkpoint_mismatch
        else ok tt
  ]

  -- The proof of work is checked behind the checkpoint only.
  unfoldable pub check_proof : ℕ → Header → ℕ → Run Error (Unit {0})
  unfolding ensure pow_hash
  check_proof tip header target = elim (checkpoint params.net) [
    | none ↦ ok tt
    | some c ↦
        if ltb c.height tip
        then (pow_hash header >>= λ proof_of_work.
            if ltb target proof_of_work then err insufficient_work else ok tt)
        else ok tt
  ]

  unfoldable pub check_work : List Header → ℕ → Header → Run Error (Unit {0})
  unfolding ensure
  check_work db tip header =
      if checks_work params.net
      then (do
        target ← get_target crypto.compact_to_big params db tip
        ensure (header.bits == crypto.big_to_compact target) unexpected_difficulty
        check_proof tip header target)
      else ok tt

  -- `tip` is the height at which the header would stand.
  unfoldable pub can_connect : List Header → ℕ → Header → Run Error (Unit {0})
  unfolding ensure
  can_connect db zero header =
      ensure (crypto.block_hash header == params.genesis_hash) wrong_genesis
  can_connect db (suc tip) header = do
    previous_header ← require db tip
    ensure (header.prev_block == crypto.block_hash previous_header) prev_hash
    check_checkpoint (suc tip) header
    check_work db (suc tip) header
