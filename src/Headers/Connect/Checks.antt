-- ===== src/Headers/Connect/Checks.antt =====
-- What a header that connects has been checked for.
use bitbox_wallet_app.Prelude.{
  ℕ, suc, ◌≤◌, ◌<◌, ◌≡◌, Bool, true, List, some, arith, ◌==◌, ==_iff, lt→ltb,
}
use bitbox_wallet_app.Prelude.Run.{ok, >>=-eq-ok}
use bitbox_wallet_app.Headers.Db.{Header, header_by_height}
use bitbox_wallet_app.Headers.Net.{Params, Checkpoint, checkpoint, checks_work}
use bitbox_wallet_app.Headers.Target.{Error, require, get_target}
use bitbox_wallet_app.Headers.Connect.{
  Crypto, ensure, pow_hash, check_checkpoint, check_proof, check_work, can_connect,
}

ensure-eq-ok : (b : Bool) (e : Error) (u : Unit {0}) → ensure b e ≡ ok u → b ≡ true
unfolding ensure
ensure-eq-ok b e u h = ground arith

require-eq-ok :
    (db : List Header) (i : ℕ) (h : Header) → require db i ≡ ok h → header_by_height db i ≡ some h
unfolding require
require-eq-ok db i h e = ground arith

module _ (crypto : Crypto) (params : Params) where
  -- What the work of a header at a height must be.
  pub record HasWork (db : List Header) (height : ℕ) (header : Header) : Type 0 where
    pub target : ℕ
    pub expected : get_target crypto.compact_to_big params db height ≡ ok target
    pub bits : header.bits ≡ crypto.big_to_compact target
    pub proof :
        (c : Checkpoint)
        → checkpoint params.net ≡ some c
        → c.height < height
        → (work : ℕ) × (pow_hash crypto params header ≡ ok work) × (work ≤ target)

  -- What a header at a height above zero must be, given the headers before it.
  pub record Connects (db : List Header) (tip : ℕ) (header : Header) : Type 0 where
    pub previous : Header
    pub found : header_by_height db tip ≡ some previous
    pub linked : header.prev_block ≡ crypto.block_hash previous
    pub checkpointed :
        (c : Checkpoint)
        → checkpoint params.net ≡ some c
        → suc tip ≡ c.height
        → crypto.block_hash header ≡ c.hash
    pub worked : checks_work params.net ≡ true → HasWork db (suc tip) header

  check_checkpoint-eq-ok :
      (tip : ℕ) (header : Header) (u : Unit {0})
      → check_checkpoint crypto params tip header ≡ ok u
      → (c : Checkpoint) → checkpoint params.net ≡ some c
      → tip ≡ c.height
      → crypto.block_hash header ≡ c.hash
  unfolding check_checkpoint ensure
  check_checkpoint-eq-ok tip header u e c h k = ground arith

  check_proof-eq-ok :
      (tip : ℕ) (header : Header) (target : ℕ) (u : Unit {0})
      → check_proof crypto params tip header target ≡ ok u
      → (c : Checkpoint) → checkpoint params.net ≡ some c
      → c.height < tip
      → (work : ℕ) × (pow_hash crypto params header ≡ ok work) × (work ≤ target)
  unfolding check_proof
  check_proof-eq-ok tip header target u e c h k =
      let (work, p, q) =
        >>=-eq-ok (pow_hash crypto params header) _
          (rw (h, check_proof, lt→ltb c.height tip k) at e) in
      (work, p, ground arith)

  check_work-eq-ok :
      (db : List Header) (tip : ℕ) (header : Header) (u : Unit {0})
      → check_work crypto params db tip header ≡ ok u
      → checks_work params.net ≡ true
      → HasWork db tip header
  unfolding check_work
  check_work-eq-ok db tip header u e h =
      let (target, got, e') =
        >>=-eq-ok (get_target crypto.compact_to_big params db tip) _ (rw h at e) in
      let (v, b, e'') = >>=-eq-ok (ensure (header.bits == crypto.big_to_compact target) _) _ e' in
      record {
        target = target;
        expected = got;
        bits = (==_iff _ _).0 (ensure-eq-ok _ _ v b);
        proof = check_proof-eq-ok tip header target u e'';
      }

  -- A header that connects above height zero names the hash of the header before it, has the
  -- checkpoint's hash at the checkpoint's height, and, where the network's work is checked, has the
  -- bits of the expected target and behind the checkpoint meets that target.
  pub can_connect-Connects :
      (db : List Header) (tip : ℕ) (header : Header)
      → can_connect crypto params db (suc tip) header ≡ ok tt
      → Connects db tip header
  unfolding can_connect
  can_connect-Connects db tip header e =
      let (previous, found, e') = >>=-eq-ok (require db tip) _ e in
      let (u, linked, e'') =
        >>=-eq-ok (ensure (header.prev_block == crypto.block_hash previous) _) _ e' in
      let (v, checked, e3) = >>=-eq-ok (check_checkpoint crypto params (suc tip) header) _ e'' in
      record {
        previous = previous;
        found = require-eq-ok db tip previous found;
        linked = (==_iff _ _).0 (ensure-eq-ok _ _ u linked);
        checkpointed = check_checkpoint-eq-ok (suc tip) header v checked;
        worked = check_work-eq-ok db (suc tip) header tt e3;
      }

  pub can_connect-genesis :
      (db : List Header) (header : Header)
      → can_connect crypto params db 0 header ≡ ok tt
      → crypto.block_hash header ≡ params.genesis_hash
  unfolding can_connect
  can_connect-genesis db header e = (==_iff _ _).0 (ensure-eq-ok _ _ tt e)
