-- ===== src/Headers/Sync/Reorg.antt =====
-- When a batch sets the chain back.
use bitbox_wallet_app.Prelude.{
  ℕ, suc, ◌-◌, ◌≡◌, ◌≢◌, refl, sym, List, ◌∷◌, some, arith, take, ◌==◌, Bool-cases, inl, inr,
  ==_iff,
}
use bitbox_wallet_app.Prelude.Run.{ok, err}
use bitbox_wallet_app.Headers.Db.{Header, size, header_by_height}
use bitbox_wallet_app.Headers.Net.{Params}
use bitbox_wallet_app.Headers.Target.{require, prev_hash}
use bitbox_wallet_app.Headers.Connect.{Crypto, ensure, can_connect}
use bitbox_wallet_app.Headers.Sync.{
  Headers, reorg_size, kick, conclude_batch, connect_all, process_batch,
}
use bitbox_wallet_app.Headers.Sync.Batch.{reorg-eq}

module _ (crypto : Crypto) (params : Params) where
  can_connect-prev_hash :
      (db : List Header) (tip : ℕ) (previous header : Header)
      → header_by_height db tip ≡ some previous
      → header.prev_block ≢ crypto.block_hash previous
      → can_connect crypto params db (suc tip) header ≡ err prev_hash
  unfolding can_connect require ensure
  can_connect-prev_hash db tip previous header found differs =
      elim (Bool-cases (header.prev_block == crypto.block_hash previous)) [
        | inl same ↦ absurd (differs ((==_iff _ _).0 same))
        | inr other ↦ rw (found, require, other) refl
      ]

  reorg_size_lem : (n : ℕ) → reorg_size n ≡ n - 100
  unfolding reorg_size
  reorg_size_lem n = ground arith

  -- If the first header of a batch does not name the hash of the last header on disk, then
  -- processBatch cuts the last 100 headers off, or all if there are fewer, asks for another batch, and reports no
  -- error. Nothing else is asked of that header, its difficulty and its work included.
  pub process_batch-reorg :
      (s : Headers) (tip : ℕ) (previous header : Header) (headers : List Header) (max : ℕ)
      → size s.db ≡ suc tip
      → header_by_height s.db tip ≡ some previous
      → header.prev_block ≢ crypto.block_hash previous
      → process_batch crypto params s (suc tip) (header ∷ headers) max
        ≡ (kick (record s { db = take (suc tip - 100) s.db }), ok tt)
  unfolding process_batch connect_all conclude_batch size
  process_batch-reorg s tip previous header headers max full found differs =
      rw
        (
          can_connect-prev_hash s.db tip previous header found differs,
          connect_all,
          sym (reorg_size_lem (suc tip)),
          reorg-eq crypto params (suc tip) s (omega arith),
        )
        refl
