-- ===== src/Headers/Sync/Chain.antt =====
-- The headers on disk form a checked chain, whatever the server sends.
use bitbox_wallet_app.Prelude.{
  ℕ, zero, suc, ◌+◌, ◌<◌, ◌≡◌, refl, false, List, [], ◌∷◌, Option, none, some, arith, length,
  get_elem?, ltb, Bool-cases, inl, inr, get_elem?-some,
}
use bitbox_wallet_app.Prelude.Run.{Run, ok}
use bitbox_wallet_app.Headers.Db.{Header, size}
use bitbox_wallet_app.Headers.Db.Slots.{read-get_elem?}
use bitbox_wallet_app.Headers.Net.{Net, Params, Checkpoint, checkpoint}
use bitbox_wallet_app.Headers.Target.{Error}
use bitbox_wallet_app.Headers.Connect.{Crypto}
use bitbox_wallet_app.Headers.Sync.{
  download, new_headers, Headers, Progress, connected, reorged, failed, connect_all, finish_batch,
  conclude_batch, process_batch, download_and_process_batch, verified_header_by_height, kick,
  notify_event,
}
use bitbox_wallet_app.Headers.Sync.Links.{IsChain, IsChain-nil, IsChain-linked}
use bitbox_wallet_app.Headers.Sync.Batch.{IsBatch, connect_all-IsChain}

finish_batch-db : (s : Headers) (count max : ℕ) → (finish_batch s count max).db ≡ s.db
unfolding finish_batch notify_event kick
finish_batch-db s count max = ground arith

conclude_batch-db :
    (count max : ℕ) (r : Headers × Progress) → (conclude_batch count max r).0.db ≡ r.0.db
unfolding conclude_batch
conclude_batch-db count max (s, connected) = finish_batch-db s count max
conclude_batch-db count max (s, reorged r) = refl
conclude_batch-db count max (s, failed r) = refl

module _ (crypto : Crypto) (params : Params) where
  process_batch-db :
      (s : Headers) (n : ℕ) (headers : List Header) (max : ℕ)
      → (process_batch crypto params s n headers max).0.db
        ≡ (connect_all crypto params s n headers).0.db
  unfolding process_batch
  process_batch-db s n headers max =
      conclude_batch-db (length headers) max (connect_all crypto params s n headers)

  -- If the headers on disk form a checked chain, then so they do after a batch from the server,
  -- whatever it holds. It appends a prefix of the batch, and by a reorganisation drops at most 100 headers from the end of what is then there;
  -- this holds when processBatch reports an error too.
  pub process_batch-IsChain :
      (s : Headers) (headers : List Header) (max : ℕ)
      → IsChain crypto params s.db
      → IsChain crypto params (process_batch crypto params s (size s.db) headers max).0.db
        × IsBatch crypto params s.db headers
            (process_batch crypto params s (size s.db) headers max).0.db
  unfolding size
  process_batch-IsChain s headers max v =
      let (chain, batch, _) = connect_all-IsChain crypto params headers s (length s.db) refl v in
      rw process_batch-db (chain, batch)

  download-IsChain :
      (answer : Option (List Header × ℕ)) (s : Headers)
      → IsChain crypto params s.db
      → IsChain crypto params (download_and_process_batch crypto params answer s).0.db
  unfolding download_and_process_batch
  download-IsChain answer s v = elim (Bool-cases s.closed) [
    | inl closed ↦ rw closed v
    | inr opened ↦ rw opened (answered answer)
  ]
    where
      answered :
          (a : Option (List Header × ℕ))
          → IsChain crypto params
              (elim a as (λ x. Headers × Run Error (Unit {0})) [
                | none ↦ (record s { kicked = false }, ok tt)
                | some (headers, max) ↦
                    process_batch crypto params
                      (record s { kicked = false })
                      (size s.db)
                      headers
                      max
              ]).0.db
      answered none = v
      answered (some (headers, max)) =
          (process_batch-IsChain (record s { kicked = false }) headers max v).0

  download_all-IsChain :
      (answers : List (Option (List Header × ℕ))) (s : Headers)
      → IsChain crypto params s.db
      → IsChain crypto params (download crypto params answers s).db
  unfolding download
  download_all-IsChain [] s v = v
  download_all-IsChain (answer ∷ answers) s v =
      download_all-IsChain answers _ (download-IsChain answer s v)

  -- From an empty file, any sequence of answers of the server leaves on disk a chain in which the first
  -- header has the genesis hash and each further header names the hash of the one before it.
  pub download-linked :
      (answers : List (Option (List Header × ℕ)))
      → ((h : Header)
          → get_elem? (download crypto params answers (new_headers [])).db 0 ≡ some h
          → crypto.block_hash h ≡ params.genesis_hash)
        × ((i : ℕ) (a b : Header)
            → get_elem? (download crypto params answers (new_headers [])).db i ≡ some a
            → get_elem? (download crypto params answers (new_headers [])).db (suc i) ≡ some b
            → b.prev_block ≡ crypto.block_hash a)
  unfolding new_headers
  download-linked answers =
      let v = download_all-IsChain answers (new_headers []) (IsChain-nil crypto params) in
      (v.genesis, λ i a b p q. IsChain-linked crypto params _ i a b v p q)

  checkpoint_pos : (net : Net) (c : Checkpoint) → checkpoint net ≡ some c → 0 < c.height
  unfolding checkpoint
  checkpoint_pos net c e = ground arith

  -- On a checked chain, VerifiedHeaderByHeight returns a header only if the chain contains the
  -- checkpoint, with its hash; and then it returns the header on disk at that height.
  pub verified_header_by_height_lem :
      (s : Headers) (height : ℕ) (h : Header) (c : Checkpoint)
      → IsChain crypto params s.db
      → checkpoint params.net ≡ some c
      → verified_header_by_height params s height ≡ some h
      → (get_elem? s.db height ≡ some h)
        × ((x : Header) × (get_elem? s.db c.height ≡ some x) × (crypto.block_hash x ≡ c.hash))
  unfolding verified_header_by_height size
  verified_header_by_height_lem s height h c v e r =
      let found = rw (e, verified_header_by_height) at r in
      elim (Bool-cases (ltb (size s.db) (c.height + 1))) [
        | inl low ↦ cc (rw low at found)
        | inr high ↦
            let (x, stored) = get_elem?-some s.db c.height (ground arith) in
            (
              read-get_elem? s.db height h (rw high at found),
              (x, stored, checkpointed c.height (checkpoint_pos params.net c e) refl x stored),
            )
      ]
    where
      checkpointed :
          (n : ℕ)
          → 0 < n
          → n ≡ c.height
          → (x : Header) → get_elem? s.db n ≡ some x
          → crypto.block_hash x ≡ c.hash
      checkpointed zero p q x stored = elim p [ ]
      checkpointed (suc n) p q x stored = (v.connects n x stored).checkpointed c e q
