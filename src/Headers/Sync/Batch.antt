-- ===== src/Headers/Sync/Batch.antt =====
-- What the loop of a batch makes of the headers on disk.
use bitbox_wallet_app.Prelude.{
  ◌⊎◌, ℕ, suc, ◌+◌, ◌≤◌, ◌≡◌, refl, sym, ap, ◌∙◌, List, [], ◌∷◌, ◌++◌, arith, length, take, inl,
  inr, take-append_le, take-length, length-append,
}
use mathlib.Core.List.{append_assoc, append-nil}
use bitbox_wallet_app.Prelude.Run.{Run, ok, err, panic, out_of_fuel}
use bitbox_wallet_app.Headers.Db.{Header, size, put_header}
use bitbox_wallet_app.Headers.Db.Slots.{put_header_end, revert_to-ok}
use bitbox_wallet_app.Headers.Net.{Params}
use bitbox_wallet_app.Headers.Target.{Error, prev_hash}
use bitbox_wallet_app.Headers.Connect.{Crypto, can_connect}
use bitbox_wallet_app.Headers.Sync.{
  Headers, Progress, connected, reorged, failed, reorg_size, reorg, reorg_limit, connect_all, kick,
}
use bitbox_wallet_app.Headers.Sync.Links.{IsChain, take-IsChain, append-IsChain}

module _ (crypto : Crypto) (params : Params) where
  -- What the loop of a batch makes of the file: it appends the first `count` headers, and after a
  -- reorganisation keeps the first `kept`.
  pub record IsBatch (db : List Header) (headers : List Header) (db' : List Header) : Type 0 where
    pub count : ℕ
    pub kept : ℕ
    pub inside : count ≤ length headers
    pub result : db' ≡ take kept (db ++ take count headers)
    pub bounded : length db + count ≤ kept + reorg_limit

  IsBatch-refl : (db headers : List Header) → IsBatch db headers db
  IsBatch-refl db headers = record {
    count = 0;
    kept = length db;
    inside = omega arith;
    result = sym (take-append_le (length db) db [] (omega arith) ∙ take-length db);
    bounded = omega arith;
  }

  -- The loop ended at its end, with an error or a panic of canConnect, or by a reorganisation that succeeded.
  abbrev Settled : Progress → Type 0
  Settled connected = Unit
  Settled (reorged r) = r ≡ ok tt
  Settled (failed r) = Unit

  -- The three ways of the loop at a header.
  connect_all-cases :
      (s : Headers) (n : ℕ) (header : Header) (headers : List Header)
      → (can_connect crypto params s.db n header ≡ ok tt)
          × (connect_all crypto params s n (header ∷ headers)
              ≡ connect_all crypto params
                  (record s { db = put_header n header s.db })
                  (n + 1)
                  headers)
        ⊎ ((connect_all crypto params s n (header ∷ headers)
              ≡ ((reorg n s).0, reorged (reorg n s).1))
            ⊎ ((r : Run Error (Unit {0})) × (connect_all crypto params s n (header ∷ headers)
                  ≡ (s, failed r))))
  unfolding connect_all
  connect_all-cases s n header headers = go (can_connect crypto params s.db n header) refl
    where
      go :
          (r : Run Error (Unit {0}))
          → can_connect crypto params s.db n header ≡ r
          → (can_connect crypto params s.db n header ≡ ok tt)
              × (connect_all crypto params s n (header ∷ headers)
                  ≡ connect_all crypto params
                      (record s { db = put_header n header s.db })
                      (n + 1)
                      headers)
            ⊎ ((connect_all crypto params s n (header ∷ headers)
                  ≡ ((reorg n s).0, reorged (reorg n s).1))
                ⊎ ((r : Run Error (Unit {0})) × (connect_all crypto params s n (header ∷ headers)
                      ≡ (s, failed r))))
      go (ok u) e = inl (e, rw (e, connect_all) refl)
      go (err prev_hash) e = inr (inl (rw (e, connect_all) refl))
      go (err other) e = inr (inr (err other, rw (e, connect_all) refl))
      go panic e = inr (inr (panic, rw (e, connect_all) refl))
      go out_of_fuel e = inr (inr (out_of_fuel, rw (e, connect_all) refl))

  reorg_size-le : (n : ℕ) → (reorg_size n ≤ n) × (n ≤ reorg_size n + reorg_limit)
  unfolding reorg_size
  reorg_size-le n = ground arith

  pub reorg-eq :
      (n : ℕ) (s : Headers)
      → n ≤ length s.db
      → reorg n s ≡ (kick (record s { db = take (reorg_size n) s.db }), ok tt)
  unfolding reorg size
  reorg-eq n s h =
      rw (revert_to-ok (reorg_size n) s.db (omega (arith, reorg_size-le n)), reorg) refl

  IsBatch-cons :
      (db : List Header) (header : Header) (headers db' put : List Header)
      → put ≡ db ++ header ∷ []
      → IsBatch put headers db'
      → IsBatch db (header ∷ headers) db'
  IsBatch-cons db header headers db' put e b = record {
    count = suc b.count;
    kept = b.kept;
    inside = omega (arith, b.inside);
    result =
        b.result
        ∙ ap (take b.kept) (
            ap (λ l. l ++ take b.count headers) e
            ∙ append_assoc db (header ∷ []) (take b.count headers));
    bounded = omega (arith, b.bounded, ap length e, length-append db (header ∷ []));
  }

  IsBatch-reorg :
      (db headers : List Header) (n : ℕ)
      → n ≡ length db
      → IsBatch db headers (take (reorg_size n) db)
  IsBatch-reorg db headers n e = record {
    count = 0;
    kept = reorg_size n;
    inside = omega arith;
    result = ap (take (reorg_size n)) (sym (append-nil db));
    bounded = omega (arith, reorg_size-le n);
  }

  pub connect_all-IsChain :
      (headers : List Header) (s : Headers) (n : ℕ)
      → n ≡ length s.db
      → IsChain crypto params s.db
      → IsChain crypto params (connect_all crypto params s n headers).0.db
        × IsBatch s.db headers (connect_all crypto params s n headers).0.db
        × Settled (connect_all crypto params s n headers).1
  unfolding connect_all kick
  connect_all-IsChain [] s n e v = (v, IsBatch-refl s.db [], tt)
  connect_all-IsChain (header ∷ headers) s n e v = elim (connect_all-cases s n header headers) [
    | inl (fits, r) ↦
        let fits' : can_connect crypto params s.db (length s.db) header ≡ ok tt = rw e at fits in
        let put : put_header n header s.db ≡ s.db ++ header ∷ [] =
          rw e (put_header_end s.db header) in
        let longer = append-IsChain crypto params s.db header v fits' in
        let size' : n + 1 ≡ length (put_header n header s.db) =
          rw put (omega (arith, length-append s.db (header ∷ []))) in
        let (chain, batch, settled) =
          connect_all-IsChain headers (record s { db = put_header n header s.db }) (n + 1) size'
            (rw put longer) in
        rw r (chain, IsBatch-cons s.db header headers _ _ put batch, settled)
    | inr (inl r) ↦
        let reverted = reorg-eq n s (omega arith) in
        rw (r, reverted)
          (
            take-IsChain crypto params (reorg_size n) s.db v,
            IsBatch-reorg s.db (header ∷ headers) n e,
            refl,
          )
    | inr (inr (other, r)) ↦ rw r (v, IsBatch-refl s.db (header ∷ headers), tt)
  ]
