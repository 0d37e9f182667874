-- ===== src/Headers/Sync/Links.antt =====
-- Chains of checked headers: IsChain, and what keeps it.
use bitbox_wallet_app.Prelude.{
  ℕ, zero, suc, ◌≡◌, sym, ap, ◌∙◌, List, [], ◌∷◌, ◌++◌, some, arith, length, take, get_elem?,
  take-take, take-append_le, take-length, get_elem?-lt, get_elem?-take, get_elem?-append_lt,
  get_elem?-append_end, length-append, length-take,
}
use native.Mathlib.Decide.{dec_lt}
use mathlib.Core.Path.{subst}
use bitbox_wallet_app.Prelude.Run.{ok}
use bitbox_wallet_app.Headers.Db.{Header}
use bitbox_wallet_app.Headers.Db.Slots.{read-get_elem?}
use bitbox_wallet_app.Headers.Net.{Params}
use bitbox_wallet_app.Headers.Connect.{Crypto, can_connect}
use bitbox_wallet_app.Headers.Connect.Checks.{Connects, can_connect-Connects, can_connect-genesis}

module _ (crypto : Crypto) (params : Params) where
  -- Every header passed the checks against the headers below it.
  pub record IsChain (db : List Header) : Type 0 where
    pub genesis : (h : Header) → get_elem? db 0 ≡ some h → crypto.block_hash h ≡ params.genesis_hash
    pub connects :
        (i : ℕ) (h : Header)
        → get_elem? db (suc i) ≡ some h
        → Connects crypto params (take (suc i) db) i h

  pub take-IsChain : (n : ℕ) (db : List Header) → IsChain db → IsChain (take n db)
  take-IsChain zero db v = record { genesis = λ h e. cc; connects = λ i h e. cc }
  take-IsChain (suc n) db v = record {
    genesis = λ h e. v.genesis h (sym (get_elem?-take (suc n) db 0 (omega arith)) ∙ e);
    connects = λ i h e. elim (dec_lt (suc i) (suc n)) [
      | yes below ↦
          subst (λ l. Connects crypto params l i h)
            (sym (take-take (suc i) (suc n) db (omega arith)))
            (v.connects i h (sym (get_elem?-take (suc n) db (suc i) below) ∙ e))
      | no above ↦
          absurd (omega (arith, get_elem?-lt (take (suc n) db) (suc i) e, length-take (suc n) db))
    ];
  }

  pub append-IsChain :
      (db : List Header) (header : Header)
      → IsChain db
      → can_connect crypto params db (length db) header ≡ ok tt
      → IsChain (db ++ header ∷ [])
  append-IsChain [] header v e = record {
    genesis = λ h k.
        (let same : header ≡ h = cc in
          subst (λ y. crypto.block_hash y ≡ params.genesis_hash) same
            (can_connect-genesis crypto params [] header e));
    connects = λ i h k. cc;
  }
  append-IsChain (x ∷ xs) header v e = record {
    genesis = λ h k. v.genesis h k;
    connects = λ i h k. elim (dec_lt (suc i) (length (x ∷ xs))) [
      | yes below ↦
          subst (λ l. Connects crypto params l i h)
            (sym (take-append_le (suc i) (x ∷ xs) (header ∷ []) (omega arith)))
            (v.connects i h (sym (get_elem?-append_lt (x ∷ xs) (header ∷ []) (suc i) below) ∙ k))
      | no above ↦
          let n : i ≡ length xs = omega (
            arith,
            get_elem?-lt ((x ∷ xs) ++ header ∷ []) (suc i) k,
            length-append (x ∷ xs) (header ∷ []),
          ) in
          let whole =
            take-append_le (suc (length xs)) (x ∷ xs) (header ∷ []) (omega arith)
            ∙ take-length (x ∷ xs) in
          let last = get_elem?-append_end (x ∷ xs) header in
          let here = subst (λ j. get_elem? ((x ∷ xs) ++ header ∷ []) (suc j) ≡ some h) n k in
          let same : header ≡ h = cc in
          let checked = can_connect-Connects crypto params (x ∷ xs) (length xs) header e in
          subst (λ j. Connects crypto params (take (suc j) ((x ∷ xs) ++ header ∷ [])) j h) (sym n)
            (subst (λ l. Connects crypto params l (length xs) h) (sym whole)
              (subst (Connects crypto params (x ∷ xs) (length xs)) same checked))
    ];
  }

  pub IsChain-nil : IsChain []
  IsChain-nil = record { genesis = λ h e. cc; connects = λ i h e. cc }

  pub IsChain-linked :
      (db : List Header) (i : ℕ) (a b : Header)
      → IsChain db
      → get_elem? db i ≡ some a
      → get_elem? db (suc i) ≡ some b
      → b.prev_block ≡ crypto.block_hash a
  IsChain-linked db i a b v p q =
      let c = v.connects i b q in
      let below =
        sym (get_elem?-take (suc i) db i (omega arith))
        ∙ read-get_elem? (take (suc i) db) i c.previous c.found in
      let same : c.previous ≡ a = cc in c.linked ∙ ap crypto.block_hash same
