-- ===== src/Transactions/Verification/Merkle.antt =====
-- A path of a hash tree leads from a leaf to the root, and, for a hash without collisions, from no
-- other hash.
use bitbox_wallet_app.Prelude.{
  ℕ, zero, suc, ◌/◌, ◌%◌, ◌≡◌, refl, sym, ap, ◌∙◌, List, [], ◌∷◌, ◌++◌, Bool, true, false, length,
  length-append, ◌==◌, if◌then◌else◌, Bool-cases, inl, inr, arith,
}
use bitbox_wallet_app.Transactions.Verification.{hash_branch}

-- The hashes of a block's transactions, a power of two of them: Bitcoin repeats the last one of an
-- odd level.
pub data Tree : ℕ → Type 0 where
  leaf : ℕ → Tree 0
  node : (d : ℕ) → Tree d → Tree d → Tree (suc d)

-- The bit of a position at a level.
abbrev bit : ℕ → ℕ → ℕ
bit zero pos = pos % 2
bit (suc d) pos = bit d (pos / 2)

abbrev pub leaf_at : {d : ℕ} → Tree d → ℕ → ℕ
leaf_at (leaf h) pos = h
leaf_at (node d l r) pos = if bit d pos == 0 then leaf_at l pos else leaf_at r pos

-- Without collisions, two pairs have two hashes.
pub record IsCollisionFree (hash : ℕ → ℕ → ℕ) : Type 0 where
  pub first : (a b c d : ℕ) → hash a b ≡ hash c d → a ≡ c
  pub second : (a b c d : ℕ) → hash a b ≡ hash c d → b ≡ d

module _ (hash : ℕ → ℕ → ℕ) where
  abbrev pub root : {d : ℕ} → Tree d → ℕ
  root (leaf h) = h
  root (node d l r) = hash (root l) (root r)

  -- The hashes beside the path, from the leaf up.
  abbrev pub branch : {d : ℕ} → Tree d → ℕ → List ℕ
  branch (leaf h) pos = []
  branch (node d l r) pos =
      if bit d pos == 0 then branch l pos ++ root r ∷ [] else branch r pos ++ root l ∷ []

  length-branch : {d : ℕ} (t : Tree d) (pos : ℕ) → length (branch t pos) ≡ d
  length-branch (leaf h) pos = refl
  length-branch (node d l r) pos = elim (Bool-cases (bit d pos == 0)) [
    | inl e ↦ rw e (length-append (branch l pos) (root r ∷ []) ∙ omega (arith, length-branch l pos))
    | inr e ↦ rw e (length-append (branch r pos) (root l ∷ []) ∙ omega (arith, length-branch r pos))
  ]

  hash_branch-append :
      (ms : List ℕ) (m start pos : ℕ)
      → hash_branch hash (ms ++ m ∷ []) start pos ≡ (
          if bit (length ms) pos == 0
          then hash (hash_branch hash ms start pos) m
          else hash m (hash_branch hash ms start pos))
  unfolding hash_branch
  hash_branch-append [] m start pos = step (pos % 2 == 0)
    where
      step :
          (b : Bool)
          → hash_branch hash [] (if b then hash start m else hash m start) (pos / 2)
            ≡ (if b then hash start m else hash m start)
      step b = refl
  hash_branch-append (k ∷ ms) m start pos =
      hash_branch-append ms m (if pos % 2 == 0 then hash start k else hash k start) (pos / 2)

  -- The path of a leaf leads to the root.
  pub hash_branch-root :
      {d : ℕ} (t : Tree d) (pos : ℕ) → hash_branch hash (branch t pos) (leaf_at t pos) pos ≡ root t
  unfolding hash_branch
  hash_branch-root (leaf h) pos = refl
  hash_branch-root (node d l r) pos =
      by_bit (bit d pos == 0) refl (hash_branch-root l pos) (hash_branch-root r pos)
    where
      by_bit :
          (b : Bool)
          → (bit d pos == 0) ≡ b
          → hash_branch hash (branch l pos) (leaf_at l pos) pos ≡ root l
          → hash_branch hash (branch r pos) (leaf_at r pos) pos ≡ root r
          → hash_branch hash
              (if b then branch l pos ++ root r ∷ [] else branch r pos ++ root l ∷ [])
              (if b then leaf_at l pos else leaf_at r pos)
              pos
            ≡ hash (root l) (root r)
      by_bit true e left right =
          hash_branch-append (branch l pos) (root r) (leaf_at l pos) pos
          ∙ rw (length-branch l pos, e) (ap (λ (x : ℕ). hash x (root r)) left)
      by_bit false e left right =
          hash_branch-append (branch r pos) (root l) (leaf_at r pos) pos
          ∙ rw (length-branch r pos, e) (ap (λ (x : ℕ). hash (root l) x) right)

  -- The last hash of a path, and those before it.
  record IsSnoc (n : ℕ) (ms : List ℕ) : Type 0 where
    before : List ℕ
    last : ℕ
    whole : ms ≡ before ++ last ∷ []
    shorter : length before ≡ n

  snoc : (ms : List ℕ) (n : ℕ) → length ms ≡ suc n → IsSnoc n ms
  snoc [] n e = absurd (omega arith)
  snoc (m ∷ []) zero e = record { before = []; last = m; whole = refl; shorter = refl }
  snoc (m ∷ []) (suc n) e = absurd (omega arith)
  snoc (m ∷ k ∷ ms) zero e = absurd (omega arith)
  snoc (m ∷ k ∷ ms) (suc n) e =
      let s = snoc (k ∷ ms) n (omega arith) in
      record {
        before = m ∷ s.before;
        last = s.last;
        whole = ap (◌∷◌ m) s.whole;
        shorter = ap (λ (n : ℕ). suc n) s.shorter;
      }

  module _ (free : IsCollisionFree hash) where
    -- A path of the height of the tree that leads to the root starts at the leaf.
    pub root-leaf_at :
        {d : ℕ} (t : Tree d) (ms : List ℕ) (start pos : ℕ)
        → length ms ≡ d
        → hash_branch hash ms start pos ≡ root t
        → start ≡ leaf_at t pos
    unfolding hash_branch
    root-leaf_at (leaf h) [] start pos e q = q
    root-leaf_at (leaf h) (m ∷ ms) start pos e q = absurd (omega arith)
    root-leaf_at (node d l r) ms start pos e q =
        let s = snoc ms d e in
        by_bit s (bit d pos == 0) refl (root-leaf_at l s.before start pos s.shorter)
          (root-leaf_at r s.before start pos s.shorter)
      where
        top :
            (s : IsSnoc d ms) (b : Bool)
            → (bit d pos == 0) ≡ b
            → (if b
                then hash (hash_branch hash s.before start pos) s.last
                else hash s.last (hash_branch hash s.before start pos))
              ≡ hash (root l) (root r)
        top s b side = rw (sym side) (
            rw (sym s.shorter) (sym (hash_branch-append s.before s.last start pos))
            ∙ ap (λ (ms : List ℕ). hash_branch hash ms start pos) (sym s.whole)
            ∙ q)

        by_bit :
            (s : IsSnoc d ms) (b : Bool)
            → (bit d pos == 0) ≡ b
            → (hash_branch hash s.before start pos ≡ root l → start ≡ leaf_at l pos)
            → (hash_branch hash s.before start pos ≡ root r → start ≡ leaf_at r pos)
            → start ≡ (if b then leaf_at l pos else leaf_at r pos)
        by_bit s true low left right = left (free.first _ s.last _ (root r) (top s true low))
        by_bit s false high left right = right (free.second s.last _ (root l) _ (top s false high))
