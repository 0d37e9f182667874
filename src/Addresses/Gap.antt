-- ===== src/Addresses/Gap.antt =====
-- The gap limit.
use bitbox_wallet_app.Prelude.{
  ℕ, zero, suc, ◌+◌, ◌-◌, ◌≤◌, ◌≡◌, ◌⊎◌, refl, sym, ap, ◌∙◌, Bool, true, false, List, [], ◌∷◌, ◌++◌,
  Option, none, some, arith, length, take, drop, All, Bool-cases, Option-cases, inl, inr,
  length-append, length-take, take-append-drop, le→ltb,
}
use mathlib.Core.Path.{subst}
use mathlib.Core.List.{
  reverse, reverse-cons, reverse-append, reverse-reverse, append_assoc, append-nil,
}
use bitbox_wallet_app.Prelude.Run.{ok, err, >>=-eq-ok, ok_unique}
use bitbox_wallet_app.Addresses.{
  AddressChain, Error, ask, tail_loop, unused_tail_count, get_unused, next_address, add_address,
  add_addresses, ensure_addresses,
}

module _ {A : Type 0} where
  length-reverse : (xs : List A) → length (reverse xs) ≡ length xs
  length-reverse [] = refl
  length-reverse (x ∷ xs) =
      rw (reverse-cons x xs) (omega (arith, length-append (reverse xs) (x ∷ []), length-reverse xs))

  drop-append_length : (xs ys : List A) → drop (length xs) (xs ++ ys) ≡ ys
  drop-append_length [] ys = refl
  drop-append_length (x ∷ xs) ys = drop-append_length xs ys

  All-append : (P : A → Type 0) (xs ys : List A) → All P xs → All P ys → All P (xs ++ ys)
  All-append P [] ys p q = q
  All-append P (x ∷ xs) ys p q = (p.0, All-append P xs ys p.1 q)

  All-reverse : (P : A → Type 0) (xs : List A) → All P xs → All P (reverse xs)
  All-reverse P [] p = tt
  All-reverse P (x ∷ xs) p =
      rw (reverse-cons x xs) (All-append P (reverse xs) (x ∷ []) (All-reverse P xs p.1) (p.0, tt))

  All-middle : (P : A → Type 0) (xs : List A) (y : A) (ys : List A) → All P (xs ++ y ∷ ys) → P y
  All-middle P [] y ys p = p.0
  All-middle P (x ∷ xs) y ys p = All-middle P xs y ys p.1

module _ {Address : Type 0} (is_address_used : Address → Option Bool) where
  abbrev pub IsUnused : Address → Type 0
  IsUnused a = is_address_used a ≡ some false

  IsUnused-cases : (a : Address) → IsUnused a ⊎ (IsUnused a → ⊥)
  IsUnused-cases a = elim (Option-cases (is_address_used a)) [
    | inl failed ↦ inr (λ e. none≢some (sym failed ∙ e))
    | inr (used, answer) ↦ elim (Bool-cases used) [
      | inl yes_used ↦ inr (λ e. true≢false (sym (answer ∙ ap some yes_used) ∙ e))
      | inr not_used ↦ inl (answer ∙ ap some not_used)
    ]
  ]
    where
      none≢some : none ≡ some false → ⊥
      none≢some e = cc

      true≢false : some true ≡ some false → ⊥
      true≢false e = cc

  All-IsUnused-cases : (as' : List Address) → All IsUnused as' ⊎ (All IsUnused as' → ⊥)
  All-IsUnused-cases [] = inl tt
  All-IsUnused-cases (a ∷ as') = elim (IsUnused-cases a) [
    | inr used ↦ inr (λ p. used p.0)
    | inl unused ↦ elim (All-IsUnused-cases as') [
      | inr used ↦ inr (λ p. used p.1)
      | inl rest ↦ inl (unused, rest)
    ]
  ]

  tail_loop-unused :
      (a : Address) (as' : List Address) (n : ℕ)
      → IsUnused a
      → tail_loop is_address_used as' ≡ ok n
      → tail_loop is_address_used (a ∷ as') ≡ ok (suc n)
  unfolding tail_loop ask
  tail_loop-unused a as' n h e = rw (h, e) refl

  -- The loop counts addresses that are not used.
  tail_loop-All :
      (as' : List Address) (n : ℕ)
      → tail_loop is_address_used as' ≡ ok n
      → (n ≤ length as') × All IsUnused (take n as')
  unfolding tail_loop ask
  tail_loop-All [] n e = let z : 0 ≡ n = ok_unique refl e in rw (sym z) (omega arith, tt)
  tail_loop-All (a ∷ as') n e = elim (Option-cases (is_address_used a)) [
    | inl failed ↦ absurd (err≢ok (rw failed at e))
    | inr (used, answer) ↦ elim (Bool-cases used) [
      | inl yes_used ↦
          let z : 0 ≡ n = ok_unique refl (rw (answer, yes_used) at e) in
          rw (sym z) (omega arith, tt)
      | inr not_used ↦
          let (m, rest, e') =
            >>=-eq-ok (tail_loop is_address_used as') (λ count. ok (suc count))
              (rw (answer, not_used) at e) in
          let s : suc m ≡ n = ok_unique refl e' in
          let (inside, all) = tail_loop-All as' m rest in
          rw (sym s) (omega arith, (answer ∙ ap some not_used, all))
    ]
  ]
    where
      err≢ok : {x : Error} → err x ≡ ok n → ⊥
      err≢ok p = cc

  -- GetUnused on a tail that is long enough.
  get_unused-ok :
      (c : AddressChain Address) (n : ℕ)
      → unused_tail_count is_address_used c ≡ ok n
      → c.gap_limit ≤ n
      → (unused : List Address) × (get_unused is_address_used c ≡ ok unused)
        × (length unused ≡ n)
        × All IsUnused unused
  unfolding get_unused unused_tail_count
  get_unused-ok c n e h =
      let xs = reverse c.addresses in
      let (inside, all) = tail_loop-All xs n e in
      let front = reverse (drop n xs) in
      let back = reverse (take n xs) in
      let split : c.addresses ≡ front ++ back =
        sym (reverse-reverse c.addresses)
        ∙ ap reverse (sym (take-append-drop n xs))
        ∙ reverse-append (take n xs) (drop n xs) in
      let back_length : length back ≡ n =
        length-reverse (take n xs) ∙ omega (arith, length-take n xs) in
      let front_length : length c.addresses - n ≡ length front =
        omega (arith, ap length split, length-append front back) in
      let dropped : drop (length c.addresses - n) c.addresses ≡ back =
        ap (λ k. drop k c.addresses) front_length
        ∙ ap (drop (length front)) split
        ∙ drop-append_length front back in
      (
        back,
        rw (e, le→ltb n c.gap_limit h) (ap ok dropped),
        back_length,
        All-reverse IsUnused (take n xs) all,
      )

  module _ (new_account_address : ℕ → ℕ → Address) (pubkey_script_hash_hex : Address → ℕ) where
    -- What the loop of EnsureAddresses appends.
    pub record IsGrown (k : ℕ) (c : AddressChain Address) (acc : List Address)
        (r : AddressChain Address × List Address) : Type 0 where
      pub new : List Address
      pub addresses : r.0.addresses ≡ c.addresses ++ new
      pub added : r.1 ≡ acc ++ new
      pub count : length new ≡ k
      pub gap_limit : r.0.gap_limit ≡ c.gap_limit

    add_addresses-IsGrown :
        (k : ℕ) (c : AddressChain Address) (acc : List Address)
        → IsGrown k c acc (add_addresses new_account_address pubkey_script_hash_hex k c acc)
    unfolding add_addresses add_address next_address
    add_addresses-IsGrown zero c acc = record {
      new = [];
      addresses = sym (append-nil c.addresses);
      added = sym (append-nil acc);
      count = refl;
      gap_limit = refl;
    }
    add_addresses-IsGrown (suc k) c acc =
        let a = next_address new_account_address pubkey_script_hash_hex c in
        let g =
          add_addresses-IsGrown k (add_address new_account_address pubkey_script_hash_hex c)
            (acc ++ a ∷ []) in
        record {
          new = a ∷ g.new;
          addresses = g.addresses ∙ append_assoc c.addresses (a ∷ []) g.new;
          added = g.added ∙ append_assoc acc (a ∷ []) g.new;
          count = ap suc g.count;
          gap_limit = g.gap_limit;
        }

    add_addresses-tail :
        (k n : ℕ) (c : AddressChain Address) (acc : List Address)
        → unused_tail_count is_address_used c ≡ ok n
        → All IsUnused (add_addresses new_account_address pubkey_script_hash_hex k c acc).1
        → unused_tail_count is_address_used
            (add_addresses new_account_address pubkey_script_hash_hex k c acc).0
          ≡ ok (k + n)
    unfolding add_addresses add_address next_address unused_tail_count
    add_addresses-tail zero n c acc e all = e ∙ ap ok (omega arith)
    add_addresses-tail (suc k) n c acc e all =
        let a = next_address new_account_address pubkey_script_hash_hex c in
        let c' = add_address new_account_address pubkey_script_hash_hex c in
        let g = add_addresses-IsGrown k c' (acc ++ a ∷ []) in
        let unused : IsUnused a =
          All-middle IsUnused acc a g.new
            (subst (All IsUnused) (g.added ∙ append_assoc acc (a ∷ []) g.new) all) in
        let next : unused_tail_count is_address_used c' ≡ ok (suc n) =
          ap (tail_loop is_address_used) (reverse-append c.addresses (a ∷ []))
          ∙ tail_loop-unused a (reverse c.addresses) n unused e in
        add_addresses-tail k (suc n) c' (acc ++ a ∷ []) next all ∙ ap ok (omega arith)

    -- When EnsureAddresses returns, it has only appended, and returns what it appended. Either not all of
    -- the new addresses are known to be unused, or GetUnused then returns at least as many addresses as
    -- the gap limit, and none of them is used.
    pub ensure_addresses-get_unused :
        (c c' : AddressChain Address) (added : List Address)
        → ensure_addresses new_account_address pubkey_script_hash_hex is_address_used c
          ≡ ok (c', added)
        → (c'.addresses ≡ c.addresses ++ added)
          × ((All IsUnused added → ⊥)
              ⊎ ((unused : List Address) × (get_unused is_address_used c' ≡ ok unused)
                  × (c.gap_limit ≤ length unused)
                  × All IsUnused unused))
    unfolding ensure_addresses
    ensure_addresses-get_unused c c' added e =
        let (n, counted, e') = >>=-eq-ok (unused_tail_count is_address_used c) _ e in
        let k = c.gap_limit - n in
        let grown = add_addresses new_account_address pubkey_script_hash_hex k c [] in
        let same : grown ≡ (c', added) = ok_unique refl e' in
        let g = add_addresses-IsGrown k c [] in
        subst
          (λ (r : AddressChain Address × List Address).
            (r.0.addresses ≡ c.addresses ++ r.1)
            × ((All IsUnused r.1 → ⊥)
                ⊎ ((unused : List Address) × (get_unused is_address_used r.0 ≡ ok unused)
                    × (c.gap_limit ≤ length unused)
                    × All IsUnused unused)))
          same
          (
            g.addresses ∙ ap (λ l. c.addresses ++ l) (sym g.added),
            elim (All-IsUnused-cases grown.1) [
              | inr some_used ↦ inl some_used
              | inl all ↦
                  let count = add_addresses-tail k n c [] counted all in
                  let (unused, got, size, none_used) =
                    get_unused-ok grown.0 (k + n) count (omega (arith, g.gap_limit)) in
                  inr (unused, got, omega arith, none_used)
            ],
          )
