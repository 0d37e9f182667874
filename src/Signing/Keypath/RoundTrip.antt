-- ===== src/Signing/Keypath/RoundTrip.antt =====
-- Keypaths are read back from their text.
use bitbox_wallet_app.Prelude.{
  ℕ, ◌^◌, ◌<◌, ◌≡◌, refl, ap, ◌∙◌, Bool, true, false, List, [], ◌∷◌, ◌++◌, map, arith, All,
  All-append, Bool-cases, inl, inr,
}
use bitbox_wallet_app.Prelude.Int64.{is_negative}
use bitbox_wallet_app.Prelude.Run.{Run, ok, err}
use bitbox_wallet_app.Signing.Text.{
  Text, is_space, trim_left, trim_space, split, join, has_prefix, has_suffix, after_first,
  find_after,
}
use bitbox_wallet_app.Signing.Text.Laws.{
  Lacks, IsPlain, trim_space_plain, split-join, has_suffix-append, drop_last-append,
  has_suffix-Lacks,
}
use bitbox_wallet_app.Signing.Decimal.{format, atoi, IsDigit, format-IsDigit, atoi-format}
use bitbox_wallet_app.Signing.Keypath.{
  Error, no_m, starts_with_m, KeyNode, Keypath, hardened_key_symbol, slash, encode_node,
  check_index, parse_node, add_node, parse_part, parse_parts, new_keypath, encode,
  new_relative_keypath, new_absolute_keypath, encode_absolute,
}

abbrev pub IsUint32Node : KeyNode → Type 0
IsUint32Node node = node.index < 2 ^ 32

IsDigit-All : (P : ℕ → Type 0) → ((c : ℕ) → IsDigit c → P c) → (s : Text) → All IsDigit s → All P s
IsDigit-All P at [] h = tt
IsDigit-All P at (c ∷ s) h = (at c h.0, IsDigit-All P at s h.1)

digit_plain : (c : ℕ) → IsDigit c → is_space c ≡ false
unfolding is_space
digit_plain c h = ground arith

-- The text of a node is made of digits and the hardened symbol.
encode_node-All :
    (P : ℕ → Type 0)
    → ((c : ℕ) → IsDigit c → P c)
    → P hardened_key_symbol
    → (node : KeyNode) → All P (encode_node node)
unfolding encode_node
encode_node-All P digit symbol node =
    let all = IsDigit-All P digit (format node.index) (format-IsDigit node.index) in
    elim (Bool-cases node.hardened) [
      | inl e ↦ rw e (All-append P (format node.index) (hardened_key_symbol ∷ []) all (symbol, tt))
      | inr e ↦ rw e all
    ]

encode_node-IsPlain : (node : KeyNode) → IsPlain (encode_node node)
unfolding is_space
encode_node-IsPlain = encode_node-All _ digit_plain refl

encode_node-Lacks : (node : KeyNode) → Lacks slash (encode_node node)
encode_node-Lacks = encode_node-All _ (λ c h e. omega (arith, h, e)) (λ e. omega (arith, e))

encode_node-no_m : (node : KeyNode) → Lacks b'm' (encode_node node)
encode_node-no_m = encode_node-All _ (λ c h e. omega (arith, h, e)) (λ e. omega (arith, e))

read_index :
    (n : ℕ) (hardened : Bool)
    → n < 2 ^ 32
    → check_index hardened (atoi (format n)) ≡ ok (record { index = n; hardened = hardened })
unfolding check_index is_negative
read_index n hardened h = rw (atoi-format n h) (ground arith)

parse_hardened :
    (s : Text) → IsPlain s → parse_node (s ++ hardened_key_symbol ∷ []) ≡ check_index true (atoi s)
unfolding parse_node
parse_hardened s plain =
    rw
      (
        has_suffix-append hardened_key_symbol s,
        drop_last-append hardened_key_symbol s,
        trim_space_plain s plain,
      )
      refl

parse_plain : (s : Text) → Lacks hardened_key_symbol s → parse_node s ≡ check_index false (atoi s)
unfolding parse_node
parse_plain s lacks = rw (has_suffix-Lacks hardened_key_symbol s lacks) refl

parse_node-encode : (node : KeyNode) → IsUint32Node node → parse_node (encode_node node) ≡ ok node
unfolding encode_node
parse_node-encode node h =
    let all = format-IsDigit node.index in
    elim (Bool-cases node.hardened) [
      | inl e ↦
          rw (e, encode_node)
            (parse_hardened (format node.index) (IsDigit-All _ digit_plain (format node.index) all)
              ∙ read_index node.index true h)
      | inr e ↦
          rw (e, encode_node)
            (parse_plain (format node.index)
                (IsDigit-All _ (λ c d q. omega (arith, d, q)) (format node.index) all)
              ∙ read_index node.index false h)
    ]

parse_part-eq-ok :
    (s : Text) (node : KeyNode) (rest : Run Error Keypath)
    → parse_node s ≡ ok node
    → parse_part s rest ≡ add_node node rest
unfolding parse_part parse_node check_index has_suffix atoi
parse_part-eq-ok [] node rest e = cc
parse_part-eq-ok (c ∷ s) node rest e = rw e refl

parse_parts-encode :
    (path : Keypath) → All IsUint32Node path → parse_parts (map encode_node path) ≡ ok path
unfolding parse_parts
parse_parts-encode [] h = refl
parse_parts-encode (node ∷ path) h =
    ap (λ s. parse_part s (parse_parts (map encode_node path)))
      (trim_space_plain (encode_node node) (encode_node-IsPlain node))
    ∙ parse_part-eq-ok (encode_node node) node _ (parse_node-encode node h.0)
    ∙ ap (add_node node) (parse_parts-encode path h.1)
    ∙ unfold add_node in refl

map-Lacks : (path : Keypath) → All (Lacks slash) (map encode_node path)
map-Lacks [] = tt
map-Lacks (node ∷ path) = (encode_node-Lacks node, map-Lacks path)

-- The empty text has one empty part, which is skipped.
parse_empty : new_keypath [] ≡ ok []
unfolding new_keypath parse_parts split parse_part trim_space trim_left
parse_empty = refl

new_keypath-encode : (path : Keypath) → All IsUint32Node path → new_keypath (encode path) ≡ ok path
unfolding new_keypath encode join
new_keypath-encode [] h = parse_empty
new_keypath-encode (node ∷ path) h =
    ap parse_parts (
      split-join slash (encode_node node) (map encode_node path)
        (encode_node-Lacks node, map-Lacks path))
    ∙ parse_parts-encode (node ∷ path) h

join-All :
    (P : ℕ → Type 0) (c : ℕ) → P c → (words : List Text) → All (All P) words → All P (join c words)
unfolding join
join-All P c p [] h = tt
join-All P c p (word ∷ []) h = h.0
join-All P c p (word ∷ next ∷ words) h =
    All-append P word (c ∷ join c (next ∷ words)) h.0 (p, join-All P c p (next ∷ words) h.1)

encode-All :
    (P : ℕ → Type 0)
    → P slash
    → ((node : KeyNode) → All P (encode_node node))
    → (path : Keypath) → All P (encode path)
unfolding encode
encode-All P p nodes path = join-All P slash p (map encode_node path) (words path)
  where
    words : (l : Keypath) → All (All P) (map encode_node l)
    words [] = tt
    words (node ∷ l) = (nodes node, words l)

has_prefix-Lacks : (c : ℕ) (s : Text) → Lacks c s → has_prefix c s ≡ false
unfolding has_prefix
has_prefix-Lacks c [] h = refl
has_prefix-Lacks c (x ∷ s) h = let differs = h.0 in ground (arith, differs)

-- A keypath is read back from its text, as an absolute and as a relative one, for all indices of a
-- uint32; and the text of a relative one is refused as an absolute one, and the other way around.
pub keypath-encode :
    (path : Keypath)
    → All IsUint32Node path
    → (new_absolute_keypath (encode_absolute path) ≡ ok path)
      × (new_relative_keypath (encode path) ≡ ok path)
      × (new_absolute_keypath (encode path) ≡ err no_m)
      × (new_relative_keypath (encode_absolute path) ≡ err starts_with_m)
unfolding new_absolute_keypath new_relative_keypath encode_absolute has_prefix is_space after_first
    find_after
keypath-encode path h =
    let plain = encode-All _ refl encode_node-IsPlain path in
    let relative = trim_space_plain (encode path) plain in
    let absolute = trim_space_plain (b'm' ∷ slash ∷ encode path) (refl, (refl, plain)) in
    let number =
      has_prefix-Lacks b'm' (encode path)
        (encode-All _ (λ e. omega (arith, e)) encode_node-no_m path) in
    (
      rw absolute (new_keypath-encode path h),
      rw (relative, number) (new_keypath-encode path h),
      rw (relative, number) refl,
      rw absolute refl,
    )
