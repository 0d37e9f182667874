-- ===== src/Headers/Db/Slots.antt =====
-- What the file holds after each operation.
use mathlib.Core.Path.{subst}
use bitbox_wallet_app.Prelude.{
  Option-cases, take-take, take-length, ℕ, zero, suc, ◌+◌, ◌-◌, ◌≤◌, ◌<◌, ◌≡◌, ◌≢◌, refl, sym, ap,
  ◌∙◌, false, List, [], ◌∷◌, ◌++◌, none, some, arith, length, get_elem?, take, inl, inr, ◌⊎◌,
  length-take, if◌then◌else◌, ==_iff, Bool-cases, ltb→lt, ltb, ◌==◌,
}
use native.Mathlib.Decide.{dec_lt, ℕ_discrete}
use bitbox_wallet_app.Prelude.Run.{ok}
use bitbox_wallet_app.Headers.Db.{
  Header, is_zero, size, read, header_by_height, put_header, revert_to, fix_loop,
  fix_trailing_zeroes_headers,
}

pub put_header_end : (db : List Header) (h : Header) → put_header (length db) h db ≡ db ++ h ∷ []
unfolding put_header
put_header_end [] h = refl
put_header_end (x ∷ db) h = ap (◌∷◌ x) (put_header_end db h)

pub read-get_elem? :
    (db : List Header) (i : ℕ) (h : Header)
    → header_by_height db i ≡ some h
    → get_elem? db i ≡ some h
unfolding header_by_height read size
read-get_elem? [] i h e = ground arith
read-get_elem? (x ∷ db) zero h e = ground arith
read-get_elem? (x ∷ db) (suc i) h e = ground (arith, read-get_elem? db i h)

written_slots :
    (db : List Header) (i j : ℕ) (h : Header)
    → is_zero h ≡ false
    → (header_by_height (put_header i h db) i ≡ some h)
      × (i ≢ j → j < size db → header_by_height (put_header i h db) j ≡ header_by_height db j)
unfolding header_by_height put_header read size
written_slots [] zero j h e = (ground arith, λ p q. absurd (omega arith))
written_slots [] (suc i) j h e =
    (ground (arith, written_slots [] i 0 h e), λ p q. absurd (omega arith))
written_slots (x ∷ db) zero zero h e = (ground arith, λ p q. absurd (p refl))
written_slots (x ∷ db) zero (suc j) h e = (ground arith, λ p q. refl)
written_slots (x ∷ db) (suc i) zero h e =
    (ground (arith, written_slots db i 0 h e), λ p q. ground arith)
written_slots (x ∷ db) (suc i) (suc j) h e =
    let (same, other) = written_slots db i j h e in
    (ground arith, λ p q. let rest = other (λ r. p (ap suc r)) (omega arith) in ground arith)

-- A header that is written at any height is read back there, unless its bytes are all zero, and a
-- write changes no other slot that the file has.
pub header_by_height-put_header :
    (db : List Header) (i j : ℕ) (h : Header)
    → is_zero h ≡ false
    → (i ≡ j) ⊎ (j < size db)
    → header_by_height (put_header i h db) j ≡ (if i == j then some h else header_by_height db j)
header_by_height-put_header db i j h e inside = elim (Bool-cases (i == j)) [
  | inl same ↦
      let here : i ≡ j = (==_iff i j).0 same in
      rw same (
        subst (λ (k : ℕ). header_by_height (put_header i h db) k ≡ some h) here
          (written_slots db i j h e).0)
  | inr other ↦
      let apart : i ≢ j = λ q. (let r = (==_iff i j).1 q in cc) in
      rw other (elim inside [
        | inl here ↦ absurd (apart here)
        | inr lt ↦ (written_slots db i j h e).1 apart lt
      ])
]

pub kept_slots :
    (k : ℕ) (db : List Header) (i : ℕ)
    → (i < k → header_by_height (take k db) i ≡ header_by_height db i)
      × (k ≤ i → header_by_height (take k db) i ≡ none)
unfolding header_by_height read size
kept_slots zero db i = (λ p. absurd (omega arith), λ p. ground arith)
kept_slots (suc k) [] i = (λ p. refl, λ p. ground arith)
kept_slots (suc k) (x ∷ db) zero = (λ p. ground arith, λ p. absurd (omega arith))
kept_slots (suc k) (x ∷ db) (suc i) =
    let (below, above) = kept_slots k db i in
    (
      λ p. let rest = below (omega arith) in ground arith,
      λ p. let rest = above (omega arith) in ground arith,
    )

-- Below the new tip a revert changes nothing, and from there on there are no headers.
pub header_by_height-take :
    (k : ℕ) (db : List Header) (i : ℕ)
    → header_by_height (take k db) i ≡ (if ltb i k then header_by_height db i else none)
header_by_height-take k db i = elim (Bool-cases (ltb i k)) [
  | inl below ↦ rw below ((kept_slots k db i).0 (ltb→lt i k below))
  | inr above ↦ rw above ((kept_slots k db i).1 (not_ltb i k above))
]
  where
    not_ltb : (a b : ℕ) → ltb a b ≡ false → b ≤ a
    not_ltb a b e = ground arith

header_by_height-end : (db : List Header) (i : ℕ) → size db ≤ i → header_by_height db i ≡ none
unfolding header_by_height
header_by_height-end db i h = ground arith

-- What is left of the file: the first `count` slots.
pub record IsFixed (db : List Header) (count : ℕ) : Type 0 where
  pub inside : count ≤ size db
  pub dropped : (i : ℕ) → count ≤ i → header_by_height db i ≡ none
  pub last : (count ≡ 0) ⊎ ((h : Header) × (header_by_height db (count - 1) ≡ some h))

pub revert_to-ok : (n : ℕ) (db : List Header) → n ≤ size db → revert_to n db ≡ ok (take n db)
unfolding revert_to
revert_to-ok n db h = ground arith

-- A file whose last header is missing is fixed as the file without that slot.
shorter-IsFixed :
    (db : List Header) (tip count : ℕ)
    → size db ≡ suc tip
    → header_by_height db tip ≡ none
    → IsFixed (take tip db) count
    → IsFixed db count
unfolding size
shorter-IsFixed db tip count full e fixed =
    let inside : count ≤ tip = omega (arith, fixed.inside, length-take tip db) in
    record {
      inside = omega arith;
      dropped = λ i p. elim (dec_lt i tip) [
        | yes below ↦ sym ((kept_slots tip db i).0 below) ∙ fixed.dropped i p
        | no above ↦ elim (ℕ_discrete i tip) [
          | yes at ↦ rw at e
          | no higher ↦ header_by_height-end db i (omega arith)
        ]
      ];
      last = elim (ℕ_discrete count 0) [
        | yes z ↦ inl z
        | no some_left ↦ elim (fixed.last) [
          | inl z ↦ inl z
          | inr (h, found) ↦ inr (h, sym ((kept_slots tip db (count - 1)).0 (omega arith)) ∙ found)
        ]
      ];
    }

fix_loop-none :
    (fuel : ℕ) (x : Header) (xs : List Header)
    → header_by_height (x ∷ xs) (length xs) ≡ none
    → fix_loop (suc fuel) (x ∷ xs) ≡ fix_loop fuel (take (length xs) (x ∷ xs))
unfolding fix_loop size
fix_loop-none fuel x xs e = rw (e, fix_loop, revert_to-ok (length xs) (x ∷ xs) (omega arith)) refl

fix_loop-IsFixed :
    (fuel : ℕ) (db : List Header)
    → size db < fuel
    → (count : ℕ) × (fix_loop fuel db ≡ ok (take count db)) × IsFixed db count
unfolding fix_loop size
fix_loop-IsFixed zero db h = absurd (omega arith)
fix_loop-IsFixed (suc fuel) [] h = (
  0,
  refl,
  record {
    inside = omega arith;
    dropped = λ i p. header_by_height-end [] i (omega arith);
    last = inl refl;
  },
)
fix_loop-IsFixed (suc fuel) (x ∷ xs) h =
    let db = x ∷ xs in
    let tip = length xs in
    elim (Option-cases (header_by_height db tip)) [
      | inr (found, e) ↦ (
        suc tip,
        rw (e, fix_loop, take-length xs) refl,
        record {
          inside = omega arith;
          dropped = λ i p. header_by_height-end db i p;
          last = inr (found, (let n : suc tip - 1 ≡ tip = omega arith in rw n e));
        },
      )
      | inl e ↦
          let (count, r, fixed) =
            fix_loop-IsFixed fuel (take tip db) (omega (arith, length-take tip db)) in
          (
            count,
            fix_loop-none fuel x xs e
                ∙ r
                ∙ ap ok (take-take count tip db (omega (arith, fixed.inside, length-take tip db))),
            shorter-IsFixed db tip count refl e fixed,
          )
    ]

-- Opening the file always ends. It drops slots from the end, and only such without a header, until
-- the file is empty or its last slot holds a header.
pub fix_trailing_zeroes_headers_lem :
    (db : List Header)
    → (count : ℕ) × (fix_trailing_zeroes_headers db ≡ ok (take count db)) × IsFixed db count
unfolding fix_trailing_zeroes_headers
fix_trailing_zeroes_headers_lem db = fix_loop-IsFixed (size db + 1) db (omega arith)
