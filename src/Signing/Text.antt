-- ===== src/Signing/Text.antt =====
-- What backend/signing/keypath.go uses of Go's package strings. A text is the list of its code points.
pub mod Laws
use bitbox_wallet_app.Prelude.{
  ℕ, ◌-◌, Bool, true, false, List, [], ◌∷◌, ◌++◌, leb, ◌==◌, ◌&&◌, ◌||◌, if◌then◌else◌,
}
use mathlib.Core.List.{reverse}

abbrev pub Text : Type 0
Text = List ℕ

-- unicode.IsSpace.
unfoldable pub is_space : ℕ → Bool
is_space c =
    (leb 9 c && leb c 13)
    || (c == 32
        || (c == 0x85
            || (c == 0xa0
                || (c == 0x1680
                    || ((leb 0x2000 c && leb c 0x200a)
                        || (c == 0x2028
                            || (c == 0x2029 || (c == 0x202f || (c == 0x205f || c == 0x3000)))))))))

unfoldable pub trim_left : Text → Text
trim_left [] = []
trim_left (c ∷ s) = let rest = trim_left s in if is_space c then rest else c ∷ s

unfoldable pub trim_space : Text → Text
trim_space s = reverse (trim_left (reverse (trim_left s)))

-- The word so far belongs to the first part.
unfoldable pub prepend : ℕ → List Text → List Text
prepend c [] = (c ∷ []) ∷ []
prepend c (word ∷ words) = (c ∷ word) ∷ words

-- strings.Split, for a separator of one code point.
unfoldable pub split : ℕ → Text → List Text
unfolding prepend
split sep [] = [] ∷ []
split sep (c ∷ s) = let rest = split sep s in if c == sep then [] ∷ rest else prepend c rest

unfoldable pub join : ℕ → List Text → Text
join sep [] = []
join sep (word ∷ []) = word
join sep (word ∷ next ∷ words) = word ++ sep ∷ join sep (next ∷ words)

unfoldable pub has_prefix : ℕ → Text → Bool
has_prefix c [] = false
has_prefix c (x ∷ s) = x == c

unfoldable pub has_suffix : ℕ → Text → Bool
has_suffix c [] = false
has_suffix c (x ∷ []) = x == c
has_suffix c (x ∷ y ∷ s) = has_suffix c (y ∷ s)

-- s[:len(s)-1].
unfoldable pub drop_last : Text → Text
drop_last [] = []
drop_last (x ∷ []) = []
drop_last (x ∷ y ∷ s) = x ∷ drop_last (y ∷ s)

-- s[strings.Index(s, c)+1:]: the whole text if it has no c.
unfoldable pub find_after : ℕ → Text → Text → Text
find_after c whole [] = whole
find_after c whole (x ∷ s) = let rest = find_after c whole s in if x == c then s else rest

unfoldable pub after_first : ℕ → Text → Text
unfolding find_after
after_first c s = find_after c s s
