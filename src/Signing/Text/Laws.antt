-- ===== src/Signing/Text/Laws.antt =====
-- Splitting undoes joining, and trimming leaves a text without spaces alone.
use bitbox_wallet_app.Prelude.{
  ℕ, ◌≡◌, ◌≢◌, refl, ap, ◌∙◌, true, false, List, [], ◌∷◌, ◌++◌, ◌==◌, Bool-cases, inl, inr, ==_iff,
  ==_self, All, All-append,
}
use mathlib.Core.List.{reverse, reverse-cons, reverse-reverse}
use bitbox_wallet_app.Signing.Text.{
  Text, is_space, trim_left, trim_space, prepend, split, join, has_suffix, drop_last,
}

abbrev pub Lacks : ℕ → Text → Type 0
Lacks c = All (λ x. x ≢ c)

abbrev pub IsPlain : Text → Type 0
IsPlain = All (λ x. is_space x ≡ false)

All-reverse : (P : ℕ → Type 0) (s : Text) → All P s → All P (reverse s)
All-reverse P [] h = tt
All-reverse P (x ∷ s) h =
    rw (reverse-cons x s) (All-append P (reverse s) (x ∷ []) (All-reverse P s h.1) (h.0, tt))

trim_left_plain : (s : Text) → IsPlain s → trim_left s ≡ s
unfolding trim_left
trim_left_plain [] h = refl
trim_left_plain (c ∷ s) h = rw h.0 refl

pub trim_space_plain : (s : Text) → IsPlain s → trim_space s ≡ s
unfolding trim_space
trim_space_plain s h =
    ap (λ l. reverse (trim_left (reverse l))) (trim_left_plain s h)
    ∙ ap reverse (trim_left_plain (reverse s) (All-reverse _ s h))
    ∙ reverse-reverse s

==_false : (a b : ℕ) → a ≢ b → (a == b) ≡ false
==_false a b h = elim (Bool-cases (a == b)) [ inl e ↦ absurd (h ((==_iff a b).0 e)) | inr e ↦ e ]

-- A last word.
split_word : (sep : ℕ) (word : Text) → Lacks sep word → split sep word ≡ word ∷ []
unfolding split prepend
split_word sep [] h = refl
split_word sep (c ∷ word) h = rw (==_false c sep h.0, split_word sep word h.1) refl

-- A word before a separator.
split-append :
    (sep : ℕ) (word rest : Text)
    → Lacks sep word
    → split sep (word ++ sep ∷ rest) ≡ word ∷ split sep rest
unfolding split prepend
split-append sep [] rest h = rw (==_self sep) refl
split-append sep (c ∷ word) rest h = rw (==_false c sep h.0, split-append sep word rest h.1) refl

pub split-join :
    (sep : ℕ) (word : Text) (words : List Text)
    → All (Lacks sep) (word ∷ words)
    → split sep (join sep (word ∷ words)) ≡ word ∷ words
unfolding join
split-join sep word [] h = split_word sep word h.0
split-join sep word (next ∷ words) h =
    split-append sep word (join sep (next ∷ words)) h.0
    ∙ ap (◌∷◌ word) (split-join sep next words h.1)

pub has_suffix-append : (c : ℕ) (s : Text) → has_suffix c (s ++ c ∷ []) ≡ true
unfolding has_suffix
has_suffix-append c [] = ==_self c
has_suffix-append c (x ∷ []) = ==_self c
has_suffix-append c (x ∷ y ∷ s) = has_suffix-append c (y ∷ s)

pub drop_last-append : (c : ℕ) (s : Text) → drop_last (s ++ c ∷ []) ≡ s
unfolding drop_last
drop_last-append c [] = refl
drop_last-append c (x ∷ []) = refl
drop_last-append c (x ∷ y ∷ s) = ap (◌∷◌ x) (drop_last-append c (y ∷ s))

pub has_suffix-Lacks : (c : ℕ) (s : Text) → Lacks c s → has_suffix c s ≡ false
unfolding has_suffix
has_suffix-Lacks c [] h = refl
has_suffix-Lacks c (x ∷ []) h = ==_false x c h.0
has_suffix-Lacks c (x ∷ y ∷ s) h = has_suffix-Lacks c (y ∷ s) h.1
