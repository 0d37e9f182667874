-- ===== src/Signing/Decimal.antt =====
-- fmt.Sprint of a uint32 and strconv.Atoi, as backend/signing/keypath.go uses them.
use bitbox_wallet_app.Prelude.{
  ℕ, zero, suc, ◌+◌, ◌-◌, ◌*◌, ◌/◌, ◌%◌, ◌≤◌, ◌<◌, ◌≡◌, refl, sym, ap, ◌∙◌, [], ◌∷◌, Option, none,
  some, arith, leb, ltb, ◌==◌, ◌&&◌, Bool-cases, inl, inr, ◌^◌, if◌then◌else◌, All,
}
use mathlib.Core.Path.{subst}
use bitbox_wallet_app.Prelude.Int64.{Int64, half, neg}
use bitbox_wallet_app.Signing.Text.{Text}

abbrev pub power10 : ℕ → ℕ
power10 zero = 1
power10 (suc k) = 10 * power10 k

-- The digits of a number of at most `k` digits, before those of `out`.
unfoldable pub digits : ℕ → ℕ → Text → Text
digits zero n out = out
digits (suc k) n out =
    let out' = (b'0' + n % 10) ∷ out in
    let rest = digits k (n / 10) out' in if n / 10 == 0 then out' else rest

-- Ten digits are enough for a uint32.
unfoldable pub format : ℕ → Text
format n = digits 10 n []

unfoldable pub scan : Text → ℕ → Option ℕ
scan [] n = some n
scan (c ∷ s) n =
    let rest = scan s (n * 10 + (c - b'0')) in if leb b'0' c && leb c b'9' then rest else none

-- At least one digit.
unfoldable pub magnitude : Text → Option ℕ
magnitude [] = none
magnitude (c ∷ s) = scan (c ∷ s) 0

-- The range of an int.
unfoldable pub positive : Option ℕ → Option Int64
positive none = none
positive (some n) = if ltb n half then some n else none

unfoldable pub negative : Option ℕ → Option Int64
negative none = none
negative (some n) = if leb n half then some (neg n) else none

unfoldable pub atoi : Text → Option Int64
atoi [] = none
atoi (c ∷ s) =
    if c == b'-'
    then negative (magnitude s)
    else (if c == b'+' then positive (magnitude s) else positive (magnitude (c ∷ s)))

abbrev pub IsDigit : ℕ → Type 0
IsDigit c = (b'0' ≤ c) × (c ≤ b'9')

scan_last : (n : ℕ) (out : Text) → scan ((b'0' + n % 10) ∷ out) (n / 10) ≡ scan out n
unfolding scan
scan_last n out = ground arith

scan-digits : (k n : ℕ) (out : Text) → n < power10 k → scan (digits k n out) 0 ≡ scan out n
unfolding digits
scan-digits zero n out h = ap (scan out) (omega arith)
scan-digits (suc k) n out h =
    ground (arith, scan_last n out, scan-digits k (n / 10) ((b'0' + n % 10) ∷ out) (omega arith))

digits-IsDigit : (k n : ℕ) (out : Text) → All IsDigit out → All IsDigit (digits k n out)
unfolding digits
digits-IsDigit zero n out h = h
digits-IsDigit (suc k) n out h =
    let one : IsDigit (b'0' + n % 10) = omega arith in
    ground (arith, digits-IsDigit k (n / 10) ((b'0' + n % 10) ∷ out) (one, h))

-- The text has a first digit.
pub record IsNumber (s : Text) : Type 0 where
  pub first : ℕ
  pub others : Text
  pub whole : s ≡ first ∷ others

digits-cons : (k n c : ℕ) (out : Text) → IsNumber (digits k n (c ∷ out))
unfolding digits
digits-cons zero n c out = record { first = c; others = out; whole = refl }
digits-cons (suc k) n c out = elim (Bool-cases (n / 10 == 0)) [
  | inl e ↦ rw (e, digits) (record { first = b'0' + n % 10; others = c ∷ out; whole = refl })
  | inr e ↦ rw (e, digits) (digits-cons k (n / 10) (b'0' + n % 10) (c ∷ out))
]

format-IsNumber : (n : ℕ) → IsNumber (format n)
unfolding format digits
format-IsNumber n = elim (Bool-cases (n / 10 == 0)) [
  | inl e ↦ rw e (record { first = b'0' + n % 10; others = []; whole = refl })
  | inr e ↦ rw e (digits-cons 9 (n / 10) (b'0' + n % 10) [])
]

pub format-IsDigit : (n : ℕ) → All IsDigit (format n)
unfolding format
format-IsDigit n = digits-IsDigit 10 n [] tt

atoi_digits : (c : ℕ) (s : Text) → IsDigit c → atoi (c ∷ s) ≡ positive (scan (c ∷ s) 0)
unfolding atoi magnitude
atoi_digits c s h = ground arith

positive-scan : (n : ℕ) → n < 2 ^ 32 → positive (scan (format n) 0) ≡ some n
unfolding format positive
positive-scan n h = ap positive (scan-digits 10 n [] (omega arith) ∙ scan_nil n) ∙ ground arith
  where
    scan_nil : (m : ℕ) → scan [] m ≡ some m
    scan_nil m = unfold scan in refl

-- Atoi reads every uint32 back from its decimal print.
pub atoi-format : (n : ℕ) → n < 2 ^ 32 → atoi (format n) ≡ some n
atoi-format n h =
    let f = format-IsNumber n in
    let digit : IsDigit f.first = (subst (All IsDigit) f.whole (format-IsDigit n)).0 in
    ap atoi f.whole
    ∙ atoi_digits f.first f.others digit
    ∙ ap (λ s. positive (scan s 0)) (sym f.whole)
    ∙ positive-scan n h
