-- ===== src/AccountsConfig/Tokens.antt =====
-- The active tokens of an account.
use bitbox_wallet_app.Prelude.{
  ℕ, zero, ◌+◌, ◌≡◌, refl, sym, ap, ◌∙◌, Bool, true, false, List, [], ◌∷◌, ◌++◌, arith, Bool-cases,
  inl, inr, if◌then◌else◌,
}
use bitbox_wallet_app.Prelude.Run.{ok}
use bitbox_wallet_app.Signing.Configuration.{same_bytes}
use bitbox_wallet_app.Signing.Configuration.Bytes.{same_bytes-true}
use bitbox_wallet_app.Coins.{Text, eth, same_coin}
use bitbox_wallet_app.AccountsConfig.{Account, without, set_token_active}

abbrev pub count : Text → List Text → ℕ
count t [] = 0
count t (x ∷ xs) = (if same_bytes x t then 1 else 0) + count t xs

count-append : (t : Text) (xs ys : List Text) → count t (xs ++ ys) ≡ count t xs + count t ys
count-append t [] ys = omega arith
count-append t (x ∷ xs) ys = omega (arith, count-append t xs ys)

removed_one :
    (c : Bool) (n : ℕ) → (if c then 0 else n) ≡ (if c then 0 else (if c then 1 else 0) + n)
removed_one true n = refl
removed_one false n = omega arith

kept_one :
    (c d : Bool) (n : ℕ)
    → (c ≡ true → d ≡ false)
    → (if d then 1 else 0) + (if c then 0 else n) ≡ (if c then 0 else (if d then 1 else 0) + n)
kept_one true d n h = rw (h refl) refl
kept_one false d n h = refl

none_if : (c : Bool) → zero ≡ (if c then zero else zero)
none_if true = refl
none_if false = refl

count-without :
    (t token : Text) (ts : List Text)
    → count t (without token ts) ≡ (if same_bytes token t then 0 else count t ts)
unfolding without
count-without t token [] = none_if (same_bytes token t)
count-without t token (x ∷ xs) = elim (Bool-cases (same_bytes x token)) [
  | inl e ↦
      rw (e, without)
        (count-without t token xs
          ∙ removed_one (same_bytes token t) (count t xs)
          ∙ ap
              (λ (y : Text).
                if same_bytes token t then 0 else (if same_bytes y t then 1 else 0) + count t xs)
              (sym (same_bytes-true x token e)))
  | inr e ↦
      rw (e, without)
        (ap (λ (n : ℕ). (if same_bytes x t then 1 else 0) + n) (count-without t token xs)
          ∙ kept_one (same_bytes token t) (same_bytes x t) (count t xs)
              (λ c. ap (λ (y : Text). same_bytes x y) (sym (same_bytes-true token t c)) ∙ e))
]

one_more :
    (c : Bool) (n m : ℕ)
    → n ≡ (if c then 0 else m)
    → n + ((if c then 1 else 0) + 0) ≡ (if c then 1 else m)
one_more true n m h = omega arith
one_more false n m h = omega arith

-- SetTokenActive of an account of ETH returns: the token is then listed once if it was activated, and
-- not if it was not, and every other token as often as before. The rest of the account is as before.
pub set_token_active_lem :
    (token : Text) (active : Bool) (a : Account) (t : Text)
    → same_coin a.coin_code eth ≡ true
    → (b : Account) × (set_token_active token active a ≡ ok b)
      × (b ≡ record a { active_tokens = b.active_tokens })
      × (count t b.active_tokens
          ≡ (if same_bytes token t then (if active then 1 else 0) else count t a.active_tokens))
unfolding set_token_active
set_token_active_lem token true a t e = (
  record a { active_tokens = without token a.active_tokens ++ token ∷ [] },
  rw e refl,
  refl,
  count-append t (without token a.active_tokens) (token ∷ [])
      ∙ one_more (same_bytes token t) _ _ (count-without t token a.active_tokens),
)
set_token_active_lem token false a t e = (
  record a { active_tokens = without token a.active_tokens },
  rw e refl,
  refl,
  count-without t token a.active_tokens,
)
