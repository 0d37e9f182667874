-- ===== src/AccountsConfig/Unique.antt =====
-- The accounts of the configuration stay different.
use bitbox_wallet_app.Prelude.{
  ℕ, ◌≡◌, ◌≢◌, ◌⊎◌, inl, inr, refl, sym, ap, ◌∙◌, Bool, true, false, List, [], ◌∷◌, ◌++◌, map,
  Option, none, some, All, ◌==◌, ==_iff, Bool-cases,
}
use bitbox_wallet_app.Prelude.Run.{Run, ok, ◌>>=◌, >>=-eq-ok, ok_unique, or_panic}
use bitbox_wallet_app.Signing.Configuration.{Configuration, KeyInfo, same_bytes, key_info_of}
use bitbox_wallet_app.Signing.Configuration.Bytes.{same_bytes-false}
use bitbox_wallet_app.Coins.{Text, CoinCode, same_coin}
use bitbox_wallet_app.AccountsConfig.{
  Error, Account, key_of, has_key, shares_key, refuse_if, check_beside, check_new,
}

-- The extended key of a configuration, and of all.
abbrev key_in : Option (KeyInfo ℕ) → Option ℕ
key_in none = none
key_in (some k) = some k.extended_public_key

abbrev pub keys : List (Configuration ℕ) → List (Option ℕ)
keys [] = []
keys (c ∷ cs) = key_in (key_info_of c.bitcoin_simple c.ethereum_simple) ∷ keys cs

abbrev pub AreDisjoint : List (Option ℕ) → List (Option ℕ) → Type 0
AreDisjoint xs ys = All (λ x. All (λ y. x ≢ y) ys) xs

-- What tells accounts apart.
pub record Identity : Type 0 where
  pub code : Text
  pub coin_code : CoinCode
  pub signing_configurations : List (Configuration ℕ)

abbrev pub identity : Account → Identity
identity a = record {
  code = a.code;
  coin_code = a.coin_code;
  signing_configurations = a.signing_configurations;
}

-- Two accounts have two codes, and on one coin no key in common.
abbrev pub AreDifferent : Identity → Identity → Type 0
AreDifferent a b =
    (a.code ≢ b.code)
    × ((same_coin a.coin_code b.coin_code ≡ false)
        ⊎ AreDisjoint (keys a.signing_configurations) (keys b.signing_configurations))

abbrev pub ArePairwiseDifferent : List Identity → Type 0
ArePairwiseDifferent [] = Unit
ArePairwiseDifferent (a ∷ as') = All (λ later. AreDifferent later a) as' × ArePairwiseDifferent as'

-- Every account is different from those before it.
abbrev pub IsUnique : List Account → Type 0
IsUnique as' = ArePairwiseDifferent (map identity as')

pub append-ArePairwiseDifferent :
    (as' : List Identity) (a : Identity)
    → ArePairwiseDifferent as'
    → All (λ b. AreDifferent a b) as'
    → ArePairwiseDifferent (as' ++ a ∷ [])
append-ArePairwiseDifferent [] a u h = (_, _)
append-ArePairwiseDifferent (b ∷ bs) a (first, rest) (h, hs) =
    (append_all bs first, append-ArePairwiseDifferent bs a rest hs)
  where
    append_all :
        (cs : List Identity)
        → All (λ later. AreDifferent later b) cs
        → All (λ later. AreDifferent later b) (cs ++ a ∷ [])
    append_all [] q = (h, _)
    append_all (c ∷ cs) (q, qs) = (q, append_all cs qs)

pub identity-append :
    (as' : List Account) (a : Account)
    → map identity (as' ++ a ∷ []) ≡ map identity as' ++ identity a ∷ []
identity-append [] a = refl
identity-append (b ∷ bs) a = ap (λ (xs : List Identity). identity b ∷ xs) (identity-append bs a)

abbrev key_run : Option (KeyInfo ℕ) → Run Error ℕ
key_run o = or_panic o >>= λ k. ok k.extended_public_key

key_of-key :
    (c : Configuration ℕ) (x : ℕ)
    → key_of c ≡ ok x
    → key_in (key_info_of c.bitcoin_simple c.ethereum_simple) ≡ some x
unfolding key_of
key_of-key c x e = go (key_info_of c.bitcoin_simple c.ethereum_simple) e
  where
    go : (o : Option (KeyInfo ℕ)) → key_run o ≡ ok x → key_in o ≡ some x
    go none q = cc
    go (some k) q = ap some (ok_unique refl q)

has_key-false :
    (c : Configuration ℕ) (ds : List (Configuration ℕ))
    → has_key c ds ≡ ok false
    → All (λ y. key_in (key_info_of c.bitcoin_simple c.ethereum_simple) ≢ y) (keys ds)
unfolding has_key
has_key-false c [] e = _
has_key-false c (d ∷ ds) e =
    let (x, ex, e') = >>=-eq-ok (key_of c) _ e in
    let (y, ey, e'') = >>=-eq-ok (key_of d) _ e' in
    elim (Bool-cases (x == y)) [
      | inl same ↦ (let r = ok_unique refl (rw same at e'') in cc)
      | inr differ ↦ (
        λ q. other_keys x y differ (sym (key_of-key c x ex) ∙ q ∙ key_of-key d y ey),
        has_key-false c ds (rw differ at e''),
      )
    ]
  where
    other_keys : (x y : ℕ) → (x == y) ≡ false → some x ≢ some y
    other_keys x y e q = (let same : x ≡ y = cc in (let r = (==_iff x y).1 same in cc))

shares_key-false :
    (cs ds : List (Configuration ℕ)) → shares_key cs ds ≡ ok false → AreDisjoint (keys cs) (keys ds)
unfolding shares_key
shares_key-false [] ds e = _
shares_key-false (c ∷ cs) ds e =
    let (h, eh, e') = >>=-eq-ok (has_key c ds) _ e in
    elim (Bool-cases h) [
      | inl shared ↦ (let r = ok_unique refl (rw shared at e') in cc)
      | inr apart ↦ (has_key-false c ds (eh ∙ ap ok apart), shares_key-false cs ds (rw apart at e'))
    ]

refuse_if-false : (s : Bool) (u : Unit {0}) → refuse_if s ≡ ok u → s ≡ false
unfolding refuse_if
refuse_if-false true u e = cc
refuse_if-false false u e = refl

check_beside-AreDifferent :
    (a b : Account) (u : Unit {0})
    → check_beside a b ≡ ok u
    → AreDifferent (identity a) (identity b)
unfolding check_beside
check_beside-AreDifferent a b u e = elim (Bool-cases (same_bytes a.code b.code)) [
  | inl same ↦ (let r = rw same at e in cc)
  | inr other ↦
      let e' = rw other at e in
      (
        same_bytes-false a.code b.code other,
        elim (Bool-cases (same_coin a.coin_code b.coin_code)) [
          | inr apart ↦ inl apart
          | inl together ↦
              let (s, shared, refused) =
                >>=-eq-ok (shares_key a.signing_configurations b.signing_configurations) refuse_if
                  (rw together at e') in
              inr (
                shares_key-false a.signing_configurations b.signing_configurations
                  (shared ∙ ap ok (refuse_if-false s u refused)))
        ],
      )
]

pub check_new-AreDifferent :
    (a : Account) (bs : List Account) (u : Unit {0})
    → check_new a bs ≡ ok u
    → All (λ b. AreDifferent (identity a) b) (map identity bs)
unfolding check_new
check_new-AreDifferent a [] u e = _
check_new-AreDifferent a (b ∷ bs) u e =
    let (done, first, rest) = >>=-eq-ok (check_beside a b) _ e in
    (check_beside-AreDifferent a b done first, check_new-AreDifferent a bs u rest)
