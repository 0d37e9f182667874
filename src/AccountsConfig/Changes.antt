-- ===== src/AccountsConfig/Changes.antt =====
-- Every change of the configuration keeps the accounts different.
use mathlib.Core.Path.{subst}
use bitbox_wallet_app.Prelude.{
  ◌≡◌, inl, inr, refl, sym, ap, ◌∙◌, Bool, true, false, not, List, [], ◌∷◌, ◌++◌, map, Option,
  Bool-cases, if◌then◌else◌,
}
use mathlib.Core.Path.{ap₂}
use bitbox_wallet_app.Prelude.Run.{Run, ok, >>=-eq-ok, ok_unique}
use bitbox_wallet_app.Signing.Configuration.{same_bytes}
use bitbox_wallet_app.Coins.{Text, eth, same_coin}
use bitbox_wallet_app.AccountsConfig.{
  Error, Account, AccountsConfig, modify_in, modify_account, set_account_active, set_token_active,
  set_account_token_active, rename_account, set_watch_in, account_set_watch, check_new,
  persist_account,
}
use bitbox_wallet_app.AccountsConfig.Unique.{
  Identity, identity, ArePairwiseDifferent, IsUnique, append-ArePairwiseDifferent, identity-append,
  check_new-AreDifferent,
}

pub persist_account-IsUnique :
    (a : Account) (cfg cfg' : AccountsConfig)
    → persist_account a cfg ≡ ok cfg'
    → IsUnique cfg.accounts
    → IsUnique cfg'.accounts
unfolding persist_account
persist_account-IsUnique a cfg cfg' e u = elim (Bool-cases (same_bytes a.name [])) [
  | inl empty ↦ (let r = rw empty at e in cc)
  | inr named ↦
      let (done, new, added) = >>=-eq-ok (check_new a cfg.accounts) _ (rw named at e) in
      let same : record cfg { accounts = cfg.accounts ++ a ∷ [] } ≡ cfg' = ok_unique refl added in
      subst (λ (c : AccountsConfig). IsUnique c.accounts) same
        (subst ArePairwiseDifferent (sym (identity-append cfg.accounts a)) (
          append-ArePairwiseDifferent (map identity cfg.accounts) (identity a) u
            (check_new-AreDifferent a cfg.accounts done new)))
]

-- A change of one account that keeps what tells accounts apart.
pub modify_in-identity :
    (code : Text) (f : Account → Run Error Account) (as' bs : List Account)
    → ((a b : Account) → f a ≡ ok b → identity b ≡ identity a)
    → modify_in code f as' ≡ ok bs
    → map identity bs ≡ map identity as'
unfolding modify_in
modify_in-identity code f [] bs h e = cc
modify_in-identity code f (a ∷ as') bs h e = elim (Bool-cases (same_bytes a.code code)) [
  | inl found ↦
      let (b, change, done) = >>=-eq-ok (f a) _ (rw found at e) in
      let same : b ∷ as' ≡ bs = ok_unique refl done in
      ap (λ (xs : List Account). map identity xs) (sym same)
      ∙ ap (λ (x : Identity). x ∷ map identity as') (h a b change)
  | inr other ↦
      let (cs, rest, done) = >>=-eq-ok (modify_in code f as') _ (rw other at e) in
      let same : a ∷ cs ≡ bs = ok_unique refl done in
      ap (λ (xs : List Account). map identity xs) (sym same)
      ∙ ap (λ (xs : List Identity). identity a ∷ xs) (modify_in-identity code f as' cs h rest)
]

modify_account-IsUnique :
    (code : Text) (f : Account → Run Error Account) (cfg cfg' : AccountsConfig)
    → ((a b : Account) → f a ≡ ok b → identity b ≡ identity a)
    → modify_account code f cfg ≡ ok cfg'
    → IsUnique cfg.accounts
    → IsUnique cfg'.accounts
unfolding modify_account
modify_account-IsUnique code f cfg cfg' h e u =
    let (bs, modified, done) = >>=-eq-ok (modify_in code f cfg.accounts) _ e in
    let same : record cfg { accounts = bs } ≡ cfg' = ok_unique refl done in
    subst (λ (c : AccountsConfig). IsUnique c.accounts) same
      (subst ArePairwiseDifferent (sym (modify_in-identity code f cfg.accounts bs h modified)) u)

set_watch_in-identity :
    (filter : Account → Bool) (watch : Option Bool) (as' : List Account)
    → map identity (set_watch_in filter watch as') ≡ map identity as'
unfolding set_watch_in
set_watch_in-identity filter watch [] = refl
set_watch_in-identity filter watch (a ∷ as') =
    ap₂ (λ (x : Identity) (xs : List Identity). x ∷ xs) (one (filter a))
      (set_watch_in-identity filter watch as')
  where
    one : (c : Bool) → identity (if c then record a { watch = watch } else a) ≡ identity a
    one true = refl
    one false = refl

set_token_active-identity :
    (token : Text) (active : Bool) (a b : Account)
    → set_token_active token active a ≡ ok b
    → identity b ≡ identity a
unfolding set_token_active
set_token_active-identity token active a b e = elim (Bool-cases (same_coin a.coin_code eth)) [
  | inl is_eth ↦ ap identity (sym (ok_unique refl (rw is_eth at e)))
  | inr other ↦ (let r = rw other at e in cc)
]

pub data Change : AccountsConfig → AccountsConfig → Type 0 where
  persisted :
      (a : Account) (cfg cfg' : AccountsConfig) → persist_account a cfg ≡ ok cfg' → Change cfg cfg'
  activated :
      (code : Text) (active : Bool) (cfg cfg' : AccountsConfig)
      → set_account_active code active cfg ≡ ok cfg'
      → Change cfg cfg'
  token_set :
      (code token : Text) (active : Bool) (cfg cfg' : AccountsConfig)
      → set_account_token_active code token active cfg ≡ ok cfg'
      → Change cfg cfg'
  renamed :
      (code name : Text) (cfg cfg' : AccountsConfig)
      → rename_account code name cfg ≡ ok cfg'
      → Change cfg cfg'
  watched :
      (filter : Account → Bool) (watch : Option Bool) (cfg : AccountsConfig)
      → Change cfg (account_set_watch filter watch cfg)

pub Change-IsUnique :
    (cfg cfg' : AccountsConfig) → Change cfg cfg' → IsUnique cfg.accounts → IsUnique cfg'.accounts
unfolding set_account_active set_account_token_active rename_account account_set_watch
Change-IsUnique _ _ (persisted a cfg cfg' e) u = persist_account-IsUnique a cfg cfg' e u
Change-IsUnique _ _ (activated code active cfg cfg' e) u =
    modify_account-IsUnique code (λ a. ok (record a { inactive = not active })) cfg cfg'
      (λ a b q. ap identity (sym (ok_unique {r = ok (record a { inactive = not active })} refl q)))
      e u
Change-IsUnique _ _ (token_set code token active cfg cfg' e) u =
    modify_account-IsUnique code _ cfg cfg' (set_token_active-identity token active) e u
Change-IsUnique _ _ (renamed code name cfg cfg' e) u = elim (Bool-cases (same_bytes name [])) [
  | inl empty ↦ (let r = rw empty at e in cc)
  | inr named ↦
      modify_account-IsUnique code (λ a. ok (record a { name = name })) cfg cfg'
        (λ a b q. ap identity (sym (ok_unique {r = ok (record a { name = name })} refl q)))
        (rw named at e) u
]
Change-IsUnique _ _ (watched filter watch cfg) u =
    subst ArePairwiseDifferent (sym (set_watch_in-identity filter watch cfg.accounts)) u
