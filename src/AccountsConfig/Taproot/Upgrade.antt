-- ===== src/AccountsConfig/Taproot/Upgrade.antt =====
-- The accounts after maybeAddP2TR.
use mathlib.Core.Path.{subst}
use bitbox_wallet_app.Prelude.{
  ℕ, suc, ◌^◌, ◌<◌, ◌≡◌, ◌≢◌, All, ◌⊎◌, inl, inr, refl, sym, ap, true, false, ◌&&◌, List, [], ◌∷◌,
  ◌++◌, Option, none, some, Bool-cases, ltb, leb, arith,
}
use bitbox_wallet_app.Prelude.Run.{Run, ok, err, panic, out_of_fuel, >>=-eq-ok, ok_unique}
use bitbox_wallet_app.Maketx.Types.{p2tr}
use bitbox_wallet_app.Signing.Keypath.{Keypath, hardened_key_start}
use bitbox_wallet_app.Signing.Configuration as S
use bitbox_wallet_app.Signing.Configuration.{
  Configuration, bitcoin_account, ethereum_account, account_number_of, account_number, bitcoin_of,
  find_from, has_script_type, find_script_type, new_bitcoin_configuration,
}
use bitbox_wallet_app.AccountsConfig.{Error, no_coin, no_key, no_fingerprint, no_number, Account}
use bitbox_wallet_app.AccountsConfig.Creation.{
  Wallet, Env, or_err, bip44_keypath, panicking, no_child,
}
use bitbox_wallet_app.AccountsConfig.Creation.Numbered.{
  or_err_unique, IsNumbered, bitcoin-IsNumbered,
}
use bitbox_wallet_app.AccountsConfig.Creation.Paths.{bip44_keypath-number}
use bitbox_wallet_app.AccountsConfig.Taproot.{
  is_bitcoin, bip44_coin, first_number, lacks_taproot, taproot_of, add_taproot, add_taproot_all,
  maybe_add_p2tr,
}

bitcoin_account_small : (xs : List ℕ) (n : ℕ) → bitcoin_account xs ≡ ok n → n < 2 ^ 16
unfolding bitcoin_account
bitcoin_account_small (a ∷ b ∷ c ∷ []) n e = elim (Bool-cases (ltb c hardened_key_start)) [
  | inl low ↦ (let r = rw low at e in cc)
  | inr high ↦ let r = rw high at e in let q = ok_unique refl r in omega arith
]
bitcoin_account_small [] n e = cc
bitcoin_account_small (a ∷ []) n e = cc
bitcoin_account_small (a ∷ b ∷ []) n e = cc
bitcoin_account_small (a ∷ b ∷ c ∷ d ∷ xs) n e = cc

ethereum_account_small : (xs : List ℕ) (n : ℕ) → ethereum_account xs ≡ ok n → n < 2 ^ 16
unfolding ethereum_account
ethereum_account_small (a ∷ b ∷ c ∷ d ∷ k ∷ []) n e = elim (Bool-cases (leb hardened_key_start k)) [
  | inl high ↦ (let r = rw high at e in cc)
  | inr low ↦ let r = rw low at e in let q = ok_unique refl r in omega arith
]
ethereum_account_small [] n e = cc
ethereum_account_small (a ∷ []) n e = cc
ethereum_account_small (a ∷ b ∷ []) n e = cc
ethereum_account_small (a ∷ b ∷ c ∷ []) n e = cc
ethereum_account_small (a ∷ b ∷ c ∷ d ∷ []) n e = cc
ethereum_account_small (a ∷ b ∷ c ∷ d ∷ k ∷ l ∷ xs) n e = cc

account_number_small : (c : Configuration ℕ) (n : ℕ) → account_number c ≡ ok n → n < 2 ^ 16
unfolding account_number account_number_of
account_number_small c n = by_type c.bitcoin_simple c.ethereum_simple
  where
    by_type :
        (b : Option (S.BitcoinSimple ℕ)) (s : Option (S.EthereumSimple ℕ))
        → account_number_of b s ≡ ok n
        → n < 2 ^ 16
    by_type (some b) s e = bitcoin_account_small _ n e
    by_type none (some s) e = ethereum_account_small _ n e
    by_type none none e = cc

first_number_result :
    (cs : List (Configuration ℕ)) (n : ℕ)
    → first_number cs ≡ ok n
    → (c : Configuration ℕ) × (account_number c ≡ ok n)
unfolding first_number
first_number_result [] n e = cc
first_number_result (c ∷ cs) n e = (c, by_result (account_number c) e)
  where
    by_result :
        (r : Run S.Error ℕ)
        → ((elim r as (λ r. Run Error ℕ) [ ok n ↦ ok n | err e ↦ err no_number | _ ↦ panic ])
            ≡ ok n)
        → r ≡ ok n
    by_result (ok m) q = ap ok (ok_unique refl q)
    by_result (err x) q = cc
    by_result panic q = cc
    by_result out_of_fuel q = cc

first_number_small : (cs : List (Configuration ℕ)) (n : ℕ) → first_number cs ≡ ok n → n < 2 ^ 16
first_number_small cs n e =
    let (c, numbered) = first_number_result cs n e in account_number_small c n numbered

-- With a taproot configuration at the end, one is found.
found_last :
    (cs : List (Configuration ℕ)) (c : Configuration ℕ) (i : ℕ)
    → has_script_type p2tr c.bitcoin_simple ≡ true
    → (j : ℕ) × (find_from p2tr i (cs ++ c ∷ []) ≡ some j)
unfolding find_from
found_last [] c i h = (i, rw h refl)
found_last (d ∷ cs) c i h = elim (Bool-cases (has_script_type p2tr d.bitcoin_simple)) [
  | inl found ↦ (i, rw found refl)
  | inr other ↦ rw other (found_last cs c (suc i) h)
]

-- A taproot configuration of the keystore with the number of the account.
pub record IsTaprootOf (fingerprint : List ℕ) (a : Account) (c : Configuration ℕ) : Type 0 where
  pub number : ℕ
  pub first : first_number a.signing_configurations ≡ ok number
  pub same_number : IsNumbered fingerprint number c
  pub taproot : has_script_type p2tr c.bitcoin_simple ≡ true

-- Nothing has changed, or there is one configuration more, and taproot was missing.
abbrev IsUpgraded : List ℕ → Account → Account → Type 0
IsUpgraded fingerprint a b =
    (b ≡ a)
    ⊎ (lacks_taproot a.signing_configurations ≡ true)
      × ((c : Configuration ℕ) × IsTaprootOf fingerprint a c
          × (b ≡ record a { signing_configurations = a.signing_configurations ++ c ∷ [] }))

abbrev pub AreUpgraded : List ℕ → List Account → List Account → Type 0
AreUpgraded fingerprint [] [] = Unit
AreUpgraded fingerprint (a ∷ as') (b ∷ bs) =
    IsUpgraded fingerprint a b × AreUpgraded fingerprint as' bs
AreUpgraded fingerprint as' bs = ⊥

new_taproot :
    (env : Env) (f : List ℕ) (path : Keypath) (key : ℕ) (c : Configuration ℕ)
    → panicking (new_bitcoin_configuration env.is_private no_child p2tr f path key) ≡ ok c
    → has_script_type p2tr c.bitcoin_simple ≡ true
unfolding new_bitcoin_configuration bitcoin_of has_script_type S.same_script_type
new_taproot env f path key c e = elim (Bool-cases (env.is_private key)) [
  | inl private_key ↦ (let r = rw private_key at e in cc)
  | inr public_key ↦
      let r = rw public_key at e in
      subst (λ (c : Configuration ℕ). has_script_type p2tr c.bitcoin_simple ≡ true)
        (ok_unique refl r) refl
]

-- A Bitcoin account has taproot, if the keystore supports it.
abbrev pub IsDone : Wallet → Account → Type 0
IsDone wallet a =
    (is_bitcoin a.coin_code
      && (wallet.supports_account a.coin_code (some p2tr)
          && lacks_taproot a.signing_configurations))
    ≡ false

added_taproot :
    (cs : List (Configuration ℕ)) (c : Configuration ℕ)
    → has_script_type p2tr c.bitcoin_simple ≡ true
    → lacks_taproot (cs ++ c ∷ []) ≡ false
unfolding lacks_taproot find_script_type
added_taproot cs c h = let (j, found) = found_last cs c 0 h in rw (lacks_taproot, found) refl

module _ (env : Env) (wallet : Wallet) (fingerprint : List ℕ)
    (owned : wallet.root_fingerprint ≡ some fingerprint) where
  taproot_of-IsTaprootOf :
      (a : Account) (c : Configuration ℕ)
      → taproot_of env wallet a ≡ ok c
      → IsTaprootOf fingerprint a c
  unfolding taproot_of
  taproot_of-IsTaprootOf a c e =
      let (f, known, e1) = >>=-eq-ok (or_err no_fingerprint wallet.root_fingerprint) _ e in
      let (n, numbered, e2) = >>=-eq-ok (first_number a.signing_configurations) _ e1 in
      let path = bip44_keypath 86 (bip44_coin a.coin_code) n in
      let (key, keyed, made) =
        >>=-eq-ok (or_err no_key (wallet.extended_public_key a.coin_code path)) _ e2 in
      record {
        number = n;
        first = numbered;
        same_number =
            subst (λ (f : List ℕ). IsNumbered f n c)
              (sym (or_err_unique no_fingerprint owned known))
              (bitcoin-IsNumbered env (record { script_type = p2tr; keypath = path }) f n key c
                (bip44_keypath-number 86 (bip44_coin a.coin_code) n
                  (first_number_small a.signing_configurations n numbered))
                made);
        taproot = new_taproot env f path key c made;
      }

  add_taproot_cases :
      (a b : Account)
      → add_taproot env wallet a ≡ ok b
      → IsUpgraded fingerprint a b × IsDone wallet b
  unfolding add_taproot
  add_taproot_cases a b e = elim (Bool-cases (is_bitcoin a.coin_code)) [
    | inr other ↦ unchanged (ok_unique refl (rw other at e)) (rw other refl)
    | inl bitcoin ↦
        let (coin_name, known, e1) =
          >>=-eq-ok (or_err no_coin (env.coin_name a.coin_code)) _ (rw bitcoin at e) in
        elim (Bool-cases (wallet.supports_account a.coin_code (some p2tr))) [
          | inr unsupported ↦
              unchanged (ok_unique refl (rw unsupported at e1)) (rw (bitcoin, unsupported) refl)
          | inl supported ↦ elim (Bool-cases (lacks_taproot a.signing_configurations)) [
            | inr has ↦
                unchanged (ok_unique refl (rw (supported, has) at e1))
                  (rw (bitcoin, supported, has) refl)
            | inl lacks ↦
                let (c, made, done) =
                  >>=-eq-ok (taproot_of env wallet a) _ (rw (supported, lacks) at e1) in
                let t = taproot_of-IsTaprootOf a c made in
                let same = ok_unique refl done in
                (
                  inr (lacks, (c, t, sym same)),
                  subst (IsDone wallet) same (
                      rw (added_taproot a.signing_configurations c t.taproot, bitcoin, supported)
                        refl),
                )
          ]
        ]
  ]
    where
      unchanged : a ≡ b → IsDone wallet a → IsUpgraded fingerprint a b × IsDone wallet b
      unchanged same done = (inl (sym same), subst (IsDone wallet) same done)

  AreUpgraded-refl : (as' : List Account) → AreUpgraded fingerprint as' as'
  AreUpgraded-refl [] = _
  AreUpgraded-refl (a ∷ as') = (inl refl, AreUpgraded-refl as')

  -- The accounts after a call, and all of them when it returns.
  abbrev AreProcessed : List Account → Run Error (Unit {0}) × List Account → Type 0
  AreProcessed as' (r, bs) = AreUpgraded fingerprint as' bs × ((r ≢ ok tt) ⊎ All (IsDone wallet) bs)

  add_taproot_all-AreProcessed :
      (as' : List Account) → AreProcessed as' (add_taproot_all env wallet as')
  unfolding add_taproot_all
  add_taproot_all-AreProcessed [] = (_, inr tt)
  add_taproot_all-AreProcessed (a ∷ as') =
      by_result (add_taproot env wallet a) refl (add_taproot_all env wallet as')
        (add_taproot_all-AreProcessed as')
    where
      by_result :
          (r : Run Error Account)
          → add_taproot env wallet a ≡ r
          → (o : Run Error (Unit {0}) × List Account) → AreProcessed as' o
          → AreProcessed (a ∷ as') (elim r [
            | ok b ↦ (o.0, b ∷ o.1)
            | err e ↦ (err e, a ∷ as')
            | panic ↦ (panic, a ∷ as')
            | out_of_fuel ↦ (out_of_fuel, a ∷ as')
          ])
      by_result (ok b) e (r, bs) (upgraded, done) =
          let (up, is_done) = add_taproot_cases a b e in
          (
            (up, upgraded),
            elim done [ inl failed_later ↦ inl failed_later | inr all ↦ inr (is_done, all) ],
          )
      by_result (err x) e o h =
          (AreUpgraded-refl (a ∷ as'), inl (λ q. (let r : err x ≡ ok tt = q in cc)))
      by_result panic e o h =
          (AreUpgraded-refl (a ∷ as'), inl (λ q. (let r : panic ≡ ok tt = q in cc)))
      by_result out_of_fuel e o h =
          (AreUpgraded-refl (a ∷ as'), inl (λ q. (let r : out_of_fuel ≡ ok tt = q in cc)))

-- Whatever maybeAddP2TR returns, every account is as before, or taproot was missing and the account
-- has gained exactly one configuration: it is for taproot, of the keystore, and with the number of
-- the account's first configuration. When it returns without an error for a keystore with unified
-- accounts, no Bitcoin account for which the keystore supports taproot is without it.
pub maybe_add_p2tr-AreUpgraded :
    (env : Env) (wallet : Wallet) (fingerprint : List ℕ)
    → wallet.root_fingerprint ≡ some fingerprint
    → (accounts : List Account)
    → AreUpgraded fingerprint accounts (maybe_add_p2tr env wallet accounts).1
      × ((wallet.supports_unified_accounts ≡ false)
          ⊎ ((maybe_add_p2tr env wallet accounts).0 ≢ ok tt)
          ⊎ All (IsDone wallet) (maybe_add_p2tr env wallet accounts).1)
unfolding maybe_add_p2tr add_taproot_all
maybe_add_p2tr-AreUpgraded env wallet fingerprint owned accounts =
    elim (Bool-cases wallet.supports_unified_accounts) [
      | inr split ↦ rw split (AreUpgraded-refl env wallet fingerprint owned accounts, inl refl)
      | inl unified ↦
          let (upgraded, done) =
            add_taproot_all-AreProcessed env wallet fingerprint owned accounts in
          rw unified (upgraded, inr done)
    ]
