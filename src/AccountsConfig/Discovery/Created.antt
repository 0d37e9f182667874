-- ===== src/AccountsConfig/Discovery/Created.antt =====
-- The account that CreateAndPersistAccountConfig adds, or makes visible.
use mathlib.Core.Path.{subst}
use bitbox_wallet_app.Prelude.{
  ℕ, ◌<◌, ◌≡◌, ◌≢◌, ◌⊎◌, inl, inr, refl, sym, ap, ◌∙◌, true, false, Bool-cases, List, [], ◌∷◌, map,
  Option, none, some, All,
}
use bitbox_wallet_app.Prelude.Run.{Run, ok, err}
use bitbox_wallet_app.Signing.Configuration.{same_bytes}
use bitbox_wallet_app.Signing.Configuration.Bytes.{same_bytes_refl, same_bytes_off}
use bitbox_wallet_app.Coins.{Text, CoinCode}
use bitbox_wallet_app.AccountsConfig.{
  Error, account_limit_reached, Account, AccountsConfig, modify_in, lookup_in, number_if,
  find_hidden_account, next_account_number, is_keystore_watchonly, accounts_hard_limit,
}
use bitbox_wallet_app.AccountsConfig.Unique.{identity, AreDifferent, IsUnique}
use bitbox_wallet_app.AccountsConfig.Numbers.{AnyOf}
use bitbox_wallet_app.AccountsConfig.Hidden.{IsAbove, IsHidden}
use bitbox_wallet_app.AccountsConfig.Creation.{
  Wallet, Env, Outcome, ◌>>>◌, reading, or_err, create_and_persist,
}
use bitbox_wallet_app.AccountsConfig.Creation.Numbered.{IsNew}
use bitbox_wallet_app.AccountsConfig.Discovery.{
  update, unhidden, create_unless_hidden, create_account,
}
use bitbox_wallet_app.AccountsConfig.Discovery.Keeps.{update-identity}

-- An account of the coin and the keystore, with a number that none of the others has.
pub record IsFresh (coin : CoinCode) (fingerprint : List ℕ) (others : List Account) (a : Account)
    : Type 0 where
  pub number : ℕ
  pub new : IsNew coin fingerprint number a
  pub small : number < accounts_hard_limit
  pub fresh : All (λ b. number_if coin fingerprint b ≢ some number) others

-- A change of the account that a code finds.
record IsChanged (a : Account) (f : Account → Account) (as' : List Account) : Type 0 where
  changed : List Account
  modified : modify_in a.code (λ b. ok (f b)) as' ≡ ok changed
  looked_up : lookup_in a.code changed ≡ some (f a)

module _ (a : Account) (f : Account → Account) (same : (f a).code ≡ a.code) where
  here-IsChanged : (as' : List Account) → IsChanged a f (a ∷ as')
  unfolding modify_in lookup_in
  here-IsChanged as' = record {
    changed = f a ∷ as';
    modified = rw (same_bytes_refl a.code) refl;
    looked_up = rw (same, same_bytes_refl a.code) refl;
  }

  later-IsChanged :
      (b : Account) (as' : List Account)
      → same_bytes b.code a.code ≡ false
      → IsChanged a f as'
      → IsChanged a f (b ∷ as')
  unfolding modify_in lookup_in
  later-IsChanged b as' other c = record {
    changed = b ∷ c.changed;
    modified = rw (other, c.modified) refl;
    looked_up = rw other c.looked_up;
  }

  other_code :
      (b : Account) (as' : List Account)
      → All (λ later. AreDifferent later (identity b)) (map identity as')
      → AnyOf (λ c. c ≡ a) as'
      → same_bytes b.code a.code ≡ false
  other_code b (c ∷ as') (d, ds) (inl e) =
      same_bytes_off b.code a.code (λ q. d.0 (ap (λ (x : Account). x.code) e ∙ sym q))
  other_code b (c ∷ as') (d, ds) (inr later) = other_code b as' ds later
  other_code b [] ds any = absurd any

  unique-IsChanged :
      (as' : List Account) → IsUnique as' → AnyOf (λ b. b ≡ a) as' → IsChanged a f as'
  unique-IsChanged [] u any = absurd any
  unique-IsChanged (b ∷ as') (first, rest) (inl e) =
      subst (λ (b : Account). IsChanged a f (b ∷ as')) (sym e) (here-IsChanged as')
  unique-IsChanged (b ∷ as') (first, rest) (inr later) =
      later-IsChanged b as' (other_code b as' first later) (unique-IsChanged as' rest later)

  lookup-update :
      (cfg : AccountsConfig)
      → IsUnique cfg.accounts
      → AnyOf (λ b. b ≡ a) cfg.accounts
      → lookup_in a.code (update a.code f cfg).accounts ≡ some (f a)
  unfolding update
  lookup-update cfg u any =
      let c = unique-IsChanged cfg.accounts u any in rw (update, c.modified) c.looked_up

module _ (env : Env) (wallet : Wallet) (coin : CoinCode) (name : Text) (fingerprint : List ℕ)
    (owned : wallet.root_fingerprint ≡ some fingerprint) where
  create_account_owned :
      (cfg : AccountsConfig)
      → create_account env wallet coin name cfg
        ≡ create_unless_hidden env wallet coin name fingerprint
            (find_hidden_account coin fingerprint cfg)
            cfg
  unfolding create_account or_err
  create_account_owned cfg = rw owned refl

  pub create_account_runs :
      (cfg : AccountsConfig) (hidden : Option Account)
      → find_hidden_account coin fingerprint cfg ≡ hidden
      → create_account env wallet coin name cfg
        ≡ create_unless_hidden env wallet coin name fingerprint hidden cfg
  create_account_runs cfg hidden e =
      create_account_owned cfg
      ∙ ap (λ (h : Option Account). create_unless_hidden env wallet coin name fingerprint h cfg) e

-- The account was hidden, and is shown under the new name.
pub record IsShown (coin : CoinCode) (fingerprint : List ℕ) (name : Text) (cfg : AccountsConfig)
    (o : Outcome Text) : Type 0 where
  pub account : Account
  pub number : ℕ
  pub was_hidden : IsHidden coin fingerprint number account
  pub was_first : All (IsAbove coin fingerprint number) cfg.accounts
  pub its_code : o.0 ≡ ok account.code
  pub kept_identity : map identity o.1.accounts ≡ map identity cfg.accounts
  pub after : Account
  pub looked_up : lookup_in account.code o.1.accounts ≡ some after
  pub visible : after.hidden_because_unused ≡ false
  pub named : after.name ≡ name
  pub watched :
      (is_keystore_watchonly fingerprint cfg ≡ true) × (after.watch ≡ some true)
      ⊎ (is_keystore_watchonly fingerprint cfg ≡ false) × (after.watch ≡ account.watch)
  pub unchanged :
      after ≡ record account { hidden_because_unused = false; name = name; watch = after.watch }

module _ (env : Env) (wallet : Wallet) (coin : CoinCode) (fingerprint : List ℕ)
    (cfg : AccountsConfig) where
  -- Without a hidden account, the call goes by the next number.
  pub none-created :
      (name : Text) (r : Run Error ℕ)
      → next_account_number coin fingerprint wallet.supports_multiple_accounts cfg ≡ r
      → create_unless_hidden env wallet coin name fingerprint none cfg
        ≡ (reading r cfg >>> λ n cfg. create_and_persist env wallet coin n false name [] cfg)
  unfolding create_unless_hidden
  none-created name r e =
      ap
        (λ (r : Run Error ℕ).
          reading r cfg >>> λ n cfg. create_and_persist env wallet coin n false name [] cfg)
        e

  -- Without a hidden account, the account of the next number is created, if there is one.
  abbrev pub IsCreated : Text → Outcome Text → Type 0
  IsCreated name o =
      ((n : ℕ) × (next_account_number coin fingerprint wallet.supports_multiple_accounts cfg ≡ ok n)
        × (o ≡ create_and_persist env wallet coin n false name [] cfg))
      ⊎ (next_account_number coin fingerprint wallet.supports_multiple_accounts cfg
          ≡ err account_limit_reached)
        × (o ≡ (err account_limit_reached, cfg))

  module _ (owned : wallet.root_fingerprint ≡ some fingerprint) (name : Text) where
    -- The account that is found is the one that is shown.
    pub found-IsShown :
        (a : Account) (n : ℕ)
        → IsUnique cfg.accounts
        → find_hidden_account coin fingerprint cfg ≡ some a
        → IsHidden coin fingerprint n a
        → AnyOf (λ b. b ≡ a) cfg.accounts
        → All (IsAbove coin fingerprint n) cfg.accounts
        → (s : IsShown coin fingerprint name cfg (create_account env wallet coin name cfg))
          × (s.account ≡ a)
    unfolding create_unless_hidden unhidden
    found-IsShown a n u found hidden any above =
        let watchonly = is_keystore_watchonly fingerprint cfg in
        let change = unhidden name watchonly in
        subst (λ (o : Outcome Text). (s : IsShown coin fingerprint name cfg o) × (s.account ≡ a))
          (sym (create_account_runs env wallet coin name fingerprint owned cfg (some a) found))
          (
            record {
              account = a;
              number = n;
              was_hidden = hidden;
              was_first = above;
              its_code = refl;
              kept_identity = update-identity a.code change cfg (λ b. refl);
              after = change a;
              looked_up = lookup-update a change refl cfg u any;
              visible = refl;
              named = refl;
              watched = elim (Bool-cases watchonly) [
                | inl watches ↦ inl (watches, rw watches refl)
                | inr ignored ↦ inr (ignored, rw ignored refl)
              ];
              unchanged = refl;
            },
            refl,
          )
