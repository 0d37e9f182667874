-- ===== src/AccountsConfig/Discovery/Scan.antt =====
-- Which account the discovery adds.
use bitbox_wallet_app.Prelude.{ℕ, ◌≤◌, ◌≡◌, ◌⊎◌, true, List, [], ◌∷◌, Option, none, some, All}
use bitbox_wallet_app.Prelude.Run.{ok, err, panic, out_of_fuel}
use bitbox_wallet_app.Coins.{Text, CoinCode}
use bitbox_wallet_app.AccountsConfig.{Error, Account, AccountsConfig, number_if}
use bitbox_wallet_app.AccountsConfig.Numbers.{AnyOf}
use bitbox_wallet_app.AccountsConfig.Creation.{Wallet, Env, Outcome, create_and_persist}
use bitbox_wallet_app.AccountsConfig.Creation.Grows.{Persisted}
use bitbox_wallet_app.AccountsConfig.Creation.Numbered.{IsNew}

-- No number, or one that is not above n.
abbrev pub IsAtMost : ℕ → Option ℕ → Type 0
IsAtMost n none = Unit
IsAtMost n (some m) = m ≤ n

-- The numbers seen are below the best one, if there is one.
abbrev IsBest : Option (ℕ × Account) → Option ℕ → Type 0
IsBest none o = o ≡ none
IsBest (some (n, b)) o = IsAtMost n o

module _ (coin : CoinCode) (fingerprint : List ℕ) where
  -- The best account is the one so far, or one of the list with its number.
  abbrev IsFrom : Option (ℕ × Account) → List Account → Option (ℕ × Account) → Type 0
  IsFrom before as' none = before ≡ none
  IsFrom before as' (some (n, b)) =
      (before ≡ some (n, b)) ⊎ (number_if coin fingerprint b ≡ some n) × AnyOf (λ a. a ≡ b) as'

  -- The best so far is kept through the rest of the list.
  abbrev BestOf : Option (ℕ × Account) → List Account → Type 0
  BestOf best = All (λ a. IsBest best (number_if coin fingerprint a))

  -- The account of the highest number.
  pub record IsHighest (n : ℕ) (a : Account) (as' : List Account) : Type 0 where
    pub numbered : number_if coin fingerprint a ≡ some n
    pub among : AnyOf (λ b. b ≡ a) as'
    pub highest : All (λ b. IsAtMost n (number_if coin fingerprint b)) as'

-- What adding an account of a number does: CreateAndPersist changes the configuration, with a hidden
-- account without a name; its code is returned, and its error is not.
pub record IsAdded (env : Env) (wallet : Wallet) (coin : CoinCode) (fingerprint : List ℕ) (n : ℕ)
    (cfg : AccountsConfig) (o : Outcome (List Text)) : Type 0 where
  pub only_new : Persisted (IsNew coin fingerprint n) cfg o.1
  pub changed : o.1 ≡ (create_and_persist env wallet coin n true [] [] cfg).1
  pub codes :
      ((code : Text) × ((create_and_persist env wallet coin n true [] [] cfg).0 ≡ ok code)
        × (o.0 ≡ ok (code ∷ [])))
      ⊎ ((e : Error) × ((create_and_persist env wallet coin n true [] [] cfg).0 ≡ err e)
          × (o.0 ≡ ok []))
      ⊎ ((create_and_persist env wallet coin n true [] [] cfg).0 ≡ panic) × (o.0 ≡ panic)
      ⊎ ((create_and_persist env wallet coin n true [] [] cfg).0 ≡ out_of_fuel)
        × (o.0 ≡ out_of_fuel)
