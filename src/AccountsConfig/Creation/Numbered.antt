-- ===== src/AccountsConfig/Creation/Numbered.antt =====
-- The number of a configuration and of a new account.
use bitbox_wallet_app.Prelude.{
  ℕ, ◌≡◌, refl, Bool, true, List, ◌∷◌, Option, some, Bool-cases, inl, inr,
}
use mathlib.Core.Path.{subst}
use bitbox_wallet_app.Prelude.Run.{ok, ok_unique}
use bitbox_wallet_app.Signing.Keypath.{Keypath, to_uint32}
use bitbox_wallet_app.Signing.Configuration as S
use bitbox_wallet_app.Signing.Configuration.{
  Configuration, same_bytes, bitcoin_account, account_number_of, account_number, bitcoin_of,
  bitcoin_matches, ethereum_matches, contains_root_fingerprint, new_bitcoin_configuration,
  new_ethereum_configuration, script_type,
}
use bitbox_wallet_app.Signing.Configuration.Bytes.{same_bytes_refl}
use bitbox_wallet_app.Coins.{
  Text, CoinCode, btc, tbtc, rbtc, ltc, tltc, eth, goeth, sepeth, other, same_coin,
}
use bitbox_wallet_app.AccountsConfig.{Error, Account, number_of, number_if}
use bitbox_wallet_app.AccountsConfig.Creation.{
  or_err, Env, ScriptTypeWithKeypath, panicking, no_child, new_account,
}
use bitbox_wallet_app.AccountsConfig.Creation.Paths.{HasNumber}

pub or_err_unique :
    {A : Type 0} (error : Error) {o : Option A} {a b : A}
    → o ≡ some a
    → or_err error o ≡ ok b
    → a ≡ b
unfolding or_err
or_err_unique error p q = let r = rw p at q in ok_unique refl r

-- A configuration of the keystore with the number.
pub record IsNumbered (fingerprint : List ℕ) (n : ℕ) (c : Configuration ℕ) : Type 0 where
  pub numbered : account_number c ≡ ok n
  pub contained :
      (cs : List (Configuration ℕ)) → contains_root_fingerprint fingerprint (c ∷ cs) ≡ true

-- An account of the coin, of the keystore and with the number.
abbrev pub IsNew : CoinCode → List ℕ → ℕ → Account → Type 0
IsNew coin fingerprint n a = number_if coin fingerprint a ≡ some n

pub same_coin_refl : (coin : CoinCode) → same_coin coin coin ≡ true
unfolding same_coin
same_coin_refl btc = refl
same_coin_refl tbtc = refl
same_coin_refl rbtc = refl
same_coin_refl ltc = refl
same_coin_refl tltc = refl
same_coin_refl eth = refl
same_coin_refl goeth = refl
same_coin_refl sepeth = refl
same_coin_refl (other s) = same_bytes_refl s

number_of_first :
    (c : Configuration ℕ) (cs : List (Configuration ℕ)) (n : ℕ)
    → account_number c ≡ ok n
    → number_of (c ∷ cs) ≡ some n
unfolding number_of
number_of_first c cs n e = rw (e, number_of) refl

pub new_account-IsNew :
    (coin : CoinCode) (code name : Text) (hidden : Bool) (watch : Option Bool)
    (fingerprint : List ℕ) (n : ℕ) (c : Configuration ℕ) (cs : List (Configuration ℕ))
    (tokens : List Text)
    → IsNumbered fingerprint n c
    → IsNew coin fingerprint n (new_account coin code name hidden watch (c ∷ cs) tokens)
unfolding number_if new_account
new_account-IsNew coin code name hidden watch fingerprint n c cs tokens h =
    rw (same_coin_refl coin, h.contained cs) (number_of_first c cs n h.numbered)

pub bitcoin-IsNumbered :
    (env : Env) (k : ScriptTypeWithKeypath) (fingerprint : List ℕ) (n key : ℕ) (c : Configuration ℕ)
    → HasNumber n k
    → panicking
        (new_bitcoin_configuration env.is_private no_child k.script_type fingerprint k.keypath key)
      ≡ ok c
    → IsNumbered fingerprint n c
unfolding new_bitcoin_configuration account_number account_number_of bitcoin_of
    contains_root_fingerprint bitcoin_matches
bitcoin-IsNumbered env k fingerprint n key c h e = elim (Bool-cases (env.is_private key)) [
  | inl private_key ↦ (let r = rw private_key at e in cc)
  | inr public_key ↦
      let r = rw public_key at e in
      subst (IsNumbered fingerprint n) (ok_unique refl r)
        (record { numbered = h; contained = λ cs. rw (same_bytes_refl fingerprint) refl })
]

pub ethereum-IsNumbered :
    (env : Env) (path : Keypath) (fingerprint : List ℕ) (n key : ℕ) (c : Configuration ℕ)
    → S.ethereum_account (to_uint32 path) ≡ ok n
    → panicking (new_ethereum_configuration env.is_private no_child fingerprint path key) ≡ ok c
    → IsNumbered fingerprint n c
unfolding new_ethereum_configuration account_number account_number_of contains_root_fingerprint
    bitcoin_matches ethereum_matches
ethereum-IsNumbered env path fingerprint n key c h e = elim (Bool-cases (env.is_private key)) [
  | inl private_key ↦ (let r = rw private_key at e in cc)
  | inr public_key ↦
      let r = rw public_key at e in
      subst (IsNumbered fingerprint n) (ok_unique refl r)
        (record { numbered = h; contained = λ cs. rw (same_bytes_refl fingerprint) refl })
]
