-- ===== src/Aopp/Ready.antt =====
-- An account that is ready ends the request; the call returns.
use bitbox_wallet_app.Prelude.{
  get_elem?, ℕ, ◌≡◌, ◌≢◌, ◌⊎◌, inl, inr, refl, Bool, true, false, List, Option, none, some, arith,
  Bool-cases, if◌then◌else◌,
}
use bitbox_wallet_app.Prelude.Run.{Run, ok}
use bitbox_wallet_app.Signing.Configuration.{Configuration, Error, script_type}
use bitbox_wallet_app.Maketx.Types.{ScriptType}
use bitbox_wallet_app.Coins.{Text, CoinCode, btc, tbtc, rbtc, ltc, tltc, eth, goeth, sepeth, other}
use bitbox_wallet_app.Aopp.Types.{
  AoppState, unknown_error, error, choosing_account, success, Address, Account, Signed, Keystore,
  Backend,
}
use bitbox_wallet_app.Aopp.{
  sign_btc, is_state, notify, set_error, signing_config_idx, find_account, first_address, sign,
  finish_signing, sign_address, with_idx, with_account, choose_account,
}
use bitbox_wallet_app.Aopp.Success.{asking, setting_up, IsDelivered, choose_account_cases}

is_state-choosing : (s : AoppState) → is_state s choosing_account ≡ true → s ≡ choosing_account
unfolding is_state
is_state-choosing s e = ground arith

is_state-other : (s : AoppState) → is_state s choosing_account ≡ false → s ≢ choosing_account
unfolding is_state
is_state-other s e = λ q. (let r = rw q at e in cc)

module _ (post : Text → Text → Text → Option ℕ) where
  -- What the request needs of an account: an unused address for the signing configuration that the
  -- format asks for, and for Bitcoin the script type of that configuration.
  pub record IsReady (format : Text) (a : Account) : Type 0 where
    pub address :
        (idx : ℕ)
        → signing_config_idx a.coin_code format a.signing_configurations ≡ some idx
        → (x : Address) × (first_address a.unused_addresses idx ≡ ok x)
    pub configuration :
        (idx : ℕ)
        → signing_config_idx a.coin_code format a.signing_configurations ≡ some idx
        → a.coin_code ≡ btc
        → (c : Configuration ℕ) × (get_elem? a.signing_configurations idx ≡ some c)
          × ((t : ScriptType) × (script_type c ≡ ok t))

  sign_returns :
      (k : Keystore) (coin : CoinCode) (message : Text) (a : Address)
      (configurations : List (Configuration ℕ)) (idx : ℕ)
      → (coin ≡ btc
          → (c : Configuration ℕ) × (get_elem? configurations idx ≡ some c)
            × ((t : ScriptType) × (script_type c ≡ ok t)))
      → (s : Option Signed) × (sign (some k) coin message a configurations idx ≡ ok s)
  unfolding sign sign_btc
  sign_returns k btc message a configurations idx h =
      let (c, found, (t, is_bitcoin)) = h refl in
      (
        some (k.sign_btc_message message a.absolute_keypath t),
        rw (found, sign_btc, is_bitcoin) refl,
      )
  sign_returns k eth message a configurations idx h =
      (some (k.sign_eth_message message a.absolute_keypath), refl)
  sign_returns k tbtc message a configurations idx h = (none, refl)
  sign_returns k rbtc message a configurations idx h = (none, refl)
  sign_returns k ltc message a configurations idx h = (none, refl)
  sign_returns k tltc message a configurations idx h = (none, refl)
  sign_returns k goeth message a configurations idx h = (none, refl)
  sign_returns k sepeth message a configurations idx h = (none, refl)
  sign_returns k (other n) message a configurations idx h = (none, refl)

  abbrev Ends : Run Error Backend → Type 0
  Ends r = (b' : Backend) × (r ≡ ok b')

  with_idx_returns :
      (account : Account) (idx : Option ℕ) (b : Backend) (k : Keystore)
      → b.keystore ≡ some k
      → signing_config_idx account.coin_code b.aopp.format account.signing_configurations ≡ idx
      → IsReady b.aopp.format account
      → Ends (with_idx post account idx b)
  unfolding with_idx sign_address notify
  with_idx_returns account none b k keyed e r = (_, refl)
  with_idx_returns account (some idx) b k keyed e r =
      let (a, first) = r.address idx e in
      let (s, signed) =
        sign_returns k account.coin_code b.aopp.message a account.signing_configurations idx
          (r.configuration idx e) in
      (finish_signing post a s (asking post a b), rw (first, keyed, signed) refl)

  if_returns : (c : Bool) (x y : Run Error Backend) → Ends x → Ends y → Ends (if c then x else y)
  if_returns true x y p q = p
  if_returns false x y p q = q

  with_account_returns :
      (o : Option Account) (b : Backend) (k : Keystore)
      → b.keystore ≡ some k
      → ((a : Account) → o ≡ some a → IsReady b.aopp.format a)
      → Ends (with_account post o b)
  unfolding with_account
  with_account_returns none b k keyed r = (set_error unknown_error b, refl)
  with_account_returns (some account) b k keyed r =
      if_returns account.initializes _ _
        (with_idx_returns account _ b k keyed refl (r account refl))
        (set_error unknown_error b, refl)

  -- With a keystore, and with a chosen account that is ready, choosing an account returns. Of a request
  -- in another state it changes nothing. Otherwise the request ends: with an error, or with success,
  -- and then the keystore has signed the request's message for an unused address of the account with
  -- the chosen code, of the signing configuration that the format asks for, and the callback has taken
  -- that address and signature with status 204.
  pub choose_account_lem :
      (code : Text) (b : Backend) (k : Keystore)
      → b.keystore ≡ some k
      → ((a : Account) → find_account code b.accounts ≡ some a → IsReady b.aopp.format a)
      → (b' : Backend) × (choose_account post code b ≡ ok b')
        × (((b.aopp.state ≢ choosing_account) × (b' ≡ b))
            ⊎ ((b.aopp.state ≡ choosing_account)
                × ((b'.aopp.state ≡ error)
                    ⊎ (b'.aopp.state ≡ success) × IsDelivered post code b b')))
  unfolding choose_account notify is_state
  choose_account_lem code b k keyed ready =
      elim (Bool-cases (is_state b.aopp.state choosing_account)) [
        | inl e ↦
            let (b', r) =
              with_account_returns (find_account code b.accounts) (setting_up post code b) k keyed
                ready in
            let whole : choose_account post code b ≡ ok b' = rw (e, choose_account) r in
            let state = is_state-choosing b.aopp.state e in
            (b', whole, inr (state, choose_account_cases post code b b' state whole))
        | inr e ↦ (b, rw (e, choose_account) refl, inl (is_state-other b.aopp.state e, refl))
      ]
