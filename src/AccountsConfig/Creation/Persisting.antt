-- ===== src/AccountsConfig/Creation/Persisting.antt =====
-- persistBTCAccountConfig and persistETHAccountConfig persist accounts of the coin and the number.
use bitbox_wallet_app.Prelude.{
  ℕ, ◌≡◌, refl, Bool, true, false, List, [], ◌∷◌, select, Option, none, some, All, if◌then◌else◌,
}
use mathlib.Core.Path.{subst}
use bitbox_wallet_app.Prelude.Run.{ok, >>=-eq-ok, ok_unique}
use bitbox_wallet_app.Signing.Keypath.{Keypath, to_uint32, new_absolute_keypath}
use bitbox_wallet_app.Signing.Configuration as S
use bitbox_wallet_app.Signing.Configuration.{
  Configuration, same_bytes, bitcoin_account, account_number_of, account_number, bitcoin_of,
  bitcoin_matches, ethereum_matches, contains_root_fingerprint, new_bitcoin_configuration,
  new_ethereum_configuration, script_type,
}
use bitbox_wallet_app.Coins.{Text, text, CoinCode}
use bitbox_wallet_app.AccountsConfig.{no_fingerprint, no_key, AccountsConfig}
use bitbox_wallet_app.AccountsConfig.Codes.{split_account_code}
use bitbox_wallet_app.AccountsConfig.Creation.{
  Wallet, Env, Outcome, ◌>>>◌, reading, or_err, persist, ScriptTypeWithKeypath, suffixed, panicking,
  no_child, watch_of, new_account, derive_configurations, persist_each, persist_configurations,
  persist_supported, persist_btc_account_config, persist_eth_account_config,
}
use bitbox_wallet_app.AccountsConfig.Creation.Paths.{HasNumber}
use bitbox_wallet_app.AccountsConfig.Creation.Grows.{
  kept, Grows, >>>-Grows, reading-Grows, if-Grows, persist-Grows,
}
use bitbox_wallet_app.AccountsConfig.Creation.Numbered.{
  or_err_unique, IsNumbered, IsNew, new_account-IsNew, bitcoin-IsNumbered, ethereum-IsNumbered,
}

module _ (env : Env) (wallet : Wallet) (coin : CoinCode) (fingerprint : List ℕ) (n : ℕ) where
  derive_configurations-IsNumbered :
      (ks : List ScriptTypeWithKeypath) (cs : List (Configuration ℕ))
      → All (HasNumber n) ks
      → derive_configurations env wallet coin fingerprint ks ≡ ok cs
      → All (IsNumbered fingerprint n) cs
  unfolding derive_configurations
  derive_configurations-IsNumbered [] cs h e =
      subst (All (IsNumbered fingerprint n)) (ok_unique refl e) tt
  derive_configurations-IsNumbered (k ∷ ks) cs (h, hs) e =
      let (key, keyed, e1) =
        >>=-eq-ok (or_err no_key (wallet.extended_public_key coin k.keypath)) _ e in
      let (c, configured, e2) =
        >>=-eq-ok
          (panicking (
            new_bitcoin_configuration env.is_private no_child k.script_type fingerprint k.keypath
              key))
          _ e1 in
      let (rest, others, e3) =
        >>=-eq-ok (derive_configurations env wallet coin fingerprint ks) _ e2 in
      subst (All (IsNumbered fingerprint n)) (ok_unique refl e3) (
        bitcoin-IsNumbered env k fingerprint n key c h configured,
        derive_configurations-IsNumbered ks rest hs others,
      )

  persist_each-Grows :
      (code name : Text) (hidden : Bool) (watch : Option Bool) (cs : List (Configuration ℕ))
      (cfg : AccountsConfig)
      → All (IsNumbered fingerprint n) cs
      → Grows
          (IsNew coin fingerprint n)
          cfg
          (persist_each env wallet coin code name hidden watch cs cfg)
  unfolding persist_each
  persist_each-Grows code name hidden watch [] cfg h = kept cfg
  persist_each-Grows code name hidden watch (c ∷ cs) cfg (h, hs) =
      reading-Grows (IsNew coin fingerprint n) cfg (panicking (script_type c)) _ (λ t typed.
        reading-Grows (IsNew coin fingerprint n) cfg (suffixed name (ok t)) _
          (λ suffixed_name named.
            >>>-Grows (IsNew coin fingerprint n) cfg
              (persist
                (new_account coin (split_account_code code t) suffixed_name hidden watch (c ∷ [])
                  [])
                cfg)
              _
              (persist-Grows (IsNew coin fingerprint n) _ cfg (
                new_account-IsNew coin (split_account_code code t) suffixed_name hidden watch
                  fingerprint n c [] [] h))
              (λ done cfg' e. persist_each-Grows code name hidden watch cs cfg' hs)))

  persist_configurations-Grows :
      (code name : Text) (hidden : Bool) (c : Configuration ℕ) (cs : List (Configuration ℕ))
      (cfg : AccountsConfig)
      → All (IsNumbered fingerprint n) (c ∷ cs)
      → Grows
          (IsNew coin fingerprint n)
          cfg
          (persist_configurations env wallet coin code name hidden fingerprint (c ∷ cs) cfg)
  unfolding persist_configurations
  persist_configurations-Grows code name hidden c cs cfg h =
      if-Grows (IsNew coin fingerprint n) cfg wallet.supports_unified_accounts _ _
        (persist-Grows (IsNew coin fingerprint n) _ cfg
          (new_account-IsNew coin code name hidden _ fingerprint n c cs [] h.0))
        (persist_each-Grows code name hidden _ (c ∷ cs) cfg h)

  some_configuration :
      (k : ScriptTypeWithKeypath) (ks : List ScriptTypeWithKeypath)
      → derive_configurations env wallet coin fingerprint (k ∷ ks) ≡ ok []
      → ⊥
  unfolding derive_configurations
  some_configuration k ks e =
      let (key, keyed, e1) =
        >>=-eq-ok (or_err no_key (wallet.extended_public_key coin k.keypath)) _ e in
      let (c, configured, e2) =
        >>=-eq-ok
          (panicking (
            new_bitcoin_configuration env.is_private no_child k.script_type fingerprint k.keypath
              key))
          _ e1 in
      let (rest, others, e3) =
        >>=-eq-ok (derive_configurations env wallet coin fingerprint ks) _ e2 in
      cons_ne_nil (ok_unique refl e3)
    where
      cons_ne_nil : {x : Configuration ℕ} {xs : List (Configuration ℕ)} → x ∷ xs ≡ [] → ⊥
      cons_ne_nil q = cc

  persist_derived-Grows :
      (code name : Text) (hidden : Bool) (k : ScriptTypeWithKeypath)
      (ks : List ScriptTypeWithKeypath) (cs : List (Configuration ℕ)) (cfg : AccountsConfig)
      → All (HasNumber n) (k ∷ ks)
      → derive_configurations env wallet coin fingerprint (k ∷ ks) ≡ ok cs
      → Grows
          (IsNew coin fingerprint n)
          cfg
          (persist_configurations env wallet coin code name hidden fingerprint cs cfg)
  persist_derived-Grows code name hidden k ks [] cfg h e = absurd (some_configuration k ks e)
  persist_derived-Grows code name hidden k ks (c ∷ cs) cfg h e =
      persist_configurations-Grows code name hidden c cs cfg
        (derive_configurations-IsNumbered (k ∷ ks) (c ∷ cs) h e)

  module _ (owned : wallet.root_fingerprint ≡ some fingerprint) where
    persist_supported-Grows :
        (code name : Text) (hidden : Bool) (ks : List ScriptTypeWithKeypath) (cfg : AccountsConfig)
        → All (HasNumber n) ks
        → Grows
            (IsNew coin fingerprint n)
            cfg
            (persist_supported env wallet coin code name hidden ks cfg)
    unfolding persist_supported
    persist_supported-Grows code name hidden [] cfg h = kept cfg
    persist_supported-Grows code name hidden (k ∷ ks) cfg h =
        reading-Grows (IsNew coin fingerprint n) cfg (or_err no_fingerprint wallet.root_fingerprint)
          _
          (λ f e.
            subst
              (λ (f : List ℕ). Grows (IsNew coin fingerprint n) cfg (
                reading (derive_configurations env wallet coin f (k ∷ ks)) cfg
                >>> λ configurations cfg.
                    persist_configurations env wallet coin code name hidden f configurations cfg))
              (or_err_unique no_fingerprint owned e)
              (reading-Grows (IsNew coin fingerprint n) cfg
                (derive_configurations env wallet coin fingerprint (k ∷ ks)) _
                (λ cs derived. persist_derived-Grows code name hidden k ks cs cfg h derived)))

    select-All :
        (p : ScriptTypeWithKeypath → Bool) (ks : List ScriptTypeWithKeypath)
        → All (HasNumber n) ks
        → All (HasNumber n) (select p ks)
    select-All p [] h = _
    select-All p (k ∷ ks) (h, hs) = kept_if (p k) (select-All p ks hs)
      where
        kept_if :
            (b : Bool)
            → All (HasNumber n) (select p ks)
            → All (HasNumber n) (if b then k ∷ select p ks else select p ks)
        kept_if true q = (h, q)
        kept_if false q = q

    pub persist_btc-Grows :
        (code name : Text) (hidden : Bool) (ks : List ScriptTypeWithKeypath) (cfg : AccountsConfig)
        → All (HasNumber n) ks
        → Grows
            (IsNew coin fingerprint n)
            cfg
            (persist_btc_account_config env wallet coin code hidden name ks cfg)
    unfolding persist_btc_account_config
    persist_btc-Grows code name hidden ks cfg h =
        persist_supported-Grows code name hidden _ cfg
          (select-All (λ c. wallet.supports_account coin (some c.script_type)) ks h)

    pub persist_eth-Grows :
        (code name : Text) (hidden : Bool) (text : Text) (path : Keypath) (tokens : List Text)
        (cfg : AccountsConfig)
        → new_absolute_keypath text ≡ ok path
        → S.ethereum_account (to_uint32 path) ≡ ok n
        → Grows
            (IsNew coin fingerprint n)
            cfg
            (persist_eth_account_config env wallet coin code hidden text name tokens cfg)
    unfolding persist_eth_account_config
    persist_eth-Grows code name hidden text path tokens cfg parsed h =
        if-Grows (IsNew coin fingerprint n) cfg (wallet.supports_account coin none) _ _
          (rw parsed (
            reading-Grows (IsNew coin fingerprint n) cfg
              (or_err no_key (wallet.extended_public_key coin path)) _
              (λ key keyed.
                reading-Grows (IsNew coin fingerprint n) cfg
                  (or_err no_fingerprint wallet.root_fingerprint) _
                  (λ f e.
                    subst (λ (f : List ℕ). Grows (IsNew coin fingerprint n) cfg (persist_key f key))
                      (or_err_unique no_fingerprint owned e) (persist_key-Grows key)))))
          (kept cfg)
      where
        persist_key : List ℕ → ℕ → Outcome (Unit {0})
        persist_key f key =
            reading (panicking (new_ethereum_configuration env.is_private no_child f path key)) cfg
            >>> λ configuration cfg.
                persist
                  (new_account coin code name hidden (watch_of hidden f cfg) (configuration ∷ [])
                    tokens)
                  cfg

        persist_key-Grows :
            (key : ℕ) → Grows (IsNew coin fingerprint n) cfg (persist_key fingerprint key)
        persist_key-Grows key =
            reading-Grows (IsNew coin fingerprint n) cfg
              (panicking (new_ethereum_configuration env.is_private no_child fingerprint path key))
              _
              (λ c made. persist-Grows (IsNew coin fingerprint n) _ cfg (
                new_account-IsNew coin code name hidden _ fingerprint n c [] tokens
                  (ethereum-IsNumbered env path fingerprint n key c h made)))
