-- ===== src/AccountsConfig/Loading/Loaded.antt =====
-- The accounts that are loaded.
use bitbox_wallet_app.Prelude.{
  ℕ, ◌≡◌, ◌≢◌, ◌⊎◌, inl, inr, refl, ap, Bool, true, false, List, [], ◌∷◌, Option, none, some, All,
  Bool-cases, if◌then◌else◌,
}
use mathlib.Core.Path.{subst}
use bitbox_wallet_app.Prelude.Run.{Run, ok, err, panic, out_of_fuel, >>=-eq-ok, ok_unique}
use bitbox_wallet_app.AccountsConfig.{Error, Account, AccountsConfig, is_account_watchonly}
use bitbox_wallet_app.Maketx.Types.{ScriptType}
use bitbox_wallet_app.Signing.Configuration as S
use bitbox_wallet_app.Signing.Configuration.{Configuration, script_type, contains_root_fingerprint}
use bitbox_wallet_app.Coins.{CoinCode, btc, tbtc, rbtc, ltc, tltc, eth, goeth, sepeth, other}
use bitbox_wallet_app.AccountsConfig.Numbers.{AnyOf}
use bitbox_wallet_app.AccountsConfig.Creation.{Wallet, Env, panicking}
use bitbox_wallet_app.AccountsConfig.Loading.{
  is_btc_coin, is_watched, is_of_keystore, keystore_connected_or_watch, filter_accounts,
  supports_types, supports, is_loaded, load_all, init_persisted_accounts,
}
use bitbox_wallet_app.AccountsConfig.Loading.Filtered.{
  network_of, network_in, IsOnNetwork, IsKeptIn, filter_accounts-All, filter_accounts-IsKeptIn,
}

-- Every configuration has a script type, which the keystore supports for the coin.
abbrev pub HasTypes : Wallet → CoinCode → List (Configuration ℕ) → Type 0
HasTypes wallet coin = All (λ c.
    (t : ScriptType) × (script_type c ≡ ok t) × (wallet.supports_account coin (some t) ≡ true))

-- The keystore supports the coin, of Bitcoin and Litecoin with the script types.
abbrev pub IsSupported : Wallet → CoinCode → List (Configuration ℕ) → Type 0
IsSupported wallet btc cs = HasTypes wallet btc cs
IsSupported wallet tbtc cs = HasTypes wallet tbtc cs
IsSupported wallet rbtc cs = HasTypes wallet rbtc cs
IsSupported wallet ltc cs = HasTypes wallet ltc cs
IsSupported wallet tltc cs = HasTypes wallet tltc cs
IsSupported wallet eth cs = wallet.supports_account eth none ≡ true
IsSupported wallet goeth cs = wallet.supports_account goeth none ≡ true
IsSupported wallet sepeth cs = wallet.supports_account sepeth none ≡ true
IsSupported wallet (other n) cs = wallet.supports_account (other n) none ≡ true

-- The keystore has the account's keys and supports it.
pub record IsOpen (keystore : Option Wallet) (a : Account) : Type 0 where
  pub wallet : Wallet
  pub connected : keystore ≡ some wallet
  pub fingerprint : List ℕ
  pub has_root : wallet.root_fingerprint ≡ some fingerprint
  pub owned : contains_root_fingerprint fingerprint a.signing_configurations ≡ true
  pub supported : IsSupported wallet a.coin_code a.signing_configurations

panicking-ok : (r : Run S.Error ScriptType) (t : ScriptType) → panicking r ≡ ok t → r ≡ ok t
panicking-ok (ok u) t e = (let same : u ≡ t = ok_unique refl e in ap ok same)
panicking-ok (err x) t e = cc
panicking-ok panic t e = cc
panicking-ok out_of_fuel t e = cc

supports_types-HasTypes :
    (wallet : Wallet) (coin : CoinCode) (cs : List (Configuration ℕ))
    → supports_types wallet coin cs ≡ ok true
    → HasTypes wallet coin cs
unfolding supports_types
supports_types-HasTypes wallet coin [] e = _
supports_types-HasTypes wallet coin (c ∷ cs) e =
    let (t, typed, e') = >>=-eq-ok (panicking (script_type c)) _ e in
    elim (Bool-cases (wallet.supports_account coin (some t))) [
      | inl good ↦ (
        (t, panicking-ok (script_type c) t typed, good),
        supports_types-HasTypes wallet coin cs (rw good at e'),
      )
      | inr bad ↦ absurd (ok_false (rw bad at e'))
    ]
  where
    ok_false : {A : Type 0} → Path (Run A Bool) (ok false) (ok true) → ⊥
    ok_false p = cc

supports-IsSupported :
    (wallet : Wallet) (a : Account)
    → supports wallet a ≡ ok true
    → IsSupported wallet a.coin_code a.signing_configurations
unfolding supports is_btc_coin
supports-IsSupported wallet a e = by_coin a.coin_code e
  where
    by_coin :
        (coin : CoinCode)
        → (if is_btc_coin coin
            then supports_types wallet coin a.signing_configurations
            else ok (wallet.supports_account coin none))
          ≡ ok true
        → IsSupported wallet coin a.signing_configurations
    by_coin btc q = supports_types-HasTypes wallet btc a.signing_configurations q
    by_coin tbtc q = supports_types-HasTypes wallet tbtc a.signing_configurations q
    by_coin rbtc q = supports_types-HasTypes wallet rbtc a.signing_configurations q
    by_coin ltc q = supports_types-HasTypes wallet ltc a.signing_configurations q
    by_coin tltc q = supports_types-HasTypes wallet tltc a.signing_configurations q
    by_coin eth q = ok_unique refl q
    by_coin goeth q = ok_unique refl q
    by_coin sepeth q = ok_unique refl q
    by_coin (other n) q = ok_unique refl q

is_of_keystore-owned :
    (wallet : Wallet) (a : Account)
    → is_of_keystore (some wallet) a ≡ true
    → (fingerprint : List ℕ) × (wallet.root_fingerprint ≡ some fingerprint)
      × (contains_root_fingerprint fingerprint a.signing_configurations ≡ true)
unfolding is_of_keystore
is_of_keystore-owned wallet a e = by_root wallet.root_fingerprint e
  where
    by_root :
        (o : Option (List ℕ))
        → (elim o [
          | none ↦ false
          | some fingerprint ↦ contains_root_fingerprint fingerprint a.signing_configurations
        ])
          ≡ true
        → (fingerprint : List ℕ) × (o ≡ some fingerprint)
          × (contains_root_fingerprint fingerprint a.signing_configurations ≡ true)
    by_root none q = cc
    by_root (some fingerprint) q = (fingerprint, refl, q)

is_watched-true :
    (a : Account) (cfg : AccountsConfig)
    → is_watched a cfg ≡ true
    → is_account_watchonly a cfg ≡ ok true
unfolding is_watched
is_watched-true a cfg e = by_result (is_account_watchonly a cfg) e
  where
    by_result :
        (r : Run Error Bool)
        → ((elim r as (λ r. Bool) [ ok w ↦ w | _ ↦ false ]) ≡ true)
        → r ≡ ok true
    by_result (ok w) q = ap (λ (b : Bool). ok b) q
    by_result (err x) q = cc
    by_result panic q = cc
    by_result out_of_fuel q = cc

passed_over :
    (keystore : Option Wallet) (a : Account) (cfg : AccountsConfig)
    → keystore_connected_or_watch keystore cfg a ≡ false
    → is_account_watchonly a cfg ≢ ok true
unfolding keystore_connected_or_watch
passed_over keystore a cfg e w = let r = rw (keystore_connected_or_watch, is_watched, w) at e in cc

-- Watch-only, or of the connected keystore, which supports it.
abbrev pub IsLoadable : Option Wallet → AccountsConfig → Account → Type 0
IsLoadable keystore cfg a = (is_account_watchonly a cfg ≡ ok true) ⊎ IsOpen keystore a

module _ (cfg : AccountsConfig) where
  is_loaded-IsLoadable :
      (keystore : Option Wallet) (a : Account)
      → keystore_connected_or_watch keystore cfg a ≡ true
      → is_loaded keystore cfg a ≡ ok true
      → IsLoadable keystore cfg a
  unfolding keystore_connected_or_watch is_of_keystore is_loaded
  is_loaded-IsLoadable keystore a passed loaded = elim (Bool-cases (is_watched a cfg)) [
    | inl watched ↦ inl (is_watched-true a cfg watched)
    | inr unwatched ↦ by_keystore keystore (rw unwatched at passed) loaded
  ]
    where
      by_keystore :
          (keystore : Option Wallet)
          → is_of_keystore keystore a ≡ true
          → is_loaded keystore cfg a ≡ ok true
          → IsLoadable keystore cfg a
      by_keystore none owned loaded = cc
      by_keystore (some wallet) owned loaded = by_watch (is_account_watchonly a cfg) refl loaded
        where
          by_watch :
              (r : Run Error Bool)
              → is_account_watchonly a cfg ≡ r
              → ((elim r as (λ r. Run Error Bool) [
                | ok true ↦ ok true
                | ok false ↦ supports wallet a
                | _ ↦ ok false
              ])
                  ≡ ok true)
              → IsLoadable (some wallet) cfg a
          by_watch (ok true) e q = inl e
          by_watch (ok false) e q =
              let (fingerprint, root, keys) = is_of_keystore-owned wallet a owned in
              inr (record {
                wallet = wallet;
                connected = refl;
                fingerprint = fingerprint;
                has_root = root;
                owned = keys;
                supported = supports-IsSupported wallet a q;
              })
          by_watch (err x) e q = cc
          by_watch panic e q = cc
          by_watch out_of_fuel e q = cc

  -- A watch-only account is loaded with any keystore.
  watched-is_loaded :
      (keystore : Option Wallet) (a : Account)
      → is_account_watchonly a cfg ≡ ok true
      → is_loaded keystore cfg a ≡ ok true
  unfolding is_loaded
  watched-is_loaded none a e = refl
  watched-is_loaded (some wallet) a e = rw (is_loaded, e) refl

  module _ (keystore : Option Wallet) (Q : Account → Type 0) where
    load_all-All :
        (as' bs : List Account)
        → All Q as'
        → load_all keystore cfg as' ≡ ok bs
        → All (λ b. Q b × (is_loaded keystore cfg b ≡ ok true)) bs
          × All (λ a. (is_account_watchonly a cfg ≢ ok true) ⊎ AnyOf (λ b. b ≡ a) bs) as'
    unfolding load_all
    load_all-All [] bs h e =
        subst
          (λ (bs : List Account). All (λ b. Q b × (is_loaded keystore cfg b ≡ ok true)) bs × Unit)
          (ok_unique refl e) (_, _)
    load_all-All (a ∷ as') bs (q, qs) e =
        let (loaded, one, e1) = >>=-eq-ok (is_loaded keystore cfg a) _ e in
        let (rest, others, e2) = >>=-eq-ok (load_all keystore cfg as') _ e1 in
        let (all, complete) = load_all-All as' rest qs others in
        by_loaded loaded rest one (ok_unique refl e2) all complete
      where
        later :
            (fs xs : List Account)
            → All (λ a. (is_account_watchonly a cfg ≢ ok true) ⊎ AnyOf (λ b. b ≡ a) fs) xs
            → All (λ x. (is_account_watchonly x cfg ≢ ok true) ⊎ AnyOf (λ b. b ≡ x) (a ∷ fs)) xs
        later fs [] h = _
        later fs (x ∷ xs) (inl no_watch, hs) = (inl no_watch, later fs xs hs)
        later fs (x ∷ xs) (inr any, hs) = (inr (inr any), later fs xs hs)

        by_loaded :
            (loaded : Bool) (rest : List Account)
            → is_loaded keystore cfg a ≡ ok loaded
            → (if loaded then a ∷ rest else rest) ≡ bs
            → All (λ b. Q b × (is_loaded keystore cfg b ≡ ok true)) rest
            → All (λ a. (is_account_watchonly a cfg ≢ ok true) ⊎ AnyOf (λ b. b ≡ a) rest) as'
            → All (λ b. Q b × (is_loaded keystore cfg b ≡ ok true)) bs
              × All (λ a. (is_account_watchonly a cfg ≢ ok true) ⊎ AnyOf (λ b. b ≡ a) bs) (a ∷ as')
        by_loaded true rest one same all complete =
            subst
              (λ (bs : List Account).
                All (λ b. Q b × (is_loaded keystore cfg b ≡ ok true)) bs
                × All (λ a. (is_account_watchonly a cfg ≢ ok true) ⊎ AnyOf (λ b. b ≡ a) bs)
                    (a ∷ as'))
              same (((q, one), all), (inr (inl refl), later rest as' complete))
        by_loaded false rest one same all complete =
            subst
              (λ (bs : List Account).
                All (λ b. Q b × (is_loaded keystore cfg b ≡ ok true)) bs
                × All (λ a. (is_account_watchonly a cfg ≢ ok true) ⊎ AnyOf (λ b. b ≡ a) bs)
                    (a ∷ as'))
              same
              (
                all,
                (
                  inl (λ w. (let r = ok_unique (watched-is_loaded keystore a w) one in cc)),
                  complete,
                ),
              )

-- The accounts that are loaded are accounts of the network, each watch-only, or of the connected
-- keystore, which supports its coin and all its script types. Every watch-only account of a known coin
-- of the network is loaded, whatever keystore is connected.
pub init_persisted_accounts_lem :
    (env : Env) (regtest testing : Bool) (keystore : Option Wallet) (cfg : AccountsConfig)
    (loaded : List Account)
    → init_persisted_accounts env regtest testing keystore cfg ≡ ok loaded
    → All (λ a. IsOnNetwork env regtest testing a × IsLoadable keystore cfg a) loaded
      × All
          (λ a.
            (network_of a.coin_code ≢ network_in regtest testing)
            ⊎ (env.coin_name a.coin_code ≡ none)
            ⊎ (is_account_watchonly a cfg ≢ ok true)
            ⊎ AnyOf (λ b. b ≡ a) loaded)
          cfg.accounts
unfolding init_persisted_accounts
init_persisted_accounts_lem env regtest testing keystore cfg loaded e =
    let filter = keystore_connected_or_watch keystore cfg in
    let filtered = filter_accounts env regtest testing filter cfg.accounts in
    let (all, complete) =
      load_all-All cfg keystore (λ a. IsOnNetwork env regtest testing a × (filter a ≡ true))
        filtered loaded (filter_accounts-All env regtest testing filter cfg.accounts) e in
    (
      sound loaded all,
      whole filtered complete cfg.accounts
          (filter_accounts-IsKeptIn env regtest testing filter cfg.accounts),
    )
  where
    sound :
        (bs : List Account)
        → All
            (λ b.
              (IsOnNetwork env regtest testing b
                × (keystore_connected_or_watch keystore cfg b ≡ true))
              × (is_loaded keystore cfg b ≡ ok true))
            bs
        → All (λ b. IsOnNetwork env regtest testing b × IsLoadable keystore cfg b) bs
    sound [] h = _
    sound (b ∷ bs) (((network, passed), yes_loaded), hs) =
        ((network, is_loaded-IsLoadable cfg keystore b passed yes_loaded), sound bs hs)

    found :
        (a : Account) (fs : List Account)
        → All (λ b. (is_account_watchonly b cfg ≢ ok true) ⊎ AnyOf (λ c. c ≡ b) loaded) fs
        → AnyOf (λ b. b ≡ a) fs
        → (is_account_watchonly a cfg ≢ ok true) ⊎ AnyOf (λ c. c ≡ a) loaded
    found a [] h any = absurd any
    found a (f ∷ fs) (h, hs) (inr any) = found a fs hs any
    found a (f ∷ fs) (h, hs) (inl same) =
        subst (λ (b : Account). (is_account_watchonly b cfg ≢ ok true) ⊎ AnyOf (λ c. c ≡ b) loaded)
          same h

    whole :
        (fs : List Account)
        → All (λ b. (is_account_watchonly b cfg ≢ ok true) ⊎ AnyOf (λ c. c ≡ b) loaded) fs
        → (xs : List Account)
        → All (IsKeptIn env regtest testing (keystore_connected_or_watch keystore cfg) fs) xs
        → All
            (λ a.
              (network_of a.coin_code ≢ network_in regtest testing)
              ⊎ (env.coin_name a.coin_code ≡ none)
              ⊎ (is_account_watchonly a cfg ≢ ok true)
              ⊎ AnyOf (λ b. b ≡ a) loaded)
            xs
    whole fs complete [] h = _
    whole fs complete (x ∷ xs) (inl (inl out), hs) = (inl out, whole fs complete xs hs)
    whole fs complete (x ∷ xs) (inl (inr (inl unknown)), hs) =
        (inr (inl unknown), whole fs complete xs hs)
    whole fs complete (x ∷ xs) (inl (inr (inr dropped)), hs) =
        (inr (inr (inl (passed_over keystore x cfg dropped))), whole fs complete xs hs)
    whole fs complete (x ∷ xs) (inr any, hs) =
        (inr (inr (found x fs complete any)), whole fs complete xs hs)
