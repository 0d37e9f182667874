-- ===== src/AccountsConfig/Creation/Grows.antt =====
-- Calls after which the configuration has grown by accounts.
use bitbox_wallet_app.Prelude.{◌≡◌, refl, Bool, true, false, if◌then◌else◌}
use bitbox_wallet_app.Prelude.Run.{Run, ok, err, panic, out_of_fuel}
use bitbox_wallet_app.AccountsConfig.{Error, Account, AccountsConfig, persist_account}
use bitbox_wallet_app.AccountsConfig.Creation.{Outcome, ◌>>>◌, reading, changed, persist}

-- The configuration after some accounts, all with a property, were persisted.
pub data Persisted (P : Account → Type 0) : AccountsConfig → AccountsConfig → Type 0 where
  kept : (cfg : AccountsConfig) → Persisted P cfg cfg
  persisted :
      (a : Account) (cfg cfg₁ cfg₂ : AccountsConfig)
      → P a
      → persist_account a cfg ≡ ok cfg₁
      → Persisted P cfg₁ cfg₂
      → Persisted P cfg cfg₂

module _ (P : Account → Type 0) where
  Persisted-trans : (a b c : AccountsConfig) → Persisted P a b → Persisted P b c → Persisted P a c
  Persisted-trans _ _ c (kept a) q = q
  Persisted-trans _ _ c (persisted x a a' b h e p) q =
      persisted x a a' c h e (Persisted-trans a' b c p q)

  -- The configuration that a call leaves, whether it returns or not.
  abbrev pub Grows : {A : Type 0} → AccountsConfig → Outcome A → Type 0
  Grows cfg o = Persisted P cfg o.1

  pub >>>-Grows :
      {A B : Type 0} (cfg : AccountsConfig) (o : Outcome A) (next : A → AccountsConfig → Outcome B)
      → Grows cfg o
      → ((a : A) (cfg' : AccountsConfig) → o ≡ (ok a, cfg') → Grows cfg' (next a cfg'))
      → Grows cfg (o >>> next)
  >>>-Grows cfg (ok a, cfg') next g h = Persisted-trans cfg cfg' _ g (h a cfg' refl)
  >>>-Grows cfg (err e, cfg') next g h = g
  >>>-Grows cfg (panic, cfg') next g h = g
  >>>-Grows cfg (out_of_fuel, cfg') next g h = g

  -- A part that does not touch the configuration.
  pub reading-Grows :
      {A B : Type 0} (cfg : AccountsConfig) (r : Run Error A)
      (next : A → AccountsConfig → Outcome B)
      → ((a : A) → r ≡ ok a → Grows cfg (next a cfg))
      → Grows cfg (reading r cfg >>> next)
  reading-Grows cfg (ok a) next h = h a refl
  reading-Grows cfg (err e) next h = kept cfg
  reading-Grows cfg panic next h = kept cfg
  reading-Grows cfg out_of_fuel next h = kept cfg

  pub if-Grows :
      {A : Type 0} (cfg : AccountsConfig) (b : Bool) (x y : Outcome A)
      → Grows cfg x
      → Grows cfg y
      → Grows cfg (if b then x else y)
  if-Grows cfg true x y p q = p
  if-Grows cfg false x y p q = q

  changed-Grows :
      (a : Account) (cfg : AccountsConfig) (r : Run Error AccountsConfig)
      → P a
      → persist_account a cfg ≡ r
      → Grows cfg (changed r cfg)
  unfolding changed
  changed-Grows a cfg (ok cfg') h e = persisted a cfg cfg' cfg' h e (kept cfg')
  changed-Grows a cfg (err x) h e = kept cfg
  changed-Grows a cfg panic h e = kept cfg
  changed-Grows a cfg out_of_fuel h e = kept cfg

  pub persist-Grows : (a : Account) (cfg : AccountsConfig) → P a → Grows cfg (persist a cfg)
  unfolding persist
  persist-Grows a cfg h = changed-Grows a cfg (persist_account a cfg) h refl
