-- ===== src/Aopp/Progress.antt =====
-- The order of a request's states, and what holds between the calls.
use mathlib.Core.Path.{subst}
use bitbox_wallet_app.Prelude.{
  ℕ, ◌<◌, ◌≡◌, ◌≢◌, ◌⊎◌, inl, refl, Bool, true, false, List, [], ◌∷◌, some, arith, if◌then◌else◌,
}
use bitbox_wallet_app.Prelude.Run.{Run, ok, err, panic, out_of_fuel, ◌>>=◌}
use bitbox_wallet_app.Signing.Configuration.{Error}
use bitbox_wallet_app.Coins.{btc, eth}
use bitbox_wallet_app.Aopp.Types.{
  ErrorCode, AoppState, error, inactive, user_approval, awaiting_keystore, choosing_account,
  syncing, signing, success, Aopp, inactive_aopp, Backend,
}
use bitbox_wallet_app.Aopp.{is_state, notify, set_error}

-- The order in which the states progress.
abbrev pub rank : AoppState → ℕ
rank inactive = 0
rank user_approval = 1
rank awaiting_keystore = 2
rank choosing_account = 3
rank syncing = 4
rank signing = 5
rank success = 6
rank error = 7

abbrev pub last_told : List Aopp → Aopp
last_told [] = inactive_aopp
last_told (a ∷ as') = a

-- A state that can follow any other: an error, a cancelled request, or a new one.
abbrev pub IsReset : AoppState → Type 0
IsReset error = Unit
IsReset inactive = Unit
IsReset user_approval = Unit
IsReset s = ⊥

-- The states that the frontend is told progress, but for resets.
abbrev pub IsProgress : List Aopp → Type 0
IsProgress [] = Unit
IsProgress (a ∷ as') =
    (IsReset a.state ⊎ (rank (last_told as').state < rank a.state)) × IsProgress as'

-- A valid request.
pub record IsAsked (a : Aopp) : Type 0 where
  pub has_callback : a.callback ≢ []
  pub has_message : a.message ≢ []
  pub has_coin : (a.coin_code ≡ btc) ⊎ (a.coin_code ≡ eth)

-- What the states mean between two calls.
abbrev pub IsAtRest : AoppState → Aopp → Type 0
IsAtRest error a = (e : ErrorCode) × (a.error_code ≡ some e)
IsAtRest inactive a = Unit
IsAtRest success a = Unit
IsAtRest syncing a = ⊥
IsAtRest signing a = ⊥
IsAtRest s a = IsAsked a

pub record IsConsistent (b : Backend) : Type 0 where
  pub told : last_told b.notified ≡ b.aopp
  pub progress : IsProgress b.notified
  pub at_rest : IsAtRest b.aopp.state b.aopp

-- What a call leaves, if it returns.
abbrev pub Leaves : Run Error Backend → Type 0
Leaves (ok b) = IsConsistent b
Leaves panic = Unit
Leaves out_of_fuel = Unit
Leaves (err e) = Unit

abbrev pub told_rank : Backend → ℕ
told_rank b = rank (last_told b.notified).state

pub >>=-Leaves {ℓ} :
    {A : Type ℓ} (first : Run Error A) (next : A → Run Error Backend)
    → ((a : A) → Leaves (next a))
    → Leaves (first >>= next)
>>=-Leaves (ok a) next h = h a
>>=-Leaves (err e) next h = _
>>=-Leaves panic next h = _
>>=-Leaves out_of_fuel next h = _

pub if-Leaves :
    (c : Bool) (x y : Run Error Backend) → Leaves x → Leaves y → Leaves (if c then x else y)
if-Leaves true x y p q = p
if-Leaves false x y p q = q

pub if-IsConsistent :
    (c : Bool) (x y : Backend) → IsConsistent x → IsConsistent y → IsConsistent (if c then x else y)
if-IsConsistent true x y p q = p
if-IsConsistent false x y p q = q

pub ok-IsConsistent : (r : Run Error Backend) (b : Backend) → Leaves r → r ≡ ok b → IsConsistent b
ok-IsConsistent (ok a) b h e =
    let same : a ≡ b = cc in subst (λ (x : Backend). IsConsistent x) same h
ok-IsConsistent panic b h e = cc
ok-IsConsistent out_of_fuel b h e = cc
ok-IsConsistent (err x) b h e = cc

pub is_state_choosing : (s : AoppState) → is_state s choosing_account ≡ true → s ≡ choosing_account
unfolding is_state
is_state_choosing s e = ground arith

pub is_state_awaiting :
    (s : AoppState) → is_state s awaiting_keystore ≡ true → s ≡ awaiting_keystore
unfolding is_state
is_state_awaiting s e = ground arith

pub is_state_approval : (s : AoppState) → is_state s user_approval ≡ true → s ≡ user_approval
unfolding is_state
is_state_approval s e = ground arith

pub set_error-IsConsistent :
    (e : ErrorCode) (b : Backend) → IsProgress b.notified → IsConsistent (set_error e b)
unfolding set_error notify
set_error-IsConsistent e b p = record { told = refl; progress = (inl _, p); at_rest = (e, refl) }
