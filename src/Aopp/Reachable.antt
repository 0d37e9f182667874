-- ===== src/Aopp/Reachable.antt =====
-- The calls as steps on the backend, and the states that they reach.
use bitbox_wallet_app.Prelude.{
  ℕ, ◌≡◌, ◌≢◌, ◌⊎◌, inl, inr, refl, Bool, true, false, not, List, [], ◌∷◌, Option, none, some,
  Bool-cases, if◌then◌else◌,
}
use bitbox_wallet_app.Prelude.Run.{ok}
use bitbox_wallet_app.Signing.Configuration.{same_bytes}
use bitbox_wallet_app.Coins.{Text, text, CoinCode, btc, eth}
use bitbox_wallet_app.Aopp.Types.{inactive_aopp, Account, Keystore, Query, Backend}
use bitbox_wallet_app.Aopp.{
  notify, cancel, choose_account, keystore_registered, approve, to_lower, aopp_coin, with_message,
  with_coin, handle,
}
use bitbox_wallet_app.Aopp.Progress.{
  IsProgress, IsConsistent, if-IsConsistent, ok-IsConsistent, set_error-IsConsistent,
}
use bitbox_wallet_app.Aopp.Calls.{choose_account-Leaves, keystore_registered-Leaves, approve-Leaves}

aopp_coin_known :
    (asset : Text) (coin : CoinCode) → aopp_coin asset ≡ some coin → (coin ≡ btc) ⊎ (coin ≡ eth)
unfolding aopp_coin
aopp_coin_known asset coin e = elim (Bool-cases (same_bytes asset (text "btc"))) [
  | inl is_btc ↦ let r = rw is_btc at e in inl (cc)
  | inr other ↦
      let r = rw other at e in
      elim (Bool-cases (same_bytes asset (text "eth"))) [
        | inl is_eth ↦ let r' = rw is_eth at r in inr (cc)
        | inr none_of_them ↦ let r' = rw none_of_them at r in cc
      ]
]

cancel-IsConsistent : (b : Backend) → IsProgress b.notified → IsConsistent (cancel b)
unfolding cancel notify
cancel-IsConsistent b p = record { told = refl; progress = (inl _, p); at_rest = _ }

same_empty : (s : Text) → same_bytes s [] ≡ false → s ≢ []
unfolding same_bytes
same_empty [] e = cc
same_empty (c ∷ s) e = λ q. cc

with_message-IsConsistent :
    (q : Query) (b : Backend)
    → IsProgress b.notified
    → b.aopp.callback ≢ []
    → (b.aopp.coin_code ≡ btc) ⊎ (b.aopp.coin_code ≡ eth)
    → IsConsistent (with_message q b)
unfolding with_message notify
with_message-IsConsistent q b p callback coin = elim (Bool-cases (same_bytes q.msg [])) [
  | inl e ↦ rw e (set_error-IsConsistent _ b p)
  | inr e ↦ rw e (record {
    told = refl;
    progress = (inl _, p);
    at_rest = record { has_callback = callback; has_message = same_empty q.msg e; has_coin = coin };
  })
]

with_coin-IsConsistent :
    (q : Query) (o : Option CoinCode) (b : Backend)
    → IsProgress b.notified
    → b.aopp.callback ≢ []
    → ((coin : CoinCode) → o ≡ some coin → (coin ≡ btc) ⊎ (coin ≡ eth))
    → IsConsistent (with_coin q o b)
unfolding with_coin
with_coin-IsConsistent q none b p callback known = set_error-IsConsistent _ b p
with_coin-IsConsistent q (some coin) b p callback known =
    with_message-IsConsistent q _ p callback (known coin refl)

if_known :
    (c : Bool) (x y : Backend)
    → (c ≡ true → IsConsistent x)
    → (c ≡ false → IsConsistent y)
    → IsConsistent (if c then x else y)
if_known true x y p q = p refl
if_known false x y p q = q refl

handle-IsConsistent : (q : Query) (b : Backend) → IsProgress b.notified → IsConsistent (handle q b)
unfolding handle
handle-IsConsistent q b p =
    if-IsConsistent (not (same_bytes q.v (text "0"))) _ _ (set_error-IsConsistent _ _ p) (
      if_known (same_bytes q.callback []) _ _ (λ e. set_error-IsConsistent _ _ p)
        (λ e.
          if-IsConsistent q.callback_parses _ _
            (with_coin-IsConsistent q _ _ p (same_empty q.callback e)
              (λ coin found. aopp_coin_known (to_lower q.asset) coin found))
            (set_error-IsConsistent _ _ p)))

module _ (post : Text → Text → Text → Option ℕ) where
  -- A keystore that is registered replaces the one before; the accounts change as they like.
  pub data Step : Backend → Backend → Type 0 where
    cancelled : (b : Backend) → Step b (cancel b)
    requested : (q : Query) (b : Backend) → Step b (handle q b)
    approved : (b b' : Backend) → approve post b ≡ ok b' → Step b b'
    chosen : (code : Text) (b b' : Backend) → choose_account post code b ≡ ok b' → Step b b'
    registered :
        (k : Keystore) (b b' : Backend)
        → keystore_registered post (record b { keystore = some k }) ≡ ok b'
        → Step b b'
    deregistered : (b : Backend) → Step b (record b { keystore = none })
    reloaded : (loaded : List Account) (b : Backend) → Step b (record b { accounts = loaded })

  pub data IsReachable : Backend → Type 0 where
    start :
        (k : Option Keystore) (loaded : List Account)
        → IsReachable
            (record { aopp = inactive_aopp; keystore = k; accounts = loaded; notified = [] })
    step : (b b' : Backend) → IsReachable b → Step b b' → IsReachable b'

  Step-IsConsistent : (b b' : Backend) → Step b b' → IsConsistent b → IsConsistent b'
  Step-IsConsistent _ _ (cancelled b) h = cancel-IsConsistent b h.progress
  Step-IsConsistent _ _ (requested q b) h = handle-IsConsistent q b h.progress
  Step-IsConsistent _ _ (approved b b' e) h =
      ok-IsConsistent (approve post b) b' (approve-Leaves post b h) e
  Step-IsConsistent _ _ (chosen code b b' e) h =
      ok-IsConsistent (choose_account post code b) b' (choose_account-Leaves post code b h) e
  Step-IsConsistent _ _ (registered k b b' e) h =
      ok-IsConsistent (keystore_registered post (record b { keystore = some k })) b'
        (keystore_registered-Leaves post _
          (record { told = h.told; progress = h.progress; at_rest = h.at_rest }))
        e
  Step-IsConsistent _ _ (deregistered b) h = record {
    told = h.told;
    progress = h.progress;
    at_rest = h.at_rest;
  }
  Step-IsConsistent _ _ (reloaded loaded b) h = record {
    told = h.told;
    progress = h.progress;
    at_rest = h.at_rest;
  }

  -- In every state that is reached from the start by calls that return: the frontend has last been
  -- told the current request; the states that it was told progressed in the order of `rank`, but for
  -- errors, cancellations and new requests; no call leaves a request that is syncing or signing; an
  -- error has its code; and a request that waits for the user or a keystore has a callback, a message
  -- and one of the two coins.
  pub IsReachable-IsConsistent : (b : Backend) → IsReachable b → IsConsistent b
  IsReachable-IsConsistent _ (start k loaded) = record { told = refl; progress = _; at_rest = _ }
  IsReachable-IsConsistent _ (step a b r s) = Step-IsConsistent a b s (IsReachable-IsConsistent a r)
