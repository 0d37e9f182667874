-- ===== src/Aopp/Calls.antt =====
-- What each call leaves behind, call by call.
use mathlib.Core.Path.{subst}
use bitbox_wallet_app.Prelude.{
  ℕ, ◌<◌, ◌≡◌, inl, inr, refl, ap, Bool, List, [], ◌∷◌, Option, none, some, arith, Bool-cases, ◌==◌,
  if◌then◌else◌,
}
use bitbox_wallet_app.Coins.{Text}
use bitbox_wallet_app.Aopp.Types.{
  AoppState, callback_error, unknown_error, signing_aborted, user_approval, awaiting_keystore,
  choosing_account, success, Choice, Aopp, Address, Account, Signed, signature, aborted, failed,
  Keystore, Backend,
}
use bitbox_wallet_app.Aopp.{
  is_state, notify, to_state, set_error, find_account, first_address, sign, deliver, finish_signing,
  sign_address, with_idx, with_account, choose_account, offer_accounts, with_offers, with_keystore,
  keystore_registered, with_approval, approve,
}
use bitbox_wallet_app.Aopp.Progress.{
  rank, IsProgress, IsAsked, IsAtRest, IsConsistent, Leaves, told_rank, >>=-Leaves, if-Leaves,
  if-IsConsistent, set_error-IsConsistent, is_state_choosing, is_state_awaiting, is_state_approval,
}

module _ (post : Text → Text → Text → Option ℕ) where
  deliver-IsConsistent :
      (a : Address) (sig : Text) (b : Backend)
      → IsProgress b.notified
      → told_rank b < 6
      → IsConsistent (deliver post a sig b)
  unfolding deliver notify to_state
  deliver-IsConsistent a sig b p low = go (post b.aopp.callback a.encoded sig)
    where
      go :
          (o : Option ℕ)
          → IsConsistent (elim o [
            | none ↦ set_error callback_error b
            | some status ↦
                if status == 204 then notify (to_state success b) else set_error callback_error b
          ])
      go none = set_error-IsConsistent callback_error b p
      go (some status) =
          if-IsConsistent (status == 204) _ _
            (record { told = refl; progress = (inr low, p); at_rest = _ })
            (set_error-IsConsistent callback_error b p)

  finish_signing-IsConsistent :
      (a : Address) (s : Option Signed) (b : Backend)
      → IsProgress b.notified
      → told_rank b < 6
      → IsConsistent (finish_signing post a s b)
  unfolding finish_signing
  finish_signing-IsConsistent a none b p low = set_error-IsConsistent unknown_error b p
  finish_signing-IsConsistent a (some aborted) b p low = set_error-IsConsistent signing_aborted b p
  finish_signing-IsConsistent a (some failed) b p low = set_error-IsConsistent unknown_error b p
  finish_signing-IsConsistent a (some (signature sig)) b p low = deliver-IsConsistent a sig b p low

  with_idx-Leaves :
      (account : Account) (idx : Option ℕ) (b : Backend)
      → IsProgress b.notified
      → told_rank b < 5
      → Leaves (with_idx post account idx b)
  unfolding with_idx sign_address notify
  with_idx-Leaves account none b p low = set_error-IsConsistent unknown_error b p
  with_idx-Leaves account (some idx) b p low =
      >>=-Leaves (first_address account.unused_addresses idx) _ (λ a.
        >>=-Leaves
          (sign b.keystore account.coin_code b.aopp.message a account.signing_configurations idx) _
          (λ s. finish_signing-IsConsistent a s _ (inr low, p) (omega arith)))

  with_account-Leaves :
      (o : Option Account) (b : Backend)
      → IsProgress b.notified
      → told_rank b < 5
      → Leaves (with_account post o b)
  unfolding with_account
  with_account-Leaves none b p low = set_error-IsConsistent unknown_error b p
  with_account-Leaves (some account) b p low =
      if-Leaves account.initializes _ _ (with_idx-Leaves account _ b p low)
        (set_error-IsConsistent unknown_error b p)

  -- The choice of an account, before or after the frontend could offer one.
  choose-Leaves :
      (code : Text) (b : Backend)
      → b.aopp.state ≡ choosing_account
      → IsProgress b.notified
      → told_rank b < 4
      → Leaves (choose_account post code b)
  unfolding choose_account notify is_state
  choose-Leaves code b state p low =
      rw state (with_account-Leaves (find_account code b.accounts) _ (inr low, p) (omega arith))

  pub choose_account-Leaves :
      (code : Text) (b : Backend) → IsConsistent b → Leaves (choose_account post code b)
  unfolding choose_account is_state
  choose_account-Leaves code b h = elim (Bool-cases (is_state b.aopp.state choosing_account)) [
    | inl e ↦
        let state = is_state_choosing b.aopp.state e in
        let told = ap (λ (a : Aopp). rank a.state) h.told in
        choose-Leaves code b state h.progress (rw (told, state) (omega arith))
    | inr e ↦ rw e h
  ]

  offer_accounts-Leaves :
      (choices : List Choice) (filtered : Bool) (b : Backend)
      → IsAsked b.aopp
      → IsProgress b.notified
      → told_rank b < 3
      → Leaves (offer_accounts post choices filtered b)
  unfolding offer_accounts notify
  offer_accounts-Leaves [] filtered b asked p low = set_error-IsConsistent _ b p
  offer_accounts-Leaves (c ∷ []) filtered b asked p low =
      choose-Leaves c.code _ refl p (omega arith)
  offer_accounts-Leaves (c ∷ d ∷ cs) filtered b asked p low = record {
    told = refl;
    progress = (inr low, p);
    at_rest = record {
      has_callback = asked.has_callback;
      has_message = asked.has_message;
      has_coin = asked.has_coin;
    };
  }

  with_offers-Leaves :
      (o : Option (List Choice × Bool)) (b : Backend)
      → IsAsked b.aopp
      → IsProgress b.notified
      → told_rank b < 3
      → Leaves (with_offers post o b)
  unfolding with_offers
  with_offers-Leaves none b asked p low = set_error-IsConsistent unknown_error b p
  with_offers-Leaves (some (choices, filtered)) b asked p low =
      offer_accounts-Leaves choices filtered b asked p low

  with_keystore-Leaves :
      (o : Option Keystore) (b : Backend)
      → IsAsked b.aopp
      → IsProgress b.notified
      → told_rank b < 3
      → Leaves (with_keystore post o b)
  unfolding with_keystore
  with_keystore-Leaves none b asked p low = _
  with_keystore-Leaves (some k) b asked p low =
      if-Leaves (k.can_sign_message b.aopp.coin_code) _ _ (with_offers-Leaves _ b asked p low)
        (set_error-IsConsistent _ b p)

  pub keystore_registered-Leaves :
      (b : Backend) → IsConsistent b → Leaves (keystore_registered post b)
  unfolding keystore_registered
  keystore_registered-Leaves b h = elim (Bool-cases (is_state b.aopp.state awaiting_keystore)) [
    | inl e ↦
        let state = is_state_awaiting b.aopp.state e in
        let told = ap (λ (a : Aopp). rank a.state) h.told in
        rw e (
          with_keystore-Leaves b.keystore b
            (subst (λ (s : AoppState). IsAtRest s b.aopp) state h.at_rest) h.progress
            (rw (told, state) (omega arith)))
    | inr e ↦ rw e h
  ]

  with_approval-Leaves :
      (o : Option Keystore) (b : Backend)
      → IsAsked b.aopp
      → IsProgress b.notified
      → told_rank b < 2
      → Leaves (with_approval post o (to_state awaiting_keystore b))
  unfolding with_approval notify to_state keystore_registered is_state
  with_approval-Leaves none b asked p low = record {
    told = refl;
    progress = (inr low, p);
    at_rest = record {
      has_callback = asked.has_callback;
      has_message = asked.has_message;
      has_coin = asked.has_coin;
    };
  }
  with_approval-Leaves (some k) b asked p low =
      with_keystore-Leaves b.keystore _
        (record {
          has_callback = asked.has_callback;
          has_message = asked.has_message;
          has_coin = asked.has_coin;
        })
        p (omega arith)

  pub approve-Leaves : (b : Backend) → IsConsistent b → Leaves (approve post b)
  unfolding approve
  approve-Leaves b h = elim (Bool-cases (is_state b.aopp.state user_approval)) [
    | inl e ↦
        let state = is_state_approval b.aopp.state e in
        let told = ap (λ (a : Aopp). rank a.state) h.told in
        rw e (
          with_approval-Leaves b.keystore b
            (subst (λ (s : AoppState). IsAtRest s b.aopp) state h.at_rest) h.progress
            (rw (told, state) (omega arith)))
    | inr e ↦ rw e h
  ]
