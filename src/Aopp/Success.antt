-- ===== src/Aopp/Success.antt =====
-- How a chosen account ends the request.
use bitbox_wallet_app.Prelude.{
  ℕ, ◌≡◌, ◌⊎◌, inl, inr, refl, sym, ap, ◌∙◌, true, Option, none, some, arith, Bool-cases,
  Option-cases,
}
use bitbox_wallet_app.Prelude.Run.{Run, ok, >>=-eq-ok, ok_unique}
use bitbox_wallet_app.Signing.Configuration.{Error}
use bitbox_wallet_app.Coins.{Text}
use bitbox_wallet_app.Aopp.Types.{
  AoppState, error, choosing_account, syncing, signing, success, Address, Account, Signed,
  signature, aborted, failed, Backend,
}
use bitbox_wallet_app.Aopp.{
  is_state, notify, to_state, set_error, signing_config_idx, find_account, first_address, sign,
  deliver, finish_signing, sign_address, with_idx, with_account, choose_account,
}

abbrev pub IsOver : AoppState → Type 0
IsOver s = (s ≡ error) ⊎ (s ≡ success)

module _ (post : Text → Text → Text → Option ℕ) where
  -- The address went out with a signature of the keystore, and the callback took it.
  pub record IsDelivered (code : Text) (b b' : Backend) : Type 0 where
    pub account : Account
    pub chosen : find_account code b.accounts ≡ some account
    pub initialized : account.initializes ≡ true
    pub idx : ℕ
    pub configured :
        signing_config_idx account.coin_code b.aopp.format account.signing_configurations ≡ some idx
    pub address : Address
    pub unused : first_address account.unused_addresses idx ≡ ok address
    pub sig : Text
    pub signed :
        sign b.keystore account.coin_code b.aopp.message address account.signing_configurations idx
        ≡ ok (some (signature sig))
    pub taken : post b.aopp.callback address.encoded sig ≡ some 204
    pub shown : b'.aopp.address ≡ address.encoded

  deliver_cases :
      (a : Address) (sig : Text) (b : Backend)
      → ((deliver post a sig b).aopp.state ≡ error)
        ⊎ ((deliver post a sig b).aopp.state ≡ success)
          × (post b.aopp.callback a.encoded sig ≡ some 204)
          × ((deliver post a sig b).aopp.address ≡ b.aopp.address)
  unfolding deliver set_error notify to_state
  deliver_cases a sig b = ground arith

  finish_signing_cases :
      (a : Address) (s : Option Signed) (b : Backend)
      → ((finish_signing post a s b).aopp.state ≡ error)
        ⊎ ((finish_signing post a s b).aopp.state ≡ success)
          × ((sig : Text) × (s ≡ some (signature sig))
              × (post b.aopp.callback a.encoded sig ≡ some 204))
          × ((finish_signing post a s b).aopp.address ≡ b.aopp.address)
  unfolding finish_signing set_error notify
  finish_signing_cases a none b = inl refl
  finish_signing_cases a (some aborted) b = inl refl
  finish_signing_cases a (some failed) b = inl refl
  finish_signing_cases a (some (signature sig)) b = elim (deliver_cases a sig b) [
    | inl e ↦ inl e
    | inr (e, took, same) ↦ inr (e, (sig, refl, took), same)
  ]

  -- The state that the request has while the account is set up.
  abbrev pub setting_up : Text → Backend → Backend
  setting_up code b =
      notify (record b { aopp = record b.aopp { account_code = code; state = syncing } })

  abbrev pub asking : Address → Backend → Backend
  asking a b = notify (record b {
    aopp = record b.aopp { address = a.encoded; address_id = a.id; state = signing };
  })

  -- An account that is ready to sign ends the request.
  with_idx_cases :
      (code : Text) (b b' : Backend) (account : Account)
      → find_account code b.accounts ≡ some account
      → account.initializes ≡ true
      → (idx : ℕ)
      → signing_config_idx account.coin_code b.aopp.format account.signing_configurations ≡ some idx
      → with_idx post account (some idx) (setting_up code b) ≡ ok b'
      → (b'.aopp.state ≡ error) ⊎ (b'.aopp.state ≡ success) × IsDelivered code b b'
  unfolding with_idx sign_address notify
  with_idx_cases code b b' account chosen ready idx configured e =
      let (a, first, e') = >>=-eq-ok (first_address account.unused_addresses idx) _ e in
      let (s, signed, e'') =
        >>=-eq-ok
          (sign b.keystore account.coin_code b.aopp.message a account.signing_configurations idx) _
          e' in
      let same : finish_signing post a s (asking a (setting_up code b)) ≡ b' = ok_unique refl e'' in
      elim (finish_signing_cases a s (asking a (setting_up code b))) [
        | inl bad ↦ inl (ap (λ (x : Backend). x.aopp.state) (sym same) ∙ bad)
        | inr (over, (sig, signed_eq, took), shown) ↦ inr (
          ap (λ (x : Backend). x.aopp.state) (sym same) ∙ over,
          record {
            account = account;
            chosen = chosen;
            initialized = ready;
            idx = idx;
            configured = configured;
            address = a;
            unused = first;
            sig = sig;
            signed = signed ∙ ap ok signed_eq;
            taken = took;
            shown = ap (λ (x : Backend). x.aopp.address) (sym same) ∙ shown;
          },
        )
      ]

  -- A call that returns at an error.
  at_error :
      (r : Run Error Backend) (x b' : Backend)
      → r ≡ ok x
      → r ≡ ok b'
      → x.aopp.state ≡ error
      → b'.aopp.state ≡ error
  at_error r x b' p q h =
      let same : x ≡ b' = ok_unique p q in ap (λ (y : Backend). y.aopp.state) (sym same) ∙ h

  pub choose_account_cases :
      (code : Text) (b b' : Backend)
      → b.aopp.state ≡ choosing_account
      → choose_account post code b ≡ ok b'
      → (b'.aopp.state ≡ error) ⊎ (b'.aopp.state ≡ success) × IsDelivered code b b'
  unfolding choose_account with_account with_idx set_error notify is_state sign_address
  choose_account_cases code b b' state e =
      let r = rw state at e in
      elim (Option-cases (find_account code b.accounts)) [
        | inl nothing ↦ inl (at_error _ _ b' refl (rw nothing at r) refl)
        | inr (account, chosen) ↦ elim (Bool-cases account.initializes) [
          | inl ready ↦
              elim (Option-cases (
                signing_config_idx account.coin_code b.aopp.format
                  account.signing_configurations)) [
                    | inl unknown ↦
                        inl (at_error _ _ b' refl (rw (chosen, ready, unknown) at r) refl)
                    | inr (idx, configured) ↦
                        with_idx_cases code b b' account chosen ready idx configured
                          (rw (chosen, ready, configured) at r)
                  ]
          | inr unready ↦ inl (at_error _ _ b' refl (rw (chosen, unready) at r) refl)
        ]
      ]
