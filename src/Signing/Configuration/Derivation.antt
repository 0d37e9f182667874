-- ===== src/Signing/Configuration/Derivation.antt =====
-- Deriving in one step and in two.
use bitbox_wallet_app.Prelude.{
  ℕ, ◌≡◌, refl, sym, ap, ◌∙◌, Bool, false, [], ◌∷◌, ◌++◌, Option, some, arith, Bool-cases,
  Option-cases, inl, inr,
}
use mathlib.Core.List.{append_assoc}
use bitbox_wallet_app.Prelude.Run.{ok, ok_unique, panic_ne_ok, err_ne_ok}
use bitbox_wallet_app.Signing.Keypath.{Keypath, has_hardened, append, derive}
use bitbox_wallet_app.Signing.Keypath.Numbers.{derive-append}
use bitbox_wallet_app.Signing.Configuration.{
  BitcoinSimple, Configuration, bitcoin_of, new_bitcoin_configuration, derived, derive_bitcoin,
  derive_configuration,
}

has_hardened-append :
    (path suffix : Keypath)
    → has_hardened path ≡ false
    → has_hardened suffix ≡ false
    → has_hardened (path ++ suffix) ≡ false
unfolding has_hardened
has_hardened-append [] suffix h k = k
has_hardened-append (node ∷ path) suffix h k = ground (arith, has_hardened-append path suffix)

module _ {Key : Type 0} (is_private : Key → Bool) (derive_child : Key → ℕ → Option Key) where
  abbrev pub placed : BitcoinSimple Key → Keypath → Key → BitcoinSimple Key
  placed b path key = record {
    key_info = record {
      root_fingerprint = b.key_info.root_fingerprint;
      absolute_keypath = path;
      extended_public_key = key;
    };
    script_type = b.script_type;
  }

  abbrev pub at_keypath : BitcoinSimple Key → Keypath → Key → BitcoinSimple Key
  at_keypath b path = placed b (append b.key_info.absolute_keypath path)

  -- What a derivation that succeeds has made.
  pub record IsDerived (c : Configuration Key) (path : Keypath) (c' : Configuration Key)
      : Type 0 where
    pub from : BitcoinSimple Key
    pub key : Key
    pub from_eq : c.bitcoin_simple ≡ some from
    pub to_eq : bitcoin_of (at_keypath from path key) ≡ c'
    pub soft : has_hardened path ≡ false
    pub key_eq : derive derive_child path from.key_info.extended_public_key ≡ some key
    pub public : is_private key ≡ false

  derive_configuration-eq-ok :
      (c c' : Configuration Key) (path : Keypath)
      → derive_configuration is_private derive_child c path ≡ ok c'
      → IsDerived c path c'
  unfolding derive_configuration derive_bitcoin derived new_bitcoin_configuration bitcoin_of
  derive_configuration-eq-ok c c' path e = elim (Option-cases c.bitcoin_simple) [
    | inl nothing ↦ absurd (err_ne_ok refl (rw nothing at e))
    | inr (b, is_bitcoin) ↦ elim (Bool-cases (has_hardened path)) [
      | inl hard ↦ absurd (err_ne_ok refl (rw (is_bitcoin, hard) at e))
      | inr soft ↦ elim (Option-cases (derive derive_child path b.key_info.extended_public_key)) [
        | inl failed ↦ absurd (err_ne_ok refl (rw (is_bitcoin, soft, failed) at e))
        | inr (key, derivation) ↦ elim (Bool-cases (is_private key)) [
          | inl secret ↦ absurd (panic_ne_ok refl (rw (is_bitcoin, soft, derivation, secret) at e))
          | inr public ↦ record {
            from = b;
            key = key;
            from_eq = is_bitcoin;
            to_eq = ok_unique refl (rw (is_bitcoin, soft, derivation, public) at e);
            soft = soft;
            key_eq = derivation;
            public = public;
          }
        ]
      ]
    ]
  ]

  IsDerived-ok :
      (c c' : Configuration Key) (path : Keypath)
      → IsDerived c path c'
      → derive_configuration is_private derive_child c path ≡ ok c'
  unfolding derive_configuration derive_bitcoin derived new_bitcoin_configuration bitcoin_of
  IsDerived-ok c c' path d = rw (d.from_eq, d.soft, d.key_eq, d.public) (ap ok d.to_eq)

  -- A derivation that succeeds, and a further one from its result that succeeds, have the result of
  -- one derivation at the appended keypath.
  pub derive_configuration-append :
      (c c' c'' : Configuration Key) (path suffix : Keypath)
      → derive_configuration is_private derive_child c path ≡ ok c'
      → derive_configuration is_private derive_child c' suffix ≡ ok c''
      → derive_configuration is_private derive_child c (append path suffix) ≡ ok c''
  unfolding bitcoin_of append
  derive_configuration-append c c' c'' path suffix e e' =
      let d = derive_configuration-eq-ok c c' path e in
      let d' = derive_configuration-eq-ok c' c'' suffix e' in
      let same : some d'.from ≡ some (at_keypath d.from path d.key) =
        sym d'.from_eq ∙ sym (ap (λ (x : Configuration Key). x.bitcoin_simple) d.to_eq) in
      let from_eq : d'.from ≡ at_keypath d.from path d.key = cc in
      let key_eq' : derive derive_child suffix d.key ≡ some d'.key =
        ap (λ (b : BitcoinSimple Key). derive derive_child suffix b.key_info.extended_public_key)
          (sym from_eq)
        ∙ d'.key_eq in
      IsDerived-ok c c'' (append path suffix) (record {
        from = d.from;
        key = d'.key;
        from_eq = d.from_eq;
        to_eq =
            ap (λ k. bitcoin_of (placed d.from k d'.key))
              (sym (append_assoc d.from.key_info.absolute_keypath path suffix))
            ∙ ap (λ b. bitcoin_of (at_keypath b suffix d'.key)) (sym from_eq)
            ∙ d'.to_eq;
        soft = has_hardened-append path suffix d.soft d'.soft;
        key_eq =
            derive-append derive_child path suffix d.from.key_info.extended_public_key
            ∙ rw d.key_eq key_eq';
        public = d'.public;
      })
