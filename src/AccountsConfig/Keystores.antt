-- ===== src/AccountsConfig/Keystores.antt =====
-- The keystores of the configuration.
use bitbox_wallet_app.Prelude.{
  ℕ, ◌≡◌, refl, false, List, [], ◌∷◌, ◌++◌, none, some, Bool-cases, Option-cases, inl, inr,
}
use bitbox_wallet_app.Prelude.Run.{ok}
use bitbox_wallet_app.Signing.Configuration.{same_bytes}
use bitbox_wallet_app.Signing.Configuration.Bytes.{same_bytes_refl, same_bytes-true}
use bitbox_wallet_app.AccountsConfig.{
  Keystore, AccountsConfig, find_keystore, lookup_keystore, get_or_add_keystore,
}

find_keystore-append :
    (fingerprint : List ℕ) (ks : List Keystore) (k : Keystore)
    → find_keystore fingerprint ks ≡ none
    → k.root_fingerprint ≡ fingerprint
    → find_keystore fingerprint (ks ++ k ∷ []) ≡ some k
unfolding find_keystore
find_keystore-append fingerprint [] k e same = rw (same, same_bytes_refl fingerprint) refl
find_keystore-append fingerprint (x ∷ xs) k e same =
    elim (Bool-cases (same_bytes x.root_fingerprint fingerprint)) [
      | inl found ↦ (let r = rw found at e in cc)
      | inr other ↦ rw other (find_keystore-append fingerprint xs k (rw other at e) same)
    ]

find_keystore_same :
    (fingerprint : List ℕ) (ks : List Keystore) (k : Keystore)
    → find_keystore fingerprint ks ≡ some k
    → k.root_fingerprint ≡ fingerprint
unfolding find_keystore
find_keystore_same fingerprint [] k e = cc
find_keystore_same fingerprint (x ∷ xs) k e =
    elim (Bool-cases (same_bytes x.root_fingerprint fingerprint)) [
      | inl found ↦
          let r = rw found at e in
          let same : x ≡ k = cc in rw⁻¹ same (same_bytes-true x.root_fingerprint fingerprint found)
      | inr other ↦ find_keystore_same fingerprint xs k (rw other at e)
    ]

-- GetOrAddKeystore gives a keystore with the fingerprint, which LookupKeystore finds in the
-- configuration after it.
pub get_or_add_keystore_lem :
    (fingerprint : List ℕ) (cfg : AccountsConfig)
    → ((get_or_add_keystore fingerprint cfg).0.root_fingerprint ≡ fingerprint)
      × (lookup_keystore fingerprint (get_or_add_keystore fingerprint cfg).1
          ≡ ok (get_or_add_keystore fingerprint cfg).0)
unfolding get_or_add_keystore
get_or_add_keystore_lem fingerprint cfg =
    elim (Option-cases (find_keystore fingerprint cfg.keystores)) [
      | inl nothing ↦
          let k : Keystore = record { watchonly = false; root_fingerprint = fingerprint } in
          let added : get_or_add_keystore fingerprint cfg
              ≡ (k, record cfg { keystores = cfg.keystores ++ k ∷ [] }) =
            rw (nothing, get_or_add_keystore, lookup_keystore) refl in
          let later = find_keystore-append fingerprint cfg.keystores k nothing refl in
          rw added (refl, rw (later, lookup_keystore) refl)
      | inr (k, found) ↦
          let kept : get_or_add_keystore fingerprint cfg ≡ (k, cfg) =
            rw (found, get_or_add_keystore, lookup_keystore) refl in
          rw kept
            (find_keystore_same fingerprint cfg.keystores k found, rw (found, lookup_keystore) refl)
    ]
