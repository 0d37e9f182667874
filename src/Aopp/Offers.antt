-- ===== src/Aopp/Offers.antt =====
-- The accounts that the user can choose from.
use mathlib.Core.Path.{ap₂}
use mathlib.Core.List.{append-nil, append_assoc}
use bitbox_wallet_app.Prelude.{
  ℕ, ◌≡◌, ◌⊎◌, inl, inr, refl, sym, ap, ◌∙◌, Bool, true, false, not, ◌&&◌, ◌||◌, List, [], ◌∷◌,
  ◌++◌, map, Option, none, some, select, if◌then◌else◌,
}
use bitbox_wallet_app.Prelude.Run.{Run, ok, err, panic, out_of_fuel}
use bitbox_wallet_app.Signing.Configuration.{Error, root_fingerprint}
use bitbox_wallet_app.Coins.{Text, CoinCode, same_coin}
use bitbox_wallet_app.Aopp.Types.{Choice, Account, Keystore}
use bitbox_wallet_app.Aopp.{
  signing_config_idx, Offer, skipped, other_script_type, offered, compare_root_fingerprint, offer,
  add_offer, offers,
}

abbrev pub every : (Account → Bool) → List Account → Bool
every p [] = true
every p (a ∷ as') = p a && every p as'

abbrev pub some_of : (Account → Bool) → List Account → Bool
some_of p [] = false
some_of p (a ∷ as') = p a || some_of p as'

abbrev known : Run Error (List ℕ) → Bool
known (ok fingerprint) = true
known r = false

abbrev pub has_fingerprint : Account → Bool
has_fingerprint a = known (root_fingerprint a.signing_configurations)

or_false : (b : Bool) → (b || false) ≡ b
or_false true = refl
or_false false = refl

known_cases : (r : Run Error (List ℕ)) → ((f : List ℕ) × (r ≡ ok f)) ⊎ (known r ≡ false)
known_cases (ok f) = inl (f, refl)
known_cases panic = inr refl
known_cases out_of_fuel = inr refl
known_cases (err e) = inr refl

abbrev of_keystore : Keystore → Run Error (List ℕ) → Bool
of_keystore k (ok fingerprint) = compare_root_fingerprint k.root_fingerprint fingerprint
of_keystore k r = false

-- An account of the keystore and the coin that the user sees.
abbrev pub suits : Keystore → CoinCode → Account → Bool
suits k coin a =
    of_keystore k (root_fingerprint a.signing_configurations)
    && (not (a.inactive_account || a.hidden_because_unused) && same_coin a.coin_code coin)

abbrev is_some : Option ℕ → Bool
is_some none = false
is_some (some n) = true

-- It has a signing configuration for the format.
abbrev pub serves : Text → Account → Bool
serves format a = is_some (signing_config_idx a.coin_code format a.signing_configurations)

abbrev pub choice_of : Account → Choice
choice_of a = record { name = a.name; code = a.code }

-- The offer of an account with a known fingerprint.
abbrev expected : Bool → Bool → Choice → Offer
expected true true c = offered c
expected true false c = other_script_type
expected false serving c = skipped

offer-expected :
    (k : Keystore) (coin : CoinCode) (format : Text) (a : Account) (fingerprint : List ℕ)
    → root_fingerprint a.signing_configurations ≡ ok fingerprint
    → offer k coin format a fingerprint ≡ expected (suits k coin a) (serves format a) (choice_of a)
unfolding offer
offer-expected k coin format a fingerprint e = rw e (
    go (compare_root_fingerprint k.root_fingerprint fingerprint)
      (a.inactive_account || a.hidden_because_unused) (same_coin a.coin_code coin)
      (signing_config_idx a.coin_code format a.signing_configurations))
  where
    go :
        (ours hidden same : Bool) (idx : Option ℕ)
        → (if not ours
            then skipped
            else (if hidden
                then skipped
                else (if not same
                    then skipped
                    else elim idx [ none ↦ other_script_type | some n ↦ offered (choice_of a) ])))
          ≡ expected (ours && (not hidden && same)) (is_some idx) (choice_of a)
    go false hidden same idx = refl
    go true true same idx = refl
    go true false false idx = refl
    go true false true none = refl
    go true false true (some n) = refl

abbrev pub if_known : Bool → List Choice → Bool → Option (List Choice × Bool)
if_known true choices filtered = some (choices, filtered)
if_known false choices filtered = none

abbrev chosen : Keystore → CoinCode → Text → List Account → List Account
chosen k coin format as' = select (λ a. suits k coin a && serves format a) as'

abbrev unserved : Keystore → CoinCode → Text → List Account → Bool
unserved k coin format as' = some_of (λ a. suits k coin a && not (serves format a)) as'

-- What the loop over the accounts computes.
abbrev gathered :
    Keystore → CoinCode → Text → List Account → List Choice → Bool → Option (List Choice × Bool)
gathered k coin format as' choices filtered =
    if_known (every has_fingerprint as') (choices ++ map choice_of (chosen k coin format as'))
      (filtered || unserved k coin format as')

-- One account more: whether it suits and serves, what the others give, and what is gathered so far.
one_more :
    (s v e y filtered : Bool) (a : Account) (rest : List Account) (choices : List Choice)
    → if_known e
        ((add_offer (expected s v (choice_of a)) choices filtered).0 ++ map choice_of rest)
        ((add_offer (expected s v (choice_of a)) choices filtered).1 || y)
      ≡ if_known e
          (choices ++ map choice_of (if s && v then a ∷ rest else rest))
          (filtered || (s && not v || y))
unfolding add_offer
one_more true true e y filtered a rest choices =
    ap (λ (cs : List Choice). if_known e cs (filtered || y))
      (append_assoc choices (choice_of a ∷ []) (map choice_of rest))
one_more true false e y true a rest choices = refl
one_more true false e y false a rest choices = refl
one_more false v e y filtered a rest choices = refl

none_if_unknown :
    (r : Run Error (List ℕ)) (next : List ℕ → Option (List Choice × Bool))
    → known r ≡ false
    → elim r [ ok f ↦ next f | _ ↦ none ] ≡ none
none_if_unknown (ok f) next e = cc
none_if_unknown panic next e = refl
none_if_unknown out_of_fuel next e = refl
none_if_unknown (err x) next e = refl

offers-gathered :
    (k : Keystore) (coin : CoinCode) (format : Text) (as' : List Account) (choices : List Choice)
    (filtered : Bool)
    → offers k coin format as' (choices, filtered) ≡ gathered k coin format as' choices filtered
unfolding offers
offers-gathered k coin format [] choices filtered =
    ap₂ (λ (cs : List Choice) (f : Bool). if_known true cs f) (sym (append-nil choices))
      (sym (or_false filtered))
offers-gathered k coin format (a ∷ as') choices filtered =
    elim (known_cases (root_fingerprint a.signing_configurations)) [
      | inl (fingerprint, e) ↦
          let s = suits k coin a in
          let v = serves format a in
          let p = add_offer (expected s v (choice_of a)) choices filtered in
          let step : offers k coin format (a ∷ as') (choices, filtered)
              ≡ offers k coin format as'
                  (add_offer (offer k coin format a fingerprint) choices filtered) =
            rw (e, offers) refl in
          let all_known : known (root_fingerprint a.signing_configurations) ≡ true =
            rw (e, offers) refl in
          step
          ∙ ap (λ (o : Offer). offers k coin format as' (add_offer o choices filtered))
              (offer-expected k coin format a fingerprint e)
          ∙ offers-gathered k coin format as' p.0 p.1
          ∙ one_more s v (every has_fingerprint as') (unserved k coin format as') filtered a
              (chosen k coin format as') choices
          ∙ ap
              (λ (b : Bool).
                if_known (b && every has_fingerprint as')
                  (choices ++ map choice_of (chosen k coin format (a ∷ as')))
                  (filtered || unserved k coin format (a ∷ as')))
              (sym all_known)
      | inr unknown ↦
          none_if_unknown (root_fingerprint a.signing_configurations)
            (λ f. offers k coin format as' (add_offer (offer k coin format a f) choices filtered))
            unknown
          ∙ ap
              (λ (b : Bool).
                if_known (b && every has_fingerprint as')
                  (choices ++ map choice_of (chosen k coin format (a ∷ as')))
                  (filtered || unserved k coin format (a ∷ as')))
              (sym unknown)
    ]

-- The loop of aoppKeystoreRegistered offers the accounts of the keystore and the coin that the user
-- sees and that have a signing configuration for the format, in their order, and tells whether some
-- account was left out for the format alone; unless the fingerprint of an account is unknown.
pub offers-select :
    (k : Keystore) (coin : CoinCode) (format : Text) (as' : List Account)
    → offers k coin format as' ([], false)
      ≡ if_known
          (every has_fingerprint as')
          (map choice_of (select (λ a. suits k coin a && serves format a) as'))
          (some_of (λ a. suits k coin a && not (serves format a)) as')
offers-select k coin format as' = offers-gathered k coin format as' [] false
