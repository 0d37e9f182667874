-- ===== src/Aopp/Requests.antt =====
-- What becomes of a request's address.
use bitbox_wallet_app.Prelude.{
  ◌≡◌, ◌≢◌, ◌⊎◌, inl, inr, refl, ap, Bool, true, false, not, [], Option, none, some, if◌then◌else◌,
}
use bitbox_wallet_app.Signing.Configuration.{same_bytes}
use bitbox_wallet_app.Signing.Configuration.Bytes.{same_bytes-true, same_bytes-false}
use bitbox_wallet_app.Coins.{text, CoinCode}
use bitbox_wallet_app.Aopp.Types.{
  ErrorCode, unsupported_asset, version, invalid_request, error, user_approval, Aopp, inactive_aopp,
  Query, Backend,
}
use bitbox_wallet_app.Aopp.{notify, set_error, to_lower, aopp_coin, with_message, with_coin, handle}

not-true : (b : Bool) → not b ≡ true → b ≡ false
not-true true e = cc
not-true false e = refl

not-false : (b : Bool) → not b ≡ false → b ≡ true
not-false true e = refl
not-false false e = cc

-- A request that is accepted: version 0, a callback that parses, a known asset and a message.
pub record IsValid (q : Query) (coin : CoinCode) : Type 0 where
  pub is_version : q.v ≡ text "0"
  pub has_callback : q.callback ≢ []
  pub parses : q.callback_parses ≡ true
  pub known : aopp_coin (to_lower q.asset) ≡ some coin
  pub has_message : q.msg ≢ []

-- What an error says of the request.
pub data IsRejected (q : Query) : Option ErrorCode → Type 0 where
  other_version : q.v ≢ text "0" → IsRejected q (some version)
  no_callback : q.callback ≡ [] → IsRejected q (some invalid_request)
  bad_callback : q.callback_parses ≡ false → IsRejected q (some invalid_request)
  no_message : q.msg ≡ [] → IsRejected q (some invalid_request)
  other_asset : aopp_coin (to_lower q.asset) ≡ none → IsRejected q (some unsupported_asset)

-- The request as the user gets to see it.
abbrev pub asked : Query → CoinCode → Aopp
asked q coin = record inactive_aopp {
  state = user_approval;
  callback = q.callback;
  message = q.msg;
  coin_code = coin;
  format = q.format;
}

abbrev pub Answers : Query → Backend → Type 0
Answers q b =
    ((coin : CoinCode) × IsValid q coin × (b.aopp ≡ asked q coin))
    ⊎ (b.aopp.state ≡ error) × IsRejected q b.aopp.error_code

if-Answers :
    (q : Query) (c : Bool) (x y : Backend)
    → (c ≡ true → Answers q x)
    → (c ≡ false → Answers q y)
    → Answers q (if c then x else y)
if-Answers q true x y f g = f refl
if-Answers q false x y f g = g refl

rejected :
    (q : Query) (e : ErrorCode) (b : Backend) → IsRejected q (some e) → Answers q (set_error e b)
unfolding set_error notify
rejected q e b why = inr (refl, why)

with_coin-Answers :
    (q : Query) (o : Option CoinCode) (b : Backend)
    → aopp_coin (to_lower q.asset) ≡ o
    → b.aopp ≡ record inactive_aopp { callback = q.callback }
    → q.v ≡ text "0"
    → q.callback ≢ []
    → q.callback_parses ≡ true
    → Answers q (with_coin q o b)
unfolding with_coin with_message notify
with_coin-Answers q none b e same v c p = rejected q _ b (other_asset e)
with_coin-Answers q (some coin) b e same v c p =
    if-Answers q (same_bytes q.msg []) _ _
      (λ m. rejected q _ _ (no_message (same_bytes-true q.msg [] m)))
      (λ m. inl (
        coin,
        record {
          is_version = v;
          has_callback = c;
          parses = p;
          known = e;
          has_message = same_bytes-false q.msg [] m;
        },
        ap
            (λ (a : Aopp). record a {
              coin_code = coin;
              message = q.msg;
              format = q.format;
              state = user_approval;
            })
            same,
      ))

-- A request either is valid, and then the user is asked to approve what its address says; or it ends
-- in an error, and the code of the error says what is wrong with the address: the version, the
-- callback or the message, or the asset.
pub handle_lem : (q : Query) (b : Backend) → Answers q (handle q b)
unfolding handle
handle_lem q b =
    if-Answers q (not (same_bytes q.v (text "0"))) _ _
      (λ v.
        rejected q _ _ (
          other_version (same_bytes-false q.v (text "0") (not-true (same_bytes q.v (text "0")) v))))
      (λ v.
        if-Answers q (same_bytes q.callback []) _ _
          (λ c. rejected q _ _ (no_callback (same_bytes-true q.callback [] c)))
          (λ c.
            if-Answers q q.callback_parses _ _
              (λ p.
                with_coin-Answers q (aopp_coin (to_lower q.asset)) _ refl refl
                  (same_bytes-true q.v (text "0") (not-false (same_bytes q.v (text "0")) v))
                  (same_bytes-false q.callback [] c) p)
              (λ p. rejected q _ _ (bad_callback p))))
