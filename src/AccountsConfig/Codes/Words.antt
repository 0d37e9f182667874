-- ===== src/AccountsConfig/Codes/Words.antt =====
-- The words of a code.
use bitbox_wallet_app.Prelude.{
  ℕ, ◌/◌, ◌%◌, ◌^◌, ◌<◌, ◌≤◌, ◌≡◌, ◌≢◌, refl, ap, ◌∙◌, Bool, false, ◌||◌, List, [], ◌∷◌, ◌++◌,
  Option, none, some, All, ◌==◌, arith, Bool-cases, inl, inr,
}
use mathlib.Core.List.{append_assoc}
use bitbox_wallet_app.Maketx.Types.{ScriptType, p2pkh, p2wpkh_p2sh, p2wpkh, p2tr, unknown}
use bitbox_wallet_app.Signing.Text.{split, join}
use bitbox_wallet_app.Signing.Text.Laws.{Lacks, split-join}
use bitbox_wallet_app.Signing.Decimal.{format, IsDigit, format-IsDigit}
use bitbox_wallet_app.Coins.{
  Text, text, CoinCode, btc, tbtc, rbtc, ltc, tltc, eth, goeth, sepeth, other, code_text,
}
use bitbox_wallet_app.AccountsConfig.Codes.{
  hex_digit, hex, regular_account_code, script_type_text, split_account_code,
}

-- What a code is made of: a split account has a script type.
pub record CodeParts : Type 0 where
  pub fingerprint : List ℕ
  pub coin : CoinCode
  pub number : ℕ
  pub split_type : Option ScriptType

-- One of the backend's coins.
abbrev pub IsListed : CoinCode → Type 0
IsListed (other s) = ⊥
IsListed coin = Unit

-- A script type of an account.
abbrev pub IsTyped : Option ScriptType → Type 0
IsTyped (some unknown) = ⊥
IsTyped t = Unit

pub record IsProper (p : CodeParts) : Type 0 where
  pub bytes : All (λ b. b < 2 ^ 8) p.fingerprint
  pub listed : IsListed p.coin
  pub uint16 : p.number < 2 ^ 16
  pub typed : IsTyped p.split_type

-- The code of the account.
abbrev pub account_code : CodeParts → Text
account_code p = elim p.split_type [
  | none ↦ regular_account_code p.fingerprint p.coin p.number
  | some t ↦ split_account_code (regular_account_code p.fingerprint p.coin p.number) t
]

-- The words between the dashes.
abbrev pub type_words : Option ScriptType → List Text
type_words none = []
type_words (some p2pkh) = text "p2pkh" ∷ []
type_words (some p2wpkh_p2sh) = text "p2wpkh" ∷ text "p2sh" ∷ []
type_words (some p2wpkh) = text "p2wpkh" ∷ []
type_words (some p2tr) = text "p2tr" ∷ []
type_words (some unknown) = [] ∷ []

abbrev pub words : CodeParts → List Text
words p =
    text "v0" ∷ hex p.fingerprint ∷ code_text p.coin ∷ format p.number ∷ type_words p.split_type

join-join :
    (sep : ℕ) (w : Text) (ws : List Text) (v : Text) (vs : List Text)
    → join sep (w ∷ ws) ++ sep ∷ join sep (v ∷ vs) ≡ join sep (w ∷ (ws ++ v ∷ vs))
unfolding join
join-join sep w [] v vs = refl
join-join sep w (x ∷ ws) v vs =
    append_assoc w (sep ∷ join sep (x ∷ ws)) (sep ∷ join sep (v ∷ vs))
    ∙ ap (λ (s : Text). w ++ sep ∷ s) (join-join sep x ws v vs)

account_code-join : (p : CodeParts) → IsTyped p.split_type → account_code p ≡ join b'-' (words p)
unfolding regular_account_code split_account_code script_type_text join
account_code-join p h = by_type p.split_type h
  where
    first : List Text
    first = hex p.fingerprint ∷ code_text p.coin ∷ format p.number ∷ []

    by_type :
        (t : Option ScriptType)
        → IsTyped t
        → account_code (record p { split_type = t })
          ≡ join b'-' (words (record p { split_type = t }))
    by_type none h = refl
    by_type (some p2pkh) h = join-join b'-' (text "v0") first (text "p2pkh") []
    by_type (some p2wpkh) h = join-join b'-' (text "v0") first (text "p2wpkh") []
    by_type (some p2tr) h = join-join b'-' (text "v0") first (text "p2tr") []
    by_type (some p2wpkh_p2sh) h =
        join-join b'-' (text "v0") first (text "p2wpkh") (text "p2sh" ∷ [])
    by_type (some unknown) h = absurd h

-- No word has a dash.
abbrev has_dash : Text → Bool
has_dash [] = false
has_dash (c ∷ s) = (c == b'-') || has_dash s

has_dash-Lacks : (s : Text) → has_dash s ≡ false → Lacks b'-' s
has_dash-Lacks [] e = _
has_dash-Lacks (c ∷ s) e = elim (Bool-cases (c == b'-')) [
  | inl dash ↦ (let r = rw dash at e in cc)
  | inr other_char ↦ (==_differ c other_char, has_dash-Lacks s (rw other_char at e))
]
  where
    ==_differ : (c : ℕ) → (c == b'-') ≡ false → c ≢ b'-'
    ==_differ c e = ground arith

digit-Lacks : (s : Text) → All IsDigit s → Lacks b'-' s
digit-Lacks [] h = _
digit-Lacks (c ∷ s) (d, ds) = ((λ q. omega arith), digit-Lacks s ds)

hex_digit_above : (d : ℕ) → b'0' ≤ hex_digit d
unfolding hex_digit
hex_digit_above d = ground arith

hex-Lacks : (bs : List ℕ) → Lacks b'-' (hex bs)
unfolding hex
hex-Lacks [] = _
hex-Lacks (b ∷ bs) =
    let high = hex_digit_above (b / 16) in
    let low = hex_digit_above (b % 16) in ((λ q. omega arith), ((λ q. omega arith), hex-Lacks bs))

code_text-Lacks : (c : CoinCode) → IsListed c → Lacks b'-' (code_text c)
unfolding code_text
code_text-Lacks btc h = has_dash-Lacks (text "btc") refl
code_text-Lacks tbtc h = has_dash-Lacks (text "tbtc") refl
code_text-Lacks rbtc h = has_dash-Lacks (text "rbtc") refl
code_text-Lacks ltc h = has_dash-Lacks (text "ltc") refl
code_text-Lacks tltc h = has_dash-Lacks (text "tltc") refl
code_text-Lacks eth h = has_dash-Lacks (text "eth") refl
code_text-Lacks goeth h = has_dash-Lacks (text "goeth") refl
code_text-Lacks sepeth h = has_dash-Lacks (text "sepeth") refl
code_text-Lacks (other s) h = absurd h

type_words-Lacks : (t : Option ScriptType) → All (Lacks b'-') (type_words t)
type_words-Lacks none = _
type_words-Lacks (some p2pkh) = (has_dash-Lacks (text "p2pkh") refl, _)
type_words-Lacks (some p2wpkh_p2sh) =
    (has_dash-Lacks (text "p2wpkh") refl, (has_dash-Lacks (text "p2sh") refl, _))
type_words-Lacks (some p2wpkh) = (has_dash-Lacks (text "p2wpkh") refl, _)
type_words-Lacks (some p2tr) = (has_dash-Lacks (text "p2tr") refl, _)
type_words-Lacks (some unknown) = (_, _)

-- The code gives its words back.
pub split-account_code : (p : CodeParts) → IsProper p → split b'-' (account_code p) ≡ words p
split-account_code p h =
    ap (split b'-') (account_code-join p h.typed)
    ∙ split-join b'-' (text "v0") _ (
      has_dash-Lacks (text "v0") refl,
      (
        hex-Lacks p.fingerprint,
        (
          code_text-Lacks p.coin h.listed,
          (digit-Lacks (format p.number) (format-IsDigit p.number), type_words-Lacks p.split_type),
        ),
      ),
    )
