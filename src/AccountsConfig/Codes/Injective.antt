-- ===== src/AccountsConfig/Codes/Injective.antt =====
-- Two accounts have two codes.
use bitbox_wallet_app.Prelude.{
  ℕ, ◌+◌, ◌-◌, ◌*◌, ◌/◌, ◌%◌, ◌^◌, ◌<◌, ◌≡◌, refl, sym, ap, ◌∙◌, List, [], ◌∷◌, Option, none, some,
  All, ltb, if◌then◌else◌, arith,
}
use mathlib.Core.Path.{ap₂}
use bitbox_wallet_app.Maketx.Types.{ScriptType, p2pkh, p2wpkh_p2sh, p2wpkh, p2tr, unknown}
use bitbox_wallet_app.Signing.Text.{split}
use bitbox_wallet_app.Signing.Decimal.{format, atoi, atoi-format}
use bitbox_wallet_app.Signing.Configuration.{same_bytes}
use bitbox_wallet_app.Coins.{
  Text, text, CoinCode, btc, tbtc, rbtc, ltc, tltc, eth, goeth, sepeth, other, code_text,
}
use bitbox_wallet_app.AccountsConfig.Codes.{hex_digit, hex}
use bitbox_wallet_app.AccountsConfig.Codes.Words.{
  CodeParts, IsListed, IsTyped, IsProper, account_code, words, type_words, split-account_code,
}

-- What the words stand for.
abbrev digit_of : ℕ → ℕ
digit_of c = if ltb c b'a' then c - b'0' else c - b'a' + 10

digit_of-hex_digit : (d : ℕ) → d < 16 → digit_of (hex_digit d) ≡ d
unfolding hex_digit
digit_of-hex_digit d h = ground arith

abbrev unhex : Text → List ℕ
unhex (a ∷ b ∷ s) = (digit_of a * 16 + digit_of b) ∷ unhex s
unhex s = []

unhex-hex : (bs : List ℕ) → All (λ b. b < 2 ^ 8) bs → unhex (hex bs) ≡ bs
unfolding hex
unhex-hex [] h = refl
unhex-hex (b ∷ bs) (small, hs) =
    let high = digit_of-hex_digit (b / 16) (omega arith) in
    let low = digit_of-hex_digit (b % 16) (omega arith) in
    ap₂ (λ (x : ℕ) (xs : List ℕ). x ∷ xs) (omega arith) (unhex-hex bs hs)

unfoldable coin_of : Text → CoinCode
coin_of s =
    if same_bytes s (text "btc")
    then btc
    else (if same_bytes s (text "tbtc")
        then tbtc
        else (if same_bytes s (text "rbtc")
            then rbtc
            else (if same_bytes s (text "ltc")
                then ltc
                else (if same_bytes s (text "tltc")
                    then tltc
                    else (if same_bytes s (text "eth")
                        then eth
                        else (if same_bytes s (text "goeth") then goeth else sepeth))))))

coin_of-code_text : (c : CoinCode) → IsListed c → coin_of (code_text c) ≡ c
unfolding code_text coin_of same_bytes
coin_of-code_text btc h = refl
coin_of-code_text tbtc h = refl
coin_of-code_text rbtc h = refl
coin_of-code_text ltc h = refl
coin_of-code_text tltc h = refl
coin_of-code_text eth h = refl
coin_of-code_text goeth h = refl
coin_of-code_text sepeth h = refl
coin_of-code_text (other s) h = absurd h

unfoldable type_of : List Text → Option ScriptType
type_of [] = none
type_of (s ∷ []) =
    if same_bytes s (text "p2pkh")
    then some p2pkh
    else (if same_bytes s (text "p2tr") then some p2tr else some p2wpkh)
type_of (s ∷ t ∷ ts) = some p2wpkh_p2sh

type_of-type_words : (t : Option ScriptType) → IsTyped t → type_of (type_words t) ≡ t
unfolding type_of same_bytes
type_of-type_words none h = refl
type_of-type_words (some p2pkh) h = refl
type_of-type_words (some p2wpkh_p2sh) h = refl
type_of-type_words (some p2wpkh) h = refl
type_of-type_words (some p2tr) h = refl
type_of-type_words (some unknown) h = absurd h

abbrev number_of : Text → ℕ
number_of s = elim (atoi s) [ none ↦ 0 | some n ↦ n ]

number_of-format : (n : ℕ) → n < 2 ^ 16 → number_of (format n) ≡ n
number_of-format n h = rw (number_of, atoi-format n (omega arith)) refl

abbrev parts_of : List Text → CodeParts
parts_of (v ∷ f ∷ c ∷ n ∷ ts) = record {
  fingerprint = unhex f;
  coin = coin_of c;
  number = number_of n;
  split_type = type_of ts;
}
parts_of ws = record { fingerprint = []; coin = btc; number = 0; split_type = none }

parts_of-words : (p : CodeParts) → IsProper p → parts_of (words p) ≡ p
parts_of-words p h =
    simp
      (
        unhex-hex p.fingerprint h.bytes,
        coin_of-code_text p.coin h.listed,
        number_of-format p.number h.uint16,
        type_of-type_words p.split_type h.typed,
      )
      refl

-- The codes of accounts, unified or split, are globally unique: accounts of the backend's coins have
-- one code only if they have one fingerprint, one coin, one number, and are both unified or split
-- accounts of one script type.
pub account_code_unique :
    (p q : CodeParts) → IsProper p → IsProper q → account_code p ≡ account_code q → p ≡ q
account_code_unique p q hp hq e =
    sym (parts_of-words p hp)
    ∙ ap parts_of (sym (split-account_code p hp) ∙ ap (split b'-') e ∙ split-account_code q hq)
    ∙ parts_of-words q hq
