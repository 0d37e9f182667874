-- ===== src/Coins.antt =====
-- backend/coins/coin/codes.go: the codes of coins.
use Prim.Native.Char.{code}
use Prim.Native.String.{String}
use bitbox_wallet_app.Prelude.{ℕ, Bool, true, false, List, [], ◌∷◌}
use bitbox_wallet_app.Signing.Configuration.{same_bytes}

-- A text is the list of its code points.
abbrev pub Text : Type 0
Text = List ℕ

abbrev pub text : String → Text
text String.[] = []
text (String.◌∷◌ c s) = code c ∷ text s

-- `other` is a code that is none of these: of an ERC20 token, or the empty one.
pub data CoinCode : Type 0 where
  btc tbtc rbtc ltc tltc eth goeth sepeth : CoinCode
  other : Text → CoinCode

unfoldable pub same_coin : CoinCode → CoinCode → Bool
unfolding same_bytes
same_coin btc btc = true
same_coin tbtc tbtc = true
same_coin rbtc rbtc = true
same_coin ltc ltc = true
same_coin tltc tltc = true
same_coin eth eth = true
same_coin goeth goeth = true
same_coin sepeth sepeth = true
same_coin (other a) (other b) = same_bytes a b
same_coin a b = false

unfoldable pub code_text : CoinCode → Text
code_text btc = text "btc"
code_text tbtc = text "tbtc"
code_text rbtc = text "rbtc"
code_text ltc = text "ltc"
code_text tltc = text "tltc"
code_text eth = text "eth"
code_text goeth = text "goeth"
code_text sepeth = text "sepeth"
code_text (other s) = s
