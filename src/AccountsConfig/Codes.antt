-- ===== src/AccountsConfig/Codes.antt =====
-- backend/accountcodes.go: the codes of accounts.
use bitbox_wallet_app.Prelude.{ℕ, ◌+◌, ◌-◌, ◌/◌, ◌%◌, List, [], ◌∷◌, ◌++◌, ltb, if◌then◌else◌}
use bitbox_wallet_app.Coins.{Text, text, CoinCode, code_text}
use bitbox_wallet_app.Maketx.Types.{ScriptType, p2pkh, p2wpkh_p2sh, p2wpkh, p2tr, unknown}
use bitbox_wallet_app.Signing.Text.{join}
use bitbox_wallet_app.Signing.Decimal.{format}
pub mod Words
pub mod Injective

unfoldable pub hex_digit : ℕ → ℕ
hex_digit d = if ltb d 10 then b'0' + d else b'a' + (d - 10)

-- The verb %x of bytes.
unfoldable pub hex : List ℕ → Text
unfolding hex_digit
hex [] = []
hex (b ∷ bs) = hex_digit (b / 16) ∷ hex_digit (b % 16) ∷ hex bs

-- "v0-%x-%s-%d".
unfoldable pub regular_account_code : List ℕ → CoinCode → ℕ → Text
unfolding hex
regular_account_code fingerprint coin number =
    join b'-' (text "v0" ∷ hex fingerprint ∷ code_text coin ∷ format number ∷ [])

-- The text of a script type; the code has only the four.
unfoldable pub script_type_text : ScriptType → Text
script_type_text p2pkh = text "p2pkh"
script_type_text p2wpkh_p2sh = text "p2wpkh-p2sh"
script_type_text p2wpkh = text "p2wpkh"
script_type_text p2tr = text "p2tr"
script_type_text unknown = []

unfoldable pub split_account_code : Text → ScriptType → Text
unfolding script_type_text
split_account_code parent_code t = parent_code ++ b'-' ∷ script_type_text t

unfoldable pub erc20_account_code : Text → Text → Text
erc20_account_code ethereum_account_code token_code = ethereum_account_code ++ b'-' ∷ token_code
