-- ===== src/AccountsConfig/Creation/Paths.antt =====
-- The paths of new accounts have the account's number.
use bitbox_wallet_app.Prelude.{
  ℕ, ◌+◌, ◌%◌, ◌^◌, ◌<◌, ◌≡◌, ap, ◌∙◌, Bool, true, false, [], ◌∷◌, All, arith,
}
use bitbox_wallet_app.Prelude.Run.{ok}
use bitbox_wallet_app.Signing.Keypath.{
  KeyNode, Keypath, node_to_uint32, to_uint32, new_absolute_keypath, encode_node, encode_absolute,
  encode,
}
use bitbox_wallet_app.Signing.Text.{join}
use bitbox_wallet_app.Signing.Decimal.{digits, format}
use bitbox_wallet_app.Signing.Keypath.Numbers.{to_uint32-from_uint32}
use bitbox_wallet_app.Signing.Keypath.RoundTrip.{keypath-encode}
use bitbox_wallet_app.Signing.Configuration.{bitcoin_account, ethereum_account}
use bitbox_wallet_app.Coins.{text}
use bitbox_wallet_app.AccountsConfig.Creation.{
  ScriptTypeWithKeypath, hardened, bip44_keypath, with_keypath, btc_keypaths, ltc_keypaths,
  eth_keypath_text,
}

-- The number that the code reads from the path of a Bitcoin configuration.
abbrev pub HasNumber : ℕ → ScriptTypeWithKeypath → Type 0
HasNumber n c = bitcoin_account (to_uint32 c.keypath) ≡ ok n

third : (a b n : ℕ) → n < 2 ^ 16 → bitcoin_account (a ∷ b ∷ hardened n ∷ []) ≡ ok n
unfolding bitcoin_account
third a b n h = ground arith

fifth :
    (a b c d n : ℕ) → n < 2 ^ 16 → ethereum_account (a ∷ b ∷ c ∷ d ∷ (0 + n) % 2 ^ 32 ∷ []) ≡ ok n
unfolding ethereum_account
fifth a b c d n h = ground arith

pub bip44_keypath-number :
    (purpose coin n : ℕ)
    → n < 2 ^ 16
    → bitcoin_account (to_uint32 (bip44_keypath purpose coin n)) ≡ ok n
unfolding bip44_keypath
bip44_keypath-number purpose coin n h =
    let numbers = hardened purpose ∷ hardened coin ∷ hardened n ∷ [] in
    let same = (to_uint32-from_uint32 numbers (omega arith, (omega arith, (omega arith, _)))).0 in
    ap bitcoin_account same ∙ third (hardened purpose) (hardened coin) n h

pub btc_keypaths-HasNumber : (coin n : ℕ) → n < 2 ^ 16 → All (HasNumber n) (btc_keypaths coin n)
unfolding btc_keypaths with_keypath
btc_keypaths-HasNumber coin n h = (
  bip44_keypath-number 84 coin n h,
  (
    bip44_keypath-number 86 coin n h,
    (bip44_keypath-number 49 coin n h, (bip44_keypath-number 44 coin n h, _)),
  ),
)

pub ltc_keypaths-HasNumber : (coin n : ℕ) → n < 2 ^ 16 → All (HasNumber n) (ltc_keypaths coin n)
unfolding ltc_keypaths with_keypath
ltc_keypaths-HasNumber coin n h =
    (bip44_keypath-number 84 coin n h, (bip44_keypath-number 49 coin n h, _))

abbrev node : ℕ → Bool → KeyNode
node n h = record { index = n; hardened = h }

abbrev pub eth_path : ℕ → ℕ → Keypath
eth_path coin n = node 44 true ∷ node coin true ∷ node 0 true ∷ node 0 false ∷ node n false ∷ []

pub eth_path-number :
    (coin n : ℕ) → n < 2 ^ 16 → ethereum_account (to_uint32 (eth_path coin n)) ≡ ok n
unfolding to_uint32 node_to_uint32
eth_path-number coin n h = fifth _ _ _ _ n h

pub mainnet_path :
    (n : ℕ)
    → n < 2 ^ 16
    → new_absolute_keypath (eth_keypath_text (text "60'") n) ≡ ok (eth_path 60 n)
unfolding eth_keypath_text encode_absolute encode encode_node join format digits
mainnet_path n h =
    (keypath-encode (eth_path 60 n)
      (omega arith, (omega arith, (omega arith, (omega arith, (omega arith, _)))))).0

pub testnet_path :
    (n : ℕ) → n < 2 ^ 16 → new_absolute_keypath (eth_keypath_text (text "1'") n) ≡ ok (eth_path 1 n)
unfolding eth_keypath_text encode_absolute encode encode_node join format digits
testnet_path n h =
    (keypath-encode (eth_path 1 n)
      (omega arith, (omega arith, (omega arith, (omega arith, (omega arith, _)))))).0
