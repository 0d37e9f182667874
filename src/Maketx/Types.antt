-- ===== src/Maketx/Types.antt =====
-- backend/coins/btc/maketx/maketx.go: the data that the transaction builder reads and returns.
-- A hash, a script and an address are opaque to it; a hash is a number and a script its bytes.
use bitbox_wallet_app.Prelude.{ℕ, List, Option}
use bitbox_wallet_app.Prelude.Int64.{Int64}

-- signing.ScriptType is a string; `unknown` stands for every value but the four constants.
pub data ScriptType : Type 0 where
  p2pkh p2wpkh_p2sh p2wpkh p2tr unknown : ScriptType

pub record OutPoint : Type 0 where
  pub hash : ℕ
  pub index : ℕ

pub record TxOut : Type 0 where
  pub value : Int64
  pub pk_script : List ℕ

-- Of the signing configuration the builder reads the script type only.
pub record Utxo : Type 0 where
  pub tx_out : TxOut
  pub configuration : ScriptType

-- An entry of the map `outputs`, which is the list of its entries in the order of the iteration.
pub record Coin : Type 0 where
  pub out_point : OutPoint
  pub utxo : Utxo

pub record TxIn : Type 0 where
  pub previous_out_point : OutPoint
  pub sequence : ℕ

pub record AccountAddress : Type 0 where
  pub pubkey_script : List ℕ
  pub configuration : ScriptType

pub record MsgTx : Type 0 where
  pub version : ℕ
  pub tx_in : List TxIn
  pub tx_out : List TxOut
  pub lock_time : ℕ

pub data CoinCode : Type 0 where
  btc tbtc rbtc ltc tltc : CoinCode

pub record PreviousOutput : Type 0 where
  pub out_point : OutPoint
  pub tx_out : TxOut

pub record TxProposal : Type 0 where
  pub coin : CoinCode
  pub amount : Int64
  pub fee : Int64
  pub transaction : MsgTx
  pub change_address : Option AccountAddress
  pub previous_outputs : List PreviousOutput

pub data Error : Type 0 where
  insufficient_funds : Error
