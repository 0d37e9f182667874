-- ===== src/Transactions/Db.antt =====
-- backend/coins/btc/db/transactionsdb/transactionsdb.go: the buckets of a transaction database.
-- A bucket is an association list; what JSON writes it reads again. Errors of the database are not
-- modelled. A script hash is a number.
use bitbox_wallet_app.Prelude.{
  ℕ, Bool, true, false, List, [], ◌∷◌, Option, none, some, map, ◌==◌, ◌&&◌, if◌then◌else◌,
}
use bitbox_wallet_app.Prelude.Assoc.{find, put, delete}
use bitbox_wallet_app.Prelude.Int64.{Int64}
use bitbox_wallet_app.Maketx.Types.{OutPoint, TxOut, MsgTx}

-- An entry of an address history; the height is -1 or 0 while unconfirmed.
pub record TxInfo : Type 0 where
  pub tx_hash : ℕ
  pub height : Int64

-- `verified` is nil or true; `addresses` is the set of its keys.
pub record DbTxInfo : Type 0 where
  pub tx : Option MsgTx
  pub height : Int64
  pub addresses : List ℕ
  pub verified : Bool
  pub header_timestamp : Option ℕ
  pub created_timestamp : Option ℕ

pub record Db : Type 0 where
  pub transactions : List (ℕ × DbTxInfo)
  pub unverified : List (ℕ × Unit {0})
  pub inputs : List (OutPoint × ℕ)
  pub outputs : List (OutPoint × TxOut)
  pub histories : List (ℕ × List TxInfo)

abbrev pub empty_db : Db
empty_db = record { transactions = []; unverified = []; inputs = []; outputs = []; histories = [] }

unfoldable pub same_out_point : OutPoint → OutPoint → Bool
same_out_point a b = a.hash == b.hash && a.index == b.index

abbrev pub same_hash : ℕ → ℕ → Bool
same_hash a b = a == b

unfoldable pub new_wallet_transaction : DbTxInfo
new_wallet_transaction = record {
  tx = none;
  height = 0;
  addresses = [];
  verified = false;
  header_timestamp = none;
  created_timestamp = none;
}

unfoldable pub read_tx : Option DbTxInfo → DbTxInfo
unfolding new_wallet_transaction
read_tx none = new_wallet_transaction
read_tx (some info) = info

-- TxInfo: an entry without a transaction where there is none.
unfoldable pub tx_info : ℕ → Db → DbTxInfo
tx_info tx_hash db = read_tx (find same_hash tx_hash db.transactions)

-- The entry that modifyTx changes: it is created now if it is missing.
unfoldable pub read_or_create : ℕ → Option DbTxInfo → DbTxInfo
unfolding new_wallet_transaction
read_or_create now none = record new_wallet_transaction { created_timestamp = some now }
read_or_create now (some info) = info

unfoldable pub modify_tx : ℕ → ℕ → (DbTxInfo → DbTxInfo) → Db → Db
modify_tx now key f db = record db {
  transactions =
      put same_hash key (f (read_or_create now (find same_hash key db.transactions)))
        db.transactions;
}

unfoldable pub put_tx : ℕ → ℕ → MsgTx → Int64 → Db → Db
put_tx now tx_hash msg_tx height db =
    let before = read_or_create now (find same_hash tx_hash db.transactions) in
    let db' =
      modify_tx now tx_hash (λ info. record info { tx = some msg_tx; height = height }) db in
    if before.verified
    then db'
    else record db' { unverified = put same_hash tx_hash tt db'.unverified }

unfoldable pub delete_tx : ℕ → Db → Db
delete_tx tx_hash db = record db { transactions = delete same_hash tx_hash db.transactions }

unfoldable pub remove : ℕ → List ℕ → List ℕ
remove a [] = []
remove a (b ∷ bs) = let rest = remove a bs in if a == b then rest else b ∷ rest

abbrev pub add_address : ℕ → DbTxInfo → DbTxInfo
add_address script_hash info = record info {
  addresses = script_hash ∷ remove script_hash info.addresses;
}

unfoldable pub add_address_to_tx : ℕ → ℕ → ℕ → Db → Db
add_address_to_tx now tx_hash script_hash = modify_tx now tx_hash (add_address script_hash)

abbrev pub set_addresses : List ℕ → DbTxInfo → DbTxInfo
set_addresses left info = record info { addresses = left }

unfoldable pub is_empty : List ℕ → Bool
is_empty [] = true
is_empty (a ∷ as') = false

-- Whether no address is left.
unfoldable pub remove_address_from_tx : ℕ → ℕ → ℕ → Db → Db × Bool
unfolding remove is_empty
remove_address_from_tx now tx_hash script_hash db =
    let before = read_or_create now (find same_hash tx_hash db.transactions) in
    let left = remove script_hash before.addresses in
    (modify_tx now tx_hash (set_addresses left) db, is_empty left)

unfoldable pub transaction_hashes : Db → List ℕ
transaction_hashes db = map (λ e. e.0) db.transactions

unfoldable pub unverified_transactions : Db → List ℕ
unverified_transactions db = map (λ e. e.0) db.unverified

unfoldable pub mark_tx_verified : ℕ → ℕ → ℕ → Db → Db
mark_tx_verified now tx_hash header_timestamp db =
    modify_tx now tx_hash
      (λ info. record info { verified = true; header_timestamp = some header_timestamp })
      (record db { unverified = delete same_hash tx_hash db.unverified })

unfoldable pub put_input : OutPoint → ℕ → Db → Db
put_input out_point tx_hash db = record db {
  inputs = put same_out_point out_point tx_hash db.inputs;
}

unfoldable pub input : OutPoint → Db → Option ℕ
input out_point db = find same_out_point out_point db.inputs

unfoldable pub delete_input : OutPoint → Db → Db
delete_input out_point db = record db { inputs = delete same_out_point out_point db.inputs }

unfoldable pub put_output : OutPoint → TxOut → Db → Db
put_output out_point tx_out db = record db {
  outputs = put same_out_point out_point tx_out db.outputs;
}

unfoldable pub output : OutPoint → Db → Option TxOut
output out_point db = find same_out_point out_point db.outputs

unfoldable pub delete_output : OutPoint → Db → Db
delete_output out_point db = record db { outputs = delete same_out_point out_point db.outputs }

unfoldable pub put_address_history : ℕ → List TxInfo → Db → Db
put_address_history script_hash history db = record db {
  histories = put same_hash script_hash history db.histories;
}

unfoldable pub read_history : Option (List TxInfo) → List TxInfo
read_history none = []
read_history (some history) = history

unfoldable pub address_history : ℕ → Db → List TxInfo
unfolding read_history
address_history script_hash db = read_history (find same_hash script_hash db.histories)
