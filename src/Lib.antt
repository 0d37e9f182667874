-- ===== src/Lib.antt =====
-- The wallet core of the BitBox app: models of its Go code, and theorems about them.
--
-- The app watches accounts over an Electrum server, keeps their transactions and the chain of block
-- headers on disk, and builds transactions that a hardware wallet signs. The parts that are
-- modelled, with the paths of their code:
--
--   Prelude   names and lemmas that the other files share. Prelude/Int64 is Go's int64 as a number
--             below 2 ^ 64 in two's complement; Prelude/Run is the outcome of code that may return,
--             fail with an error value, panic, or run out of the model's fuel.
--   Maketx    backend/coins/btc/maketx. Selection is coinSelection and its order, Size is txsize.go,
--             Fee is author.go, Propose is NewTx and NewTxSpendAll. The builder gets the unspent
--             outputs of an account, a map, as the list of its entries.
--   Headers   backend/coins/btc/headers and backend/coins/btc/db/headersdb. Db is the file of
--             headers, Net the networks and checkpoints, Target is getTarget, Connect is canConnect
--             and powHash, Sync is the rest of Headers: batches, reorganisations and events.
--   Transactions  backend/coins/btc/transactions and backend/coins/btc/db/transactionsdb. Db is the
--             database's buckets, Index is UpdateAddressHistory and what it calls, Queries is Balance
--             and SpendableOutputs, whose result is what the builder of Maketx spends, Details is
--             txInfo, what is shown of a transaction, Verification is verification.go, which checks a
--             transaction's path to the merkle root of a header of Headers, GapLimits is the gap
--             limits of the database.
--   Addresses  backend/coins/btc/addresses/addresschain.go, the chain of addresses and its gap limit.
--   Signing   backend/signing. Text and Decimal are what keypath.go uses of strings, strconv and fmt;
--             Keypath is keypath.go, Configuration is configuration.go.
--   Aopp      backend/aopp.go, the requests for proofs of address ownership: Types has the state and
--             what the code reads of accounts and keystores. Its accounts' signing configurations are
--             those of Signing.
--   Accounts  backend/accounts/transaction.go, the ordered transactions with their running balance and
--             the balance over time. TxType and TxStatus are those of Transactions/Details.
--   Coins     backend/coins/coin/codes.go, the codes of the coins.
--   AccountsConfig  backend/config/accounts.go and, of backend/accounts.go, what changes the persisted
--             accounts and numbers new ones, by the account numbers of Signing/Configuration. Codes
--             is backend/accountcodes.go. Of backend/accounts.go, Creation is
--             createAndPersistAccountConfig and what it calls, Discovery is adding, suggesting,
--             scanning and marking accounts, Taproot is maybeAddP2TR, and Loading is filterAccounts,
--             initPersistedAccounts and SupportedCoins. A call gives its result and the
--             configuration, since the changes before an error stay in memory.
--   Notes     backend/accounts/notes/notes.go, the notes of transactions and their file.
--   BaseAccount  backend/accounts/baseaccount.go: the events that follow the callbacks of
--             Synchronizer, the notes, and the lines of the CSV export.
--   Synchronizer  backend/coins/btc/synchronizer/synchronizer.go, the counter of outstanding tasks.
--
-- Each component's Tests run the code on small data and apply the theorems to it.
--
-- A hash, a script and a key are numbers or lists of bytes. Code of other packages is a parameter:
-- wire's sizes, chainhash, scrypt, math/big's compact form of a target, hdkeychain's derivation, and
-- the shuffle of a transaction and the sort of an account's transactions, which the theorems assume
-- to permute, and the sort to leave the list in order where the order matters. JSON's encoding of
-- the notes is a parameter too, assumed to give back what is valid UTF-8. A height of the code that is -1 before the first header is one more in the model of
-- the headers.
--
-- Fuel: the loop of NewTx takes the number of coins and two, since each further round selects one
-- coin more; the loop that fixes the headers file takes the number of slots and one; fmt's digits
-- take ten, enough for a uint32; a binary search takes the length and one, and a time series the
-- nanoseconds from start to end and one, since an interval is at least one.
--
-- Not modelled: the network, USB and HTTP layers, JSON and the databases' files, the device
-- protocols, Ethereum, exchange rates, and the frontends. Locks and channels serialise the calls
-- that are modelled; a call is one step on the state.
pub mod Prelude
pub mod Maketx
pub mod Notes
pub mod BaseAccount
pub mod Coins
pub mod Headers
pub mod Synchronizer
pub mod Transactions
pub mod Accounts
pub mod AccountsConfig
pub mod Addresses
pub mod Signing
pub mod Aopp
