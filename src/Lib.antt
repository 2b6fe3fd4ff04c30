-- ===== src/Lib.antt =====
-- The log pipeline of the explorer: how transactions and blocks travel from bitcoind to the table
-- 0_txlogs2, which the parser of the explorer consumes.
--
-- A patched bitcoind writes log0, files of lines that say: accepted a transaction, removed one, new
-- block, clear the pool. log1producer copies log0 to log1, checks that its blocks form a chain, and
-- fills gaps by asking bitcoind. log2producer reads log1, keeps the memory pool of unconfirmed
-- transactions, and appends to 0_txlogs2 the changes of state of each transaction, in batches that
-- MySQL commits whole. All paths below are under jiexi/src.
--
-- Prelude: lists, options, signed integers, and the results of C++ functions that may throw, fail an
-- assertion, or, in the model, run out of fuel.
-- OrdMap: std::map and std::set, as association lists in the order of the keys.
-- Transaction: transactions and blocks by the values that the code reads of them, and TxOutputKey.
-- MemTxRepository: the class of Log2Producer.cc with its two maps and two sets; `Invariant` has the
-- well-formedness, `Ends` the recursion of getSpentEndTx, `Removal` that of removeTxAndChildTx,
-- `Unsynced` the changes that wait for the database.
-- BlockTimestamp: the class of Log2Producer.cc.
-- TxLogs2: the rows of 0_txlogs2 and the transitions of a transaction that Log2Producer.h documents.
-- Chain: the class of Log1Producer.cc.
-- Log1: a line of a log, Log1::parse, the getters, and split of Util.cc.
-- NotifyLog: NotifyItem of NotifyLog.cc, a notification as a line of text, and in `Subscriptions` the
-- insertAddress and removeAddress of Notify, without the making of a table for an application's events.
-- LogFile: tryReadLog0 and tryReadLog1.
-- Log1Producer: writeLog1, one round of run, initLog1, syncBitcoind and init.
-- Log2Producer: the handlers, with those of blocks in `Blocks` and `Tables` for the SQL statements;
-- `Run` has initLog2, syncLog1 and one round of run; `Rollback` has the lemmas on handleBlockRollback.
-- Parser: Parser.cc, which consumes 0_txlogs2. `Address` has the records of one address, `AddressTxs`
-- the chain of its transactions and `Unspents` its unspent outputs; `Kvdb` has the whole store (KVDB.cc),
-- `Balance` getTxAddressBalance, `Txs` acceptTx, confirmTx, unconfirmTx and rejectTx, `Blocks`
-- acceptBlock and rejectBlock, and `Handle` threadHandleTxlogs and threadProduceTxlogs.
-- Tests: the theorems at concrete inputs.
--
-- A sound producer (Log2Producer.Commit) is one whose memory pool is well-formed and equal to
-- 0_memrepo_txs, with nothing waiting to be deleted, whose log has only committed rows, each a
-- transition that the header allows, and whose log leaves unconfirmed exactly what the pool holds. A
-- transaction is spendable if it is no coinbase, names no output twice, and stands after those that it
-- spends in some order of the hashes, which is a parameter: no transaction can spend itself through
-- others, since its hash covers the hashes of its inputs.
--
-- The chain of an address (Parser.AddressTxs) is well-formed when its two indexes lead to each other, its
-- confirmed transactions come first, and its counters are the sums over its entries. A database agrees
-- with a log (Parser.Txs.World) when each address holds the transactions that touch it and that the log
-- has not left absent, with the confirmed ones in the order in which they were confirmed, each such
-- transaction has its object, and key 03_ lists the unconfirmed ones. Which addresses a transaction
-- touches is a parameter, with which its balances are to agree.
--
-- Heights are signed integers and other numbers natural numbers; 32-bit heights and indexes and 64-bit
-- offsets do not overflow in any chain there is. The loops that move a node of
-- an address end in the second round. The loops over the pool run on fuel: its size and one
-- is enough for each, since a round removes a transaction. So is the size of the chain and one for
-- going back in syncBitcoind; following bitcoind takes one round for each height up to the target.
--
-- Parameters: the C library's atoi and %d, the text of hashes and the encodings of transactions and
-- blocks (Log1.Codec, with their promises in Log1.RoundTrip.IsCodec), dates and long numbers as text
-- (NotifyLog.NotifyCodec and NotifyLog.RoundTrip.IsNotifyCodec), and bitcoind's answers; how
-- CBitcoinAddress reads and prints an address; for the parser the destinations of an output,
-- GetBlockValue, the decoded blocks, and the text that `%s` makes of a uint256 in one key. An
-- access to a missing map entry or vector element, where the code would insert or read out of bounds,
-- stops the model.
--
-- Not modelled: the inotify threads, locks, signals and waiting; the readers of the notification
-- log, the HTTP service and the range scans of the key-value store; scripts and the text of FlatBuffers;
-- the caches of the parser, which hold what is stored; MySQL beyond the statements sent, and RocksDB,
-- whose errors throw; the recognition of a block's pool, which writes only the keys 15_.
pub mod Prelude
pub mod OrdMap
pub mod Transaction
pub mod MemTxRepository
pub mod TxLogs2
pub mod BlockTimestamp
pub mod Chain
pub mod Log1
pub mod LogFile
pub mod NotifyLog
pub mod Log1Producer
pub mod Log2Producer
pub mod Parser
mod Tests
