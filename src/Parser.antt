-- ===== src/Parser.antt =====
-- jiexi/src/Parser.{h,cc}: tparser, which consumes the rows of 0_txlogs2 and keeps the key-value
-- database of transactions and addresses. The records of one address are in `Address`, its chain of
-- transactions in `AddressTxs`.
pub mod Address
pub mod AddressTxs
pub mod Unspents
pub mod Kvdb
pub mod Balance
pub mod Txs
pub mod Blocks
pub mod Handle
