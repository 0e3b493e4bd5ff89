-- ===== src/Server.antt =====
-- The server side of the program, app/ in Python: tiers, the ledger, deduplication and settlement.
pub mod Vip
pub mod Dedup
pub mod Sync
pub mod Settlement
pub mod Store
pub mod Results
pub mod Sql
pub mod Ledger
pub mod Transfer
pub mod Balances
pub mod Operations
pub mod Pool
pub mod Edit
pub mod Attribution
pub mod Link
pub mod Auth
pub mod Accounts
pub mod Purge
pub mod Pay
pub mod Routes
pub mod History
pub mod Match
pub mod Text
pub mod Actions
pub mod Parse
pub mod Cycle
pub mod Report
pub mod Ties
