-- ===== src/Contract.antt =====
-- Where the browser and the server have to agree.
pub mod Topup
mod Examples
