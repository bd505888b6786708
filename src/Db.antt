-- ===== src/Db.antt =====
-- The database of the operator (src/db.py): its tables, and the statements that the code sends.
pub mod Rows
pub mod Calls
pub mod Invariant
pub mod Resources
pub mod Finalizers
pub mod Conditions
pub mod Queue
pub mod Locks
pub mod Nodes
pub mod Webhooks
pub mod Roles
pub mod Users
pub mod ResourceTypes
mod Examples
