-- ===== src/Abac.antt =====
-- src/security/abac.rs: access rules by attributes. The children are the data, the conditions, the match
-- of a policy, the decision, and the policies as they are read from their table.
pub mod Types
pub mod Cidr
pub mod Conditions
pub mod Matching
pub mod Decision
pub mod Rows
pub mod Verdicts
pub mod Stored
mod Tests
