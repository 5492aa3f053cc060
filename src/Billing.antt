-- ===== src/Billing.antt =====
-- src/billing: entitlements of a customer, variants of an experiment. Instants are numbers.
pub mod Entitlements
pub mod Experiments
