-- ===== src/Rules.antt =====
-- src/query/datalog: rules, their dependency graph and its stratification.
pub mod Syntax
pub mod Dependencies
pub mod Stratify
pub mod Registry
mod Tests
