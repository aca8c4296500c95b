-- ===== src/Query.antt =====
-- src/query/datalog: the evaluation of queries.
pub mod Matcher
pub mod Optimizer
pub mod Eval
pub mod Aggregate
pub mod Results
