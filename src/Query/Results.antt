-- ===== src/Query/Results.antt =====
-- What becomes of the bindings of a query: aggregation, window functions and projection
-- (src/query/datalog/executor.rs).
pub mod Specs
pub mod Groups
pub mod Aggregation
pub mod SortBy
pub mod Windows
pub mod Pipeline
pub mod Written
pub mod Covered
pub mod Annotated
pub mod Sortable
pub mod Columns
pub mod Total
pub mod Answered
pub mod Running
pub mod KeyOrder
pub mod Partition
pub mod KeyValues
pub mod AggregateOf
pub mod GroupRow
pub mod GroupRows
mod Tests
