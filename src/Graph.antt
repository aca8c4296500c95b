-- ===== src/Graph.antt =====
-- src/graph: values, facts and the fact store.
pub mod Float
pub mod Value
pub mod Fact
pub mod Net
pub mod Index
pub mod Store
