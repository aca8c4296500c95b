-- ===== src/Lib.antt =====
-- Minigraf is an embedded bi-temporal graph database: facts of an entity, an attribute and a
-- value are asserted and retracted in transactions, kept in a log with four covering indexes,
-- checkpointed to a file of pages, and queried with Datalog rules. This library models the parts
-- below; the types and functions keep the names of the source, in snake case.
--
-- - Prelude: lists, maps, comparisons and 64-bit integers over the native numbers. Hash maps and
--   sets are association lists with one entry for each key (Prelude/Map); a BTreeMap is the list
--   of its entries in key order (Prelude/OrderedMap).
-- - Error (src/error.rs): the error codes, the registry that gives each its text and category,
--   the filling of a message template, and the public error that an internal chain of errors
--   becomes (Error/Report). A failure in the models is a code without its message, or a foreign
--   error.
-- - Bytes: little- and big-endian words, as the standard library converts them.
-- - Storage (src/storage/mod.rs, src/storage/cache.rs, src/storage/backend/memory.rs,
--   src/storage/packed_pages.rs): the file header with its seven formats (Storage/Header), the
--   backend interface with the in-memory backend (Storage/Backend), the page cache
--   (Storage/Cache), and the packed pages of facts, whose serialiser is an argument
--   (Storage/Packed). A backend is a record of operations on a state, and IsBackend is what the
--   cache relies on.
-- - Graph (src/graph/types.rs, src/graph/storage.rs, src/storage/index.rs): values and their
--   order (Graph/Value), their canonical encoding (Graph/Value/Encode), facts (Graph/Fact), the
--   current view of a list of facts (Graph/Net), the in-memory indexes (Graph/Index), and the
--   fact store with its writers and its reads (Graph/Store, Graph/Store/Query). A store is a
--   record that the operations take and return; the clock is an argument. The readers of
--   committed pages are records of operations.
-- - Wal (src/wal.rs): the write-ahead log. Its header and entries (Wal/Format), the scan
--   (Wal/Scan), the writer and the reader (Wal/Writer) work on the bytes of the file; what
--   becomes of a write is an argument.
-- - Rules (src/query/datalog): the syntax of clauses and rules (Rules/Syntax), the dependency
--   graph with its reachability search (Rules/Dependencies), stratification (Rules/Stratify) and
--   the rule registry, which rolls a refused rule back (Rules/Registry).
-- - Query (src/query/datalog): the pattern matcher (Query/Matcher), its joins
--   (Query/Matcher/Join) and index hints (Query/Matcher/Hints), the optimizer (Query/Optimizer,
--   Query/Optimizer/Plan), which orders the clauses of a body, expressions with the clauses that
--   filter rows by them (Query/Eval, Query/Eval/Clauses), the aggregate functions with their
--   registry (Query/Aggregate), and what becomes of the rows of a query, that is aggregation,
--   window functions and projection (Query/Results).
--
-- The parts interact as in the source: the store encodes values for its duplicate keys and
-- indexes; the registry builds the graph of all rules and stratifies it at each registration; the
-- cache reads through a backend; the matcher runs on the facts of a store, in the order and with
-- the hints that the optimizer chose, and the clauses on expressions filter the rows that it
-- answers, from which aggregation and window functions make the results with the functions of the
-- registry.
--
-- Strings are their UTF-8 bytes, a UUID is its 128-bit number, a float is its bit pattern.
-- Counters wrap or saturate at 64 bits where the source does, slots stop at 32 bits. A panic is
-- the missing answer of an Option, or an answer of its own in the evaluation of expressions; a
-- sort by an order that is not total on its keys, where sort_by may panic, has no answer either.
-- The arithmetic of floats is an argument. Each call of the store and of the cache takes its lock
-- once, or, for a load through the cache, twice, so a call is one step or two; poisoned locks are
-- not modelled.
--
-- Three loops run on fuel. The scan of a log has one unit more than there are bytes: each round
-- reads some. The search for a path has one unit more than there are edges: each round takes a
-- predicate off the stack, and each goes on it once. Stratification has one round more than the
-- square of the number of predicates: a round that changes something raises the sum of the
-- strata.
--
-- Not modelled: the parser, the evaluation of rules and the execution of commands and of the
-- clauses of a query, magic sets, the B+trees, checkpoints and the database handle; file and
-- browser input and output, the shell, and time stamps, which rest on other crates.
pub mod Prelude
pub mod Error
pub mod Bytes
pub mod Graph
pub mod Storage
pub mod Wal
pub mod Rules
pub mod Query
