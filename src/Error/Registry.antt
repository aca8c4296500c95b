-- ===== src/Error/Registry.antt =====
-- `REGISTRY` of src/error.rs: the code, its text, the message template and the category.
use minigraf.Prelude.{List, [], ◌∷◌, String}
use minigraf.Error.{ErrorCode, ErrorCategory, parser, query, storage, wal, api, internal}
use minigraf.Error.{
  prs001, prs002, prs003, prs004, prs005, prs006, prs007, prs008, prs009, prs010, prs011, prs012,
  prs013, prs014, prs015, prs016, prs017, prs018, prs019, prs020, prs021, prs022, prs023, prs024,
  prs025, prs026, prs027, prs028, prs029, prs030, prs031, prs032, prs033, prs034, prs035, prs036,
  prs037, prs038, prs039, prs040, prs041, prs042, prs043, prs044, prs045, prs046, prs047, prs048,
  prs049, prs050, prs051, prs052, prs053, prs054, prs055, prs056, prs057, prs058, prs059, prs060,
  prs061, prs062, prs063, prs064, prs065, prs066, prs067, prs068, prs069, prs070, prs071, prs072,
  prs073, prs074, prs075, prs076, prs077, prs078, prs079, prs108, qry001, qry002, qry003, qry004,
  qry005, qry006, qry007, qry008, qry009, int000, stg001, stg002, stg003, stg004, stg005, stg006,
  stg007, stg008, stg009, stg010, stg011, stg012, stg013, stg014, stg015, stg016, stg017, stg018,
  stg019, stg020, stg021, stg022, stg023, stg024, stg025, stg026, stg027, stg045, wal001, wal002,
  wal003, wal004, wal005, wal006, wal007, api001, api002, api003, api004, api005, api006, api007,
  api008, api009, api010, int001, int002, int003, int004, int005, int006, int007, int008, int009,
  int010, int011, int012, int013, int014, int015, int016, int017, int018, int019, int020, int021,
  int022, int023, int024, int025, int026, int027, int028, int029, int030, int031, int032, int033,
  int034, int035, int036, int037, int038, int039, int040, int041, int042, int043, int044, int045,
  int046, int047, int048, int049, int050, int051, int052, int053, int054, int055,
}

-- A row of the registry.
pub record Row : Type 0 where
  pub code : ErrorCode
  pub text : String
  pub template : String
  pub category : ErrorCategory

abbrev row : ErrorCode → String → String → ErrorCategory → Row
row c t m k = record { code = c; text = t; template = m; category = k }

-- `REGISTRY`
abbrev pub registry : List Row
registry =
    row prs001 "PRS-001" "Unexpected end of input" parser
    ∷ row prs002 "PRS-002" "Unexpected character: {}" parser
    ∷ row prs003 "PRS-003" "Unexpected token: {}" parser
    ∷ row prs004 "PRS-004" "Unclosed vector" parser
    ∷ row prs005 "PRS-005" "Unclosed list" parser
    ∷ row prs006 "PRS-006" "Unterminated map: missing '}'" parser
    ∷ row prs007 "PRS-007" "String exceeds maximum length of {} bytes" parser
    ∷ row prs008 "PRS-008" "Keyword exceeds maximum length of {} bytes" parser
    ∷ row prs009 "PRS-009" "Tagged literal exceeds maximum length of {} bytes" parser
    ∷ row prs010 "PRS-010" "Expected command symbol" parser
    ∷ row prs011 "PRS-011" "Unknown command: {}" parser
    ∷ row prs012 "PRS-012" "Expected a list starting with a command symbol" parser
    ∷ row prs013 "PRS-013" "Query requires a map argument" parser
    ∷ row prs014 "PRS-014" ":as-of requires a value" parser
    ∷ row prs015 "PRS-015" ":as-of counter must be non-negative, got {}" parser
    ∷ row prs016 "PRS-016" ":as-of must be an integer (counter) or ISO 8601 string, got {}" parser
    ∷ row prs017 "PRS-017" ":valid-at requires a value" parser
    ∷ row prs018 "PRS-018" ":valid-at must be an ISO 8601 string or :any-valid-time, got {}" parser
    ∷ row prs019 "PRS-019" ":valid-from must be an ISO 8601 string, got {}" parser
    ∷ row prs020 "PRS-020" ":valid-to must be an ISO 8601 string, got {}" parser
    ∷ row prs021 "PRS-021" "':with' clause requires at least one aggregate in :find" parser
    ∷ row prs022 "PRS-022" "':with' variable {} not bound in :where" parser
    ∷ row prs023 "PRS-023" "Aggregate variable {} not bound in :where" parser
    ∷ row prs024 "PRS-024" "Aggregate expression must have exactly 2 elements (func ?var), got {}"
        parser
    ∷ row prs025 "PRS-025" "Aggregate function name must be a symbol, got {}" parser
    ∷ row prs026 "PRS-026" "Aggregate argument must be a variable (starting with ?)" parser
    ∷ row prs027 "PRS-027" "'{}' is a window function and requires an ':over (...)' clause" parser
    ∷ row prs028 "PRS-028" "window expression cannot be empty" parser
    ∷ row prs029 "PRS-029" "window function name must be a symbol" parser
    ∷ row prs030 "PRS-030"
        "'{}' is not supported in this version; lag/lead are planned for a future release" parser
    ∷ row prs031 "PRS-031" "'{}' is not window-compatible and cannot be used with ':over'" parser
    ∷ row prs032 "PRS-032" "'{}' requires a variable argument (starting with ?) before ':over'"
        parser
    ∷ row prs033 "PRS-033" "'{}' requires ':over' after the variable argument" parser
    ∷ row prs034 "PRS-034"
        "'{}' requires ':over' immediately after the function name (no variable argument)" parser
    ∷ row prs035 "PRS-035" "':over' must be followed by a list, e.g., (:order-by ?var)" parser
    ∷ row prs036 "PRS-036" "unexpected tokens after ':over' clause in window expression" parser
    ∷ row prs037 "PRS-037" "':partition-by' requires a variable (starting with ?)" parser
    ∷ row prs038 "PRS-038" "':order-by' requires a variable (starting with ?)" parser
    ∷ row prs039 "PRS-039" "unknown option in ':over' clause: '{}'" parser
    ∷ row prs040 "PRS-040" "unexpected element in ':over' clause: {}" parser
    ∷ row prs041 "PRS-041" "Transact requires a vector of facts" parser
    ∷ row prs042 "PRS-042" "Transact argument must be a vector of facts" parser
    ∷ row prs043 "PRS-043" "Retract requires a vector of facts" parser
    ∷ row prs044 "PRS-044" "Retract argument must be a vector of facts" parser
    ∷ row prs045 "PRS-045" "Each fact must be a vector [e a v] or [e a v {opts}]" parser
    ∷ row prs046 "PRS-046" "Fact must have at least 3 elements (E A V), got {}" parser
    ∷ row prs047 "PRS-047"
        "Optional 4th element of a fact must be a map {:valid-from ... :valid-to ...}, got {}"
        parser
    ∷ row prs048 "PRS-048" "Transact with options requires a facts vector after the map" parser
    ∷ row prs049 "PRS-049" "unexpected end of fact vector" parser
    ∷ row prs050 "PRS-050" "Empty list in :where clause" parser
    ∷ row prs051 "PRS-051" "(not ...) cannot appear inside another (not ...)" parser
    ∷ row prs052 "PRS-052" "(not) requires at least one clause" parser
    ∷ row prs053 "PRS-053" "(or) requires at least one branch" parser
    ∷ row prs054 "PRS-054" "(or-join) requires a join-vars vector and at least one branch" parser
    ∷ row prs055 "PRS-055" "(or-join) first argument must be a vector of join variables" parser
    ∷ row prs056 "PRS-056" "(or-join) join variables must be logic variables, got {}" parser
    ∷ row prs057 "PRS-057" "all branches of (or ...) must introduce the same set of new variables"
        parser
    ∷ row prs058 "PRS-058" "(and) inside or/or-join requires at least one clause" parser
    ∷ row prs059 "PRS-059" "(not-join) requires a join-vars vector and at least one clause" parser
    ∷ row prs060 "PRS-060" "Expected pattern vector or rule invocation in :where clause, got {}"
        parser
    ∷ row prs061 "PRS-061" "Unexpected element in query: {}" parser
    ∷ row prs062 "PRS-062" "expression list cannot be empty" parser
    ∷ row prs063 "PRS-063" "expression head must be a symbol, got {}" parser
    ∷ row prs064 "PRS-064" "{} takes exactly 1 argument" parser
    ∷ row prs065 "PRS-065" "{} takes exactly 2 arguments" parser
    ∷ row prs066 "PRS-066" "matches? second argument must be a string literal" parser
    ∷ row prs067 "PRS-067" "unknown expression operator: {}" parser
    ∷ row prs068 "PRS-068" "expression clause must be [(expr)] or [(expr) ?out], got {} elements"
        parser
    ∷ row prs069 "PRS-069" "expression output must be a ?variable, got {}" parser
    ∷ row prs070 "PRS-070" "unsupported expression argument: {}" parser
    ∷ row prs071 "PRS-071" "Expected UUID string after #uuid tag" parser
    ∷ row prs072 "PRS-072" "Invalid UUID" parser
    ∷ row prs073 "PRS-073" "Unknown tagged literal: #{}" parser
    ∷ row prs074 "PRS-074" "Bind slot name exceeds maximum length of {} bytes" parser
    ∷ row prs075 "PRS-075"
        "transact takes (transact [facts]) or (transact {opts} [facts]); found {} unexpected trailing argument(s) — the valid-time options map must come BEFORE the facts vector, not after"
        parser
    ∷ row prs076 "PRS-076"
        "retract takes (retract [facts]); found {} unexpected trailing argument(s)" parser
    ∷ row prs077 "PRS-077" "unexpected trailing input after a complete form: {}" parser
    ∷ row prs078 "PRS-078" "query takes (query [...]); found {} unexpected trailing argument(s)"
        parser
    ∷ row prs079 "PRS-079" "rule takes (rule [...]); found {} unexpected trailing argument(s)"
        parser
    ∷ row prs108 "PRS-108" "Fact must have at most 4 elements (E A V and an optional map), got {}"
        parser
    ∷ row qry001 "QRY-001" "Invalid entity: {}" query
    ∷ row qry002 "QRY-002" "Attribute must be a keyword" query
    ∷ row qry003 "QRY-003" "Cannot transact a pseudo-attribute" query
    ∷ row qry004 "QRY-004" "Invalid value: {}" query
    ∷ row qry005 "QRY-005" "Transaction failed: {}" query
    ∷ row qry006 "QRY-006" "Retraction failed: {}" query
    ∷ row qry007 "QRY-007" "unknown predicate: '{}'" query
    ∷ row qry008 "QRY-008" "functions lock poisoned" query
    ∷ row qry009 "QRY-009" "rules lock poisoned" query
    ∷ row int000 "INT-000" "unclassified internal error: {}" internal
    ∷ row stg001 "STG-001" "Invalid header: too short (got {} bytes, need 64)" storage
    ∷ row stg002 "STG-002" "Invalid magic number: not a .graph file" storage
    ∷ row stg003 "STG-003" "Invalid v4/v5/v6 header: expected at least 72 bytes, got {}" storage
    ∷ row stg004 "STG-004" "Invalid v6 header: expected 80 bytes, got {}" storage
    ∷ row stg005 "STG-005" "Invalid v7 header: expected 84 bytes, got {}" storage
    ∷ row stg006 "STG-006" "Unsupported format version: {} (supported: 1-{})" storage
    ∷ row stg007 "STG-007" "page_count must be greater than 0" storage
    ∷ row stg008 "STG-008" "eavt_root_page ({}) must be less than page_count ({})" storage
    ∷ row stg009 "STG-009" "fact_page_count ({}) cannot exceed page_count ({})" storage
    ∷ row stg010 "STG-010" "Failed to read header from existing file: {}" storage
    ∷ row stg011 "STG-011" "internal page has no children" storage
    ∷ row stg012 "STG-012" "Expected index page at page {}" storage
    ∷ row stg013 "STG-013" "range_scan: expected leaf at page_id={}" storage
    ∷ row stg014 "STG-014" "Expected packed page (0x02), got 0x{}" storage
    ∷ row stg015 "STG-015" "Record at slot {} extends beyond page boundary" storage
    ∷ row stg016 "STG-016" "backend mutex poisoned" storage
    ∷ row stg017 "STG-017" "page count overflow computing index_start" storage
    ∷ row stg018 "STG-018" "page count overflow computing next_free" storage
    ∷ row stg019 "STG-019" "page count overflow computing new_fact_start" storage
    ∷ row stg020 "STG-020" "fact index {} exceeds u16::MAX" storage
    ∷ row stg021 "STG-021" "page id overflow in checksum computation" storage
    ∷ row stg022 "STG-022" "page id overflow writing fact pages" storage
    ∷ row stg023 "STG-023" "page index {} exceeds u64::MAX" storage
    ∷ row stg024 "STG-024" "pending fact count exceeds u64::MAX" storage
    ∷ row stg025 "STG-025"
        "Database is already open in this process ({}). A second handle on one file would give each its own page table and corrupt both — reuse the existing handle instead. `Minigraf` is cheap to clone and all clones share the same database."
        storage
    ∷ row stg026 "STG-026"
        "Database is locked by another process ({}). The lock is held on the file itself and is released automatically when the holding process exits, so there is no lock file to clean up."
        storage
    ∷ row stg027 "STG-027"
        "Failed to lock database at {}: {}. This filesystem does not support file locking (common on NFSv3 without lockd, and on some FUSE mounts). Set `allow_unlocked` in `OpenOptions` to open anyway — that accepts the risk that concurrent writers corrupt the file."
        storage
    ∷ row stg045 "STG-045"
        "File is {} bytes, shorter than one page, and is not a new Minigraf database" storage
    ∷ row wal001 "WAL-001" "Invalid WAL magic number: not a .wal file" wal
    ∷ row wal002 "WAL-002" "Unsupported WAL version: {} (expected {})" wal
    ∷ row wal003 "WAL-003"
        "Fact serialised size {} bytes exceeds maximum {} bytes. Store large payloads externally and reference them with a Value::String URL/path or Value::Ref entity ID."
        wal
    ∷ row wal004 "WAL-004" "fact serialised size {} exceeds u32 range" wal
    ∷ row wal005 "WAL-005" "WAL num_facts exceeds platform usize" wal
    ∷ row wal006 "WAL-006" "failed to delete WAL file {}: {}" wal
    ∷ row wal007 "WAL-007"
        "an earlier write to the WAL failed on this handle; reopen the database or call checkpoint() before writing again"
        wal
    ∷ row api001 "API-001" "write lock is poisoned; database may be in an inconsistent state" api
    ∷ row api002 "API-002" "unexpected command variant in write path" api
    ∷ row api003 "API-003" "attribute must be a keyword" api
    ∷ row api004 "API-004" "cannot transact a pseudo-attribute" api
    ∷ row api005 "API-005" "only (query ...) commands can be prepared; got transact" api
    ∷ row api006 "API-006" "only (query ...) commands can be prepared; got retract" api
    ∷ row api007 "API-007" "only (query ...) commands can be prepared; got rule" api
    ∷ row api008 "API-008" "function registry lock poisoned: PoisonError { .. }" api
    ∷ row api009 "API-009" "WAL not initialized" api
    ∷ row api010 "API-010"
        "query contains bind slots ({}); use prepare() and execute the prepared query with bind values"
        api
    ∷ row int001 "INT-001"
        "a WriteTransaction is already in progress on this thread; use tx.execute() instead"
        internal
    ∷ row int002 "INT-002" "invalid entity: {}" internal
    ∷ row int003 "INT-003" "invalid value: {}" internal
    ∷ row int004 "INT-004" "invalid timestamp: {}" internal
    ∷ row int005 "INT-005" "millisecond value {} is outside the supported datetime range" internal
    ∷ row int006 "INT-006" "internal parser error: expected {} token" internal
    ∷ row int007 "INT-007" "Float literal out of range: {}" internal
    ∷ row int008 "INT-008" "Integer literal out of range: {}" internal
    ∷ row int009 "INT-009" "Symbol exceeds maximum length of {} bytes" internal
    ∷ row int010 "INT-010" "Exceeded maximum recursion depth of {}" internal
    ∷ row int011 "INT-011" "unexpected end of {}" internal
    ∷ row int012 "INT-012" "duplicate {}" internal
    ∷ row int013 "INT-013" "{} requires a value" internal
    ∷ row int014 "INT-014" "{} must be >= 1" internal
    ∷ row int015 "INT-015" "{} must be a positive integer" internal
    ∷ row int016 "INT-016" "(or)/(or-join) cannot appear inside (not)/(not-join)" internal
    ∷ row int017 "INT-017" "pseudo-attribute {} is not valid in {} position" internal
    ∷ row int018 "INT-018" "{} {} in {} is not bound by any {} clause" internal
    ∷ row int019 "INT-019" "datalog parser: {}" internal
    ∷ row int020 "INT-020" "evaluator: iteration or result limit exceeded: {}" internal
    ∷ row int021 "INT-021" "evaluator: unsupported where-clause in evaluate_rule: {}" internal
    ∷ row int022 "INT-022" "datalog evaluator: {}" internal
    ∷ row int023 "INT-023" "packed page: fact record exceeds slot capacity: {}" internal
    ∷ row int024 "INT-024" "packed page: malformed page data: {}" internal
    ∷ row int025 "INT-025" "internal: unsubstituted :valid-at bind slot reached the executor"
        internal
    ∷ row int026 "INT-026"
        "temporal pseudo-attributes :db/valid-from, :db/valid-to, :db/tx-count, and :db/tx-id require :any-valid-time; add :any-valid-time to your query"
        internal
    ∷ row int027 "INT-027"
        "query has no :where clause, rules, or aggregates — nothing binds the variables. Add a :where clause (e.g., [:find ?e ?a ?v :where [?e ?a ?v]]) or use an aggregate."
        internal
    ∷ row int028 "INT-028" "Rule invocation '{}' must have 1 or 2 arguments, got {}" internal
    ∷ row int029 "INT-029" "unknown aggregate function: '{}'" internal
    ∷ row int030 "INT-030"
        "unknown window function '{}' — register it with register_aggregate() before querying"
        internal
    ∷ row int031 "INT-031" "or-join variable {} is not bound in the incoming scope" internal
    ∷ row int032 "INT-032" "query executor: {}" internal
    ∷ row int033 "INT-033" "missing bind value for slot '${}'" internal
    ∷ row int034 "INT-034"
        "bind slot '${}' is not permitted in attribute position; the query optimizer selects an index based on the attribute at prepare time and cannot handle a parameterised attribute"
        internal
    ∷ row int035 "INT-035" "slot '${}' in {} position requires {}, got {}" internal
    ∷ row int036 "INT-036" "header too short: need {}..{}, got {} bytes" internal
    ∷ row int037 "INT-037" "header: slice at {} not exactly {} bytes" internal
    ∷ row int038 "INT-038" "header too short for {}" internal
    ∷ row int039 "INT-039" "Invalid magic number" internal
    ∷ row int040 "INT-040" "{} '{}' is already registered" internal
    ∷ row int041 "INT-041" "sum: expected Integer, Float, or Null, got {}" internal
    ∷ row int042 "INT-042" "min/max: no non-null values in group" internal
    ∷ row int043 "INT-043" "{}: cannot compare {} and {} values" internal
    ∷ row int044 "INT-044" "{}: expected Integer, Float, String, or Null, got {}" internal
    ∷ row int045 "INT-045" "pending fact index {} out of bounds" internal
    ∷ row int046 "INT-046" "no CommittedFactReader but got committed FactRef (page_id={})" internal
    ∷ row int047 "INT-047" "into_backend: backend Arc has multiple owners" internal
    ∷ row int048 "INT-048" "storage: arithmetic overflow: {}" internal
    ∷ row int049 "INT-049" "storage: internal invariant violation: {}" internal
    ∷ row int050 "INT-050" "{} lock poisoned" internal
    ∷ row int051 "INT-051" "Invalid page size: {} bytes (expected {})" internal
    ∷ row int052 "INT-052" "Page {} not found" internal
    ∷ row int053 "INT-053"
        "Header checksum mismatch: possible file corruption. Database may be damaged." internal
    ∷ row int054 "INT-054"
        "unstratifiable: predicate '{}' is involved in a negative cycle through '{}'" internal
    ∷ row int055 "INT-055" "rule predicate '{}' disappeared during rollback" internal
    ∷ []
