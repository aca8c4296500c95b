-- ===== src/Rules/Syntax.antt =====
-- The clauses and rules of src/query/datalog/types.rs.
use minigraf.Prelude.Int.{ℤ}
use minigraf.Prelude.Text.{Text}
use minigraf.Prelude.{ℕ, Bool, Option, List}
use minigraf.Graph.Value.{Value, EntityId}

-- `EdnValue`
mutual
  pub data EdnValue : Type 0 where
    keyword : Text → EdnValue
    symbol : Text → EdnValue
    string : Text → EdnValue
    integer : ℤ → EdnValue
    float : ℕ → EdnValue
    boolean : Bool → EdnValue
    uuid : EntityId → EdnValue
    vector : EdnValues → EdnValue
    list : EdnValues → EdnValue
    map_of : EdnPairs → EdnValue
    nil : EdnValue
    bind_slot : Text → EdnValue

  pub data EdnValues : Type 0 where
    no_values : EdnValues
    value : EdnValue → EdnValues → EdnValues

  pub data EdnPairs : Type 0 where
    no_pairs : EdnPairs
    pair : EdnValue → EdnValue → EdnPairs → EdnPairs

pub data PseudoAttr : Type 0 where
  valid_from : PseudoAttr
  valid_to : PseudoAttr
  tx_count : PseudoAttr
  tx_id : PseudoAttr
  valid_at : PseudoAttr

pub data AttributeSpec : Type 0 where
  real : EdnValue → AttributeSpec
  pseudo : PseudoAttr → AttributeSpec

pub record Pattern : Type 0 where
  pub entity : EdnValue
  pub attribute : AttributeSpec
  pub value : EdnValue
  pub valid_from : Option ℤ
  pub valid_to : Option ℤ

-- `BinOp`; a compiled regex is known by its pattern.
pub data BinOp : Type 0 where
  lt : BinOp
  gt : BinOp
  lte : BinOp
  gte : BinOp
  eq : BinOp
  neq : BinOp
  add : BinOp
  sub : BinOp
  mul : BinOp
  div : BinOp
  starts_with : BinOp
  ends_with : BinOp
  contains : BinOp
  matches : Text → BinOp

pub data UnaryOp : Type 0 where
  string_q : UnaryOp
  integer_q : UnaryOp
  float_q : UnaryOp
  boolean_q : UnaryOp
  nil_q : UnaryOp
  udf : Text → UnaryOp

pub data Expr : Type 0 where
  var : Text → Expr
  lit : Value → Expr
  slot : Text → Expr
  bin_op : BinOp → Expr → Expr → Expr
  unary_op : UnaryOp → Expr → Expr

-- `WhereClause`, with its bodies and branches.
mutual
  pub data WhereClause : Type 0 where
    pattern : Pattern → WhereClause
    rule_invocation : Text → List EdnValue → WhereClause
    not_ : Clauses → WhereClause
    not_join : List Text → Clauses → WhereClause
    expr : Expr → Option Text → WhereClause
    or_ : Branches → WhereClause
    or_join : List Text → Branches → WhereClause

  pub data Clauses : Type 0 where
    no_clauses : Clauses
    clause : WhereClause → Clauses → Clauses

  pub data Branches : Type 0 where
    no_branches : Branches
    branch : Clauses → Branches → Branches

pub record Rule : Type 0 where
  pub head : List EdnValue
  pub body : List WhereClause
