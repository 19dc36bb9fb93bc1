-- ===== src/Expr/Nodes.antt =====
-- expr/expr.c: the expression nodes that the code looks at, and its planning-time analysis.
-- An operator with one or two arguments holds them; of any other the code reads the count alone.
use pg_batch.Prelude.{
  ℕ, ◌+◌, Bool, true, false, ◌&&◌, ◌||◌, Option, none, some, ltb, ◌==◌, if◌then◌else◌,
}
use pg_batch.Prelude.Int.{ℤ, pos, ltb_ℤ}
use pg_batch.Kernels.Compare.{
  Funcid, int4pl, int4mi, int4mul, int4div, int4mod, int4um, Int4Op, compare_op,
}
use pg_batch.Kernels.Arithmetic.{ArithmeticOp, add, subtract, multiply, divide, modulo, negate}

-- INT4OID, BOOLOID, and any other type
pub data TypeOid : Type 0 where
  int4 bool : TypeOid
  other_type : ℕ → TypeOid

abbrev pub is_int4 : TypeOid → Bool
is_int4 int4 = true
is_int4 _ = false

abbrev pub is_bool : TypeOid → Bool
is_bool bool = true
is_bool _ = false

pub record Var : Type 0 where
  pub varno : ℕ
  pub varattno : ℤ
  pub vartype : TypeOid
  pub varlevelsup : ℕ
  pub default_returning : Bool

-- PARAM_EXTERN, PARAM_EXEC, and the other kinds
pub data ParamKind : Type 0 where
  extern exec other_kind : ParamKind

pub data Node : Type 0 where
  relabel : Node → Node
  var : Var → Node
  const : TypeOid → Option ℤ → Node
  param : TypeOid → ParamKind → ℕ → Node
  op1 : Funcid → TypeOid → Node → Node
  op2 : Funcid → TypeOid → Node → Node → Node
  op_n : Funcid → TypeOid → ℕ → Node
  other_node : ℕ → Node

unfoldable pub strip_relabel : Node → Node
strip_relabel (relabel arg) = strip_relabel arg
strip_relabel node = node

unfoldable pub valid_var : Var → ℕ → Bool
valid_var v relid =
    is_int4 v.vartype
    && ltb_ℤ (pos 0) v.varattno
    && v.varlevelsup == 0
    && v.default_returning
    && (relid == 0 || v.varno == relid)

abbrev pub is_scalar_kind : ParamKind → Bool
is_scalar_kind other_kind = false
is_scalar_kind _ = true

unfoldable pub scalar_leaf : Node → Bool
scalar_leaf (const type value) = is_int4 type
scalar_leaf (param type kind id) = is_int4 type && is_scalar_kind kind
scalar_leaf _ = false

-- `none` is the result false.
unfoldable pub arithmetic_op : Funcid → ℕ → Option ArithmeticOp
arithmetic_op int4pl nargs = if nargs == 2 then some add else none
arithmetic_op int4mi nargs = if nargs == 2 then some subtract else none
arithmetic_op int4mul nargs = if nargs == 2 then some multiply else none
arithmetic_op int4div nargs = if nargs == 2 then some divide else none
arithmetic_op int4mod nargs = if nargs == 2 then some modulo else none
arithmetic_op int4um nargs = if nargs == 1 then some negate else none
arithmetic_op _ nargs = none

abbrev pub is_some {ℓ} : {A : Type ℓ} → Option A → Bool
is_some none = false
is_some (some a) = true

-- `vars += arg_vars; if (vars > 1) return false;`
abbrev pub add_vars : Option ℕ → Option ℕ → Option ℕ
add_vars none _ = none
add_vars (some vars) none = none
add_vars (some vars) (some arg_vars) =
    if ltb 1 (vars + arg_vars) then none else some (vars + arg_vars)

-- The number of Vars, or `none` where the node is outside the grammar.
unfoldable pub analyze_value : Node → ℕ → Option ℕ
analyze_value (relabel arg) relid = analyze_value arg relid
analyze_value (var v) relid = if valid_var v relid then some 1 else none
analyze_value (const type value) relid = if scalar_leaf (const type value) then some 0 else none
analyze_value (param type kind id) relid = if scalar_leaf (param type kind id) then some 0 else none
analyze_value (op1 f type arg) relid =
    let vars = analyze_value arg relid in
    if is_int4 type && is_some (arithmetic_op f 1) then add_vars (some 0) vars else none
analyze_value (op2 f type left right) relid =
    let vars =
      add_vars (add_vars (some 0) (analyze_value left relid)) (analyze_value right relid) in
    if is_int4 type && is_some (arithmetic_op f 2) then vars else none
analyze_value (op_n f type n) relid = none
analyze_value (other_node n) relid = none

-- pg_batch_expr_supports_int4
pub supports_int4 : Node → ℕ → Bool
supports_int4 node relid = is_some (analyze_value node relid)

-- The argument that holds the Var, and the comparison.
abbrev pub one_var : Funcid → Option ℕ → Option ℕ → Option (ℕ × Int4Op)
one_var f (some left) (some right) =
    let value_arg : ℕ = if left == 1 then 0 else 1 in
    if left + right == 1
    then elim (compare_op f value_arg) [ none ↦ none | some op ↦ some (value_arg, op) ]
    else none
one_var f _ _ = none

unfoldable pub analyze_stripped : Node → ℕ → Option (ℕ × Int4Op)
analyze_stripped (op2 f type left right) relid =
    if is_bool type then one_var f (analyze_value left relid) (analyze_value right relid) else none
analyze_stripped _ relid = none

unfoldable pub analyze_filter : Node → ℕ → Option (ℕ × Int4Op)
unfolding analyze_stripped
analyze_filter node relid = analyze_stripped (strip_relabel node) relid

-- pg_batch_expr_supports_filter
supports_filter : Node → ℕ → Bool
supports_filter node relid = is_some (analyze_filter node relid)
