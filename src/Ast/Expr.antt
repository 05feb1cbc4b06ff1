-- ===== src/Ast/Expr.antt =====
-- Types, literals, expressions and modules: src/ast.rs. A `Vec<Expr>` is `Exprs`, an
-- `Option<Box<Expr>>` `MaybeExpr` and the arms of a `match` `Arms`, each a data type of the mutual
-- block. `Type` is `AiplType`.
use aipl.Base.{ℕ, ℤ, String, Bool, Option, List}
use aipl.Token.{Pos}
use aipl.Ast.Op.{OpCode}

-- The storage types: their width and whether a read sign-extends.
pub data Narrow : Type 0 where
  u8 i8 u16 i16 : Narrow

mutual
  pub data AiplType : Type 0 where
    i32 i64 f32 f64 bool str void : AiplType
    ptr : AiplType → AiplType
    struct : String → AiplType
    result_type : AiplType → AiplType → AiplType
    array : AiplType → AiplType
    -- the parameters, the result, and whether the signature promises (no_leak)
    fn : Types → AiplType → Bool → AiplType
    enum union : String → AiplType
    narrow : Narrow → AiplType

  pub data Types : Type 0 where
    no_types : Types
    next_type : AiplType → Types → Types

pub data Literal : Type 0 where
  int int64 : ℤ → Literal
  -- the bits of the value
  float : ℕ → Literal
  -- the bits of the value, and the literal as written
  float32 : ℕ → String → Literal
  bool_lit : Bool → Literal
  str_lit : String → Literal

-- Which `i32` view an `addr` takes.
pub data AddrKind : Type 0 where
  ptr_kind arr_kind enum_kind ptr_gen arr_gen : AddrKind

mutual
  pub data Expr : Type 0 where
    lit : Literal → Pos → Expr
    var : String → Pos → Expr
    let_expr : (name : String) → (ty : AiplType) → (val : Expr) → Pos → Expr
    set : (name : String) → (val : Expr) → Pos → Expr
    if_expr : (test then_branch else_branch : Expr) → Pos → Expr
    loop : (var : String) → (start end step : Expr) → (body : Exprs) → Pos → Expr
    while : (test : Expr) → (body : Exprs) → Pos → Expr
    call : (func : String) → (args : Exprs) → Pos → Expr
    op_expr : OpCode → (args : Exprs) → Pos → Expr
    ok_expr err_expr : Expr → Option AiplType → Pos → Expr
    match_result :
        (value : Expr)
        → (ok_var : String) → (ok_body : Exprs) → (err_var : String) → (err_body : Exprs) → Pos
        → Expr
    block unsafe_block : Exprs → Pos → Expr
    get_field : (struct_name field_name : String) → (pointer : Expr) → Pos → Expr
    put_field :
        (struct_name field_name : String)
        → (pointer val : Expr) → (path : List (String × String)) → Pos
        → Expr
    sizeof : AiplType → Pos → Expr
    arr_get : (elem_ty : AiplType) → (pointer index : Expr) → Pos → Expr
    arr_set :
        (elem_ty : AiplType)
        → (pointer index val : Expr) → (path : List (String × String)) → Pos
        → Expr
    arr_len : Expr → Pos → Expr
    null : AiplType → Pos → Expr
    cast : AiplType → (address : Expr) → (gen : MaybeExpr) → Pos → Expr
    record_expr : (struct_name : String) → (args : Exprs) → Pos → Expr
    with_expr : (struct_name field_name : String) → (value new_val : Expr) → Pos → Expr
    make : (union_name variant : String) → (args : Exprs) → Pos → Expr
    match_expr : (value : Expr) → Arms → ElseBody → Pos → Expr
    return_expr : MaybeExpr → Pos → Expr
    break_expr continue_expr : Pos → Expr
    ref : (name : String) → Pos → Expr
    call_ref : (sig : AiplType) → (func : Expr) → (args : Exprs) → Pos → Expr
    addr : Expr → AddrKind → Pos → Expr

  pub data Exprs : Type 0 where
    done : Exprs
    next : Expr → Exprs → Exprs

  pub data MaybeExpr : Type 0 where
    absent : MaybeExpr
    present : Expr → MaybeExpr

  pub data ElseBody : Type 0 where
    no_else : ElseBody
    else_body : Exprs → ElseBody

  -- A `MatchArm` and the arms after it.
  pub data Arms : Type 0 where
    no_arms : Arms
    arm : (member : String) → (binders : Option (List String)) → (body : Exprs) → Pos → Arms → Arms

-- The position that an expression starts at.
unfoldable pub span : Expr → Pos
span (lit _ p) = p
span (var _ p) = p
span (let_expr _ _ _ p) = p
span (set _ _ p) = p
span (if_expr _ _ _ p) = p
span (loop _ _ _ _ _ p) = p
span (while _ _ p) = p
span (call _ _ p) = p
span (op_expr _ _ p) = p
span (ok_expr _ _ p) = p
span (err_expr _ _ p) = p
span (match_result _ _ _ _ _ p) = p
span (block _ p) = p
span (unsafe_block _ p) = p
span (get_field _ _ _ p) = p
span (put_field _ _ _ _ _ p) = p
span (sizeof _ p) = p
span (arr_get _ _ _ p) = p
span (arr_set _ _ _ _ _ p) = p
span (arr_len _ p) = p
span (null _ p) = p
span (cast _ _ _ p) = p
span (record_expr _ _ p) = p
span (with_expr _ _ _ _ p) = p
span (make _ _ _ p) = p
span (match_expr _ _ _ p) = p
span (return_expr _ p) = p
span (break_expr p) = p
span (continue_expr p) = p
span (ref _ p) = p
span (call_ref _ _ _ p) = p
span (addr _ _ p) = p

pub data Contract : Type 0 where
  requires ensures invariant : Expr → Contract

pub record FnDef : Type 0 where
  pub name : String
  pub params : List (String × AiplType)
  pub return_type : AiplType
  pub contracts : List Contract
  pub body : Exprs
  pub fn_span : Pos
  -- calling the function takes an unsafe context, and its body is one
  pub is_unsafe : Bool
  -- the function promises to make no memory that is never freed
  pub is_no_leak : Bool
