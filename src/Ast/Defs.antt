-- ===== src/Ast/Defs.antt =====
-- Structs and unions as the source declares them: src/ast.rs.
use aipl.Base.{String, Bool, List}
use aipl.Token.{Pos}
use aipl.Ast.Expr.{AiplType}

pub record StructField : Type 0 where
  pub field_name : String
  pub field_ty : AiplType

pub record StructDef : Type 0 where
  pub struct_name : String
  pub fields : List StructField
  pub struct_span : Pos
  -- held inline and never behind a pointer
  pub is_value : Bool

pub record Variant : Type 0 where
  pub variant_name : String
  pub payload : List StructField

pub record UnionDef : Type 0 where
  pub union_name : String
  pub variants : List Variant
  pub union_span : Pos
