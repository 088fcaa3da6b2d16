-- ===== src/Ast.antt =====
-- What ccmock reads of clang's syntax tree. A declaration or a type is the record of what clang's
-- accessors return for it, so that clang itself is a parameter of the model through these values.
-- Declaration contexts are the addresses of their nodes, which the `Ast` record looks up.
use ccmock.Base.{ℕ, String, Bool, true, false, Option, List}

-- The `clang::Decl::Kind` values that ccmock tells apart.
pub data DeclKind : Type 0 where
  translation_unit namespace cxx_record function : DeclKind
  cxx_constructor cxx_destructor cxx_conversion cxx_method : DeclKind
  other : DeclKind

abbrev pub is_translation_unit : DeclKind → Bool
is_translation_unit translation_unit = true
is_translation_unit _ = false

-- `clang::OverloadedOperatorKind`
pub data Operator : Type 0 where
  op_none op_new op_delete op_array_new op_array_delete op_plus op_minus op_star : Operator
  op_slash op_percent op_caret op_amp op_pipe op_tilde op_exclaim op_equal op_less : Operator
  op_greater op_plus_equal op_minus_equal op_star_equal op_slash_equal : Operator
  op_percent_equal op_caret_equal op_amp_equal op_pipe_equal op_less_less : Operator
  op_greater_greater op_less_less_equal op_greater_greater_equal op_equal_equal : Operator
  op_exclaim_equal op_less_equal op_greater_equal op_spaceship op_amp_amp : Operator
  op_pipe_pipe op_plus_plus op_minus_minus op_comma op_arrow_star op_arrow op_call : Operator
  op_subscript op_conditional op_coawait : Operator

pub data RefQualifier : Type 0 where
  rq_none rq_lvalue rq_rvalue : RefQualifier

pub data Access : Type 0 where
  as_public as_protected as_private as_none : Access

pub data TagKind : Type 0 where
  tag_class tag_struct tag_union tag_other : TagKind

-- The fields of `clang::PrintingPolicy` that ccmock sets.
pub record Policy : Type 0 where
  pub suppress_tag_keyword : Bool
  pub bool_keyword : Bool
  pub use_void_for_zero_params : Bool

-- The type behind a pointer or a reference.
pub record Pointee : Type 0 where
  pub is_function_type : Bool
  pub is_void_type : Bool
  pub is_const_qualified : Bool

-- `clang::QualType`. `pointee` is `none` where `getPointeeType()` is null; `printed` is the
-- canonical type's `print` with a placeholder; `printed_unconst` is that after
-- `removeLocalConst()`; `declared` is what `Decl::print` writes for a variable of this type,
-- given the variable's name.
pub record QualType : Type 0 where
  pub type_ptr : ℕ
  pub pointee : Option Pointee
  pub is_void_type : Bool
  pub is_pointer_type : Bool
  pub is_rvalue_reference_type : Bool
  pub is_typedef_name_type : Bool
  pub printed : Policy → String → String
  pub printed_unconst : Policy → String → String
  pub declared : String → ℕ → String

-- `clang::ParmVarDecl`; `printed` is `Decl::print` at an indentation.
pub record ParmVarDecl : Type 0 where
  pub name : String
  pub type : QualType
  pub printed : ℕ → String

-- What `clang::CXXMethodDecl` adds to a function.
pub record Method : Type 0 where
  pub is_const : Bool
  pub has_noexcept_spec : Bool
  pub spec_range_is_valid : Bool
  pub ref_qualifier : RefQualifier

-- `clang::FunctionDecl` and its subclasses. `name` is `getName()`, the empty text where the
-- function has no identifier; `printed_name` is what `OS << *Decl` writes; `context` is the function as a `DeclContext`; `method` is its
-- `dyn_cast<CXXMethodDecl>`.
pub record FunctionDecl : Type 0 where
  pub id : ℕ
  pub kind : DeclKind
  pub has_identifier : Bool
  pub name : String
  pub printed_name : String
  pub qualified_name : String
  pub context : ℕ
  pub is_defined : Bool
  pub is_variadic : Bool
  pub is_extern_c : Bool
  pub is_in_std_namespace : Bool
  pub builtin_id : ℕ
  pub parameters : List ParmVarDecl
  pub return_type : QualType
  pub overloaded_operator : Operator
  pub method : Option Method
  pub access : Access
  pub printed : Policy → ℕ → String

-- `clang::CXXRecordDecl`, as the type of a variable
pub record CxxRecord : Type 0 where
  pub ctors : List FunctionDecl
  pub destructor : Option FunctionDecl
  pub has_default_constructor : Bool

-- `clang::VarDecl`; `record_decl` is its type's `getAsCXXRecordDecl()`.
pub record VarDecl : Type 0 where
  pub id : ℕ
  pub qualified_name : String
  pub qualified_name_in : Policy → String
  pub is_externally_visible : Bool
  pub type : QualType
  pub record_decl : Option CxxRecord

-- The nodes that are declaration contexts, by address. `name` is `none` where the node is no
-- `NamedDecl`, and `function` where it is no `FunctionDecl`. `nesting` bounds how deep contexts
-- nest in the translation unit; the walks along `parent` take it as their fuel.
pub record Ast : Type 0 where
  pub root : ℕ
  pub nesting : ℕ
  pub parent : ℕ → Option ℕ
  pub primary : ℕ → ℕ
  pub kind : ℕ → DeclKind
  pub name : ℕ → Option String
  pub tag_kind : ℕ → TagKind
  pub function : ℕ → Option FunctionDecl
