-- ===== src/Sample.antt =====
-- A small translation unit, on which the tests run: `namespace util { void dispatch(int); }`, and
-- the global `int next(const char *s, ...)`; the contexts are 0, the translation unit, 1, the
-- namespace, 2 and 3, the functions; the others are nothing that ccmock looks at.
use ccmock.Base.{
  ℕ, String, Bool, true, false, Option, none, some, List, [], ◌∷◌, ◌==◌, if◌then◌else◌, ◌<>◌,
}
use ccmock.Ast.{
  other, DeclKind, translation_unit, namespace, function, op_none, as_none, tag_other, Pointee,
  QualType, ParmVarDecl, FunctionDecl, VarDecl, Ast,
}
use ccmock.Contexts.{Order}

-- A type that prints as its name, whatever the policy and the placeholder.
abbrev pub simple_type : ℕ → String → Bool → Option Pointee → QualType
simple_type address name void' pointee = record {
  type_ptr = address;
  pointee = pointee;
  is_void_type = void';
  is_pointer_type = elim pointee [ none ↦ false | some p ↦ true ];
  is_rvalue_reference_type = false;
  is_typedef_name_type = false;
  printed = λ policy placeholder. name;
  printed_unconst = λ policy placeholder. name;
  declared = λ variable n. name <> " " <> variable;
}

abbrev pub int_type : QualType
int_type = simple_type 1 "int" false none

abbrev pub void_type : QualType
void_type = simple_type 2 "void" true none

abbrev pub char_pointer : QualType
char_pointer =
    simple_type 3 "const char *" false
      (some (record { is_function_type = false; is_void_type = false; is_const_qualified = true }))

abbrev pub callback : QualType
callback =
    simple_type 4 "callback" false
      (some (record { is_function_type = true; is_void_type = false; is_const_qualified = false }))

abbrev pub parameter : String → QualType → ParmVarDecl
parameter name type = record { name = name; type = type; printed = λ n. type.declared name n }

abbrev pub plain_function : ℕ → ℕ → String → String → List ParmVarDecl → QualType → FunctionDecl
plain_function id context name qualified_name parameters return_type = record {
  id = id;
  kind = function;
  has_identifier = true;
  name = name;
  printed_name = name;
  qualified_name = qualified_name;
  context = context;
  is_defined = false;
  is_variadic = false;
  is_extern_c = false;
  is_in_std_namespace = false;
  builtin_id = 0;
  parameters = parameters;
  return_type = return_type;
  overloaded_operator = op_none;
  method = none;
  access = as_none;
  printed = λ policy n. return_type.printed policy "" <> " " <> name;
}

abbrev pub dispatch_decl : FunctionDecl
dispatch_decl =
    plain_function 10 2 "dispatch" "util::dispatch" (parameter "" int_type ∷ []) void_type

abbrev pub next_decl : FunctionDecl
next_decl = record (plain_function 11 3 "next" "next" (parameter "s" char_pointer ∷ []) int_type) {
  is_variadic = true;
}

abbrev pub count_decl : VarDecl
count_decl = record {
  id = 12;
  qualified_name = "count";
  qualified_name_in = λ policy. "count";
  is_externally_visible = true;
  type = int_type;
  record_decl = none;
}

abbrev kind_of : ℕ → DeclKind
kind_of c =
    if c == 0
    then translation_unit
    else if c == 1
    then namespace
    else if c == 2
    then function
    else if c == 3
    then function
    else other

abbrev pub sample : Ast
sample = record {
  root = 0;
  nesting = 2;
  parent = λ c. if c == 0 then none else if c == 2 then some 1 else some 0;
  primary = λ c. c;
  kind = kind_of;
  name = λ c.
      if c == 0
      then none
      else if c == 1
      then some "util"
      else if c == 2
      then some "dispatch"
      else if c == 3
      then some "next"
      else some "";
  tag_kind = λ c. tag_other;
  function = λ c. if c == 2 then some dispatch_decl else if c == 3 then some next_decl else none;
}

-- the entries and the elements in the order of insertion
abbrev pub insertion_order : Order
insertion_order = record { of_map = λ m. m; of_set = λ cs. cs }
