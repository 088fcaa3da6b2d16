-- ===== src/Writer.antt =====
-- output/OutputWriter.hpp and output/OutputWriter.cpp: the buffer that the generators write to.
-- What clang prints for a type or a declaration is a field of that type or declaration.
mod MockName
pub mod Appends
pub mod Parameters
pub mod Braces
pub mod Separated
pub mod Shows
pub mod Texts
pub mod Gaps
pub mod ParameterList
unfoldable pub use MockName.*
use ccmock.Base.{
  ℕ, ◌+◌, String, Bool, true, false, not, ◌&&◌, ◌||◌, Option, none, some, List, [], ◌∷◌, ◌==◌,
  if◌then◌else◌, ◌<>◌, is_empty, back?, spaces, decimal, Action, ok, fault, bind, ◌>>◌, skip, when,
  for_each_from, Outcome, raise_fault,
}
use ccmock.Declarations.{fake_var_decl}
use ccmock.Ast.{
  DeclKind, Policy, Pointee, QualType, ParmVarDecl, FunctionDecl, VarDecl, Method, Ast,
  RefQualifier, rq_none, rq_lvalue, rq_rvalue,
}

pub record Writer : Type 0 where
  pub policy : Policy
  pub buffer : String

abbrev pub new_writer : Policy → Writer
new_writer policy = record { policy = policy; buffer = "" }

abbrev pub append : String → Writer → Writer
append s w = record w { buffer = w.buffer <> s }

-- `write`, for data that prints as the text `s`
abbrev pub write : String → Action Writer
write s w = ok (append s w)

abbrev pub indent : ℕ → Action Writer
indent n = write (spaces n)

-- `cast<NamedDecl>(Context)->getName()`: a fault where the context has no name.
unfoldable pub with_name : {S : Type 0} → Ast → ℕ → (String → Action S) → Action S
with_name ast context k = elim (ast.name context) [ none ↦ raise_fault | some s ↦ k s ]

unfoldable pub write_decl_name : Ast → ℕ → Action Writer
unfolding with_name
write_decl_name ast context = with_name ast context write

unfoldable pub write_fully_qualified_name : String → Action Writer
write_fully_qualified_name qualified_name = write qualified_name

unfoldable pub write_function_decl : FunctionDecl → ℕ → Action Writer
write_function_decl d n w = write (d.printed w.policy n) w

unfoldable pub write_type : QualType → String → Action Writer
write_type type placeholder w = write (type.printed w.policy placeholder) w

unfoldable pub write_return_type : FunctionDecl → Action Writer
unfolding write_type
write_return_type d = write_type d.return_type ""

-- `Decl::print(Out_, PrintInstantiation)`: the flag is taken as the indentation.
unfoldable pub write_var_decl : (ℕ → String) → Bool → Action Writer
write_var_decl printed print_instantiation = write (printed (if print_instantiation then 1 else 0))

-- `OS << Buffer_ << "\n"`: the text for the stream, and the writer with an empty buffer
unfoldable pub flush : Writer → String × Writer
flush w = (w.buffer <> "\n", record w { buffer = "" })

-- The name that the code gives to the parameter at position `i` if it has none.
unfoldable pub argument_name : ℕ → String
argument_name i = "arg" <> decimal (i + 1)

-- The type is a pointer or a reference to a function.
unfoldable pub points_to_function : QualType → Bool
points_to_function type = elim type.pointee [ none ↦ false | some p ↦ p.is_function_type ]

-- `if (auto C = Buffer_.back(); C != '&' && C != '*') Out_ << " "`
unfoldable pub pad : Action Writer
pad w = elim (back? w.buffer) [
  | none ↦ fault
  | some c ↦ if not (c == b'&') && not (c == b'*') then write " " w else ok w
]

unfoldable pub write_unnamed_parameter : ℕ → ParmVarDecl → Action Writer
unfolding points_to_function argument_name write_type pad write_var_decl
write_unnamed_parameter i p =
    if not (points_to_function p.type)
    then (do write_type p.type ""; pad; write "arg"; write (decimal (i + 1)))
    else write_var_decl (fake_var_decl p.type (argument_name i)).printed false

unfoldable pub write_parameter : Bool → ℕ → ParmVarDecl → Action Writer
unfolding write_unnamed_parameter
write_parameter parameter_names i p =
    when (not (i == 0)) (write ", ")
    >> (if not parameter_names
        then write_type p.type ""
        else if not (is_empty p.name)
        then write_var_decl p.printed false
        else write_unnamed_parameter i p)

unfoldable pub write_function_parameter_list : FunctionDecl → Bool → Bool → Action Writer
unfolding write_parameter
write_function_parameter_list d parameter_names var_arg_list w = elim d.parameters [
  | [] ↦ if w.policy.use_void_for_zero_params then write "(void)" w else write "()" w
  | p ∷ ps ↦
      (do
        write "("
        for_each_from 0 (p ∷ ps) (write_parameter parameter_names)
        when d.is_variadic (if var_arg_list then write ", va_list" else write ", ...")
        write ")")
        w
]

unfoldable pub write_function_specifiers : FunctionDecl → Action Writer
write_function_specifiers d = elim d.method [
  | none ↦ skip
  | some m ↦
      when m.is_const (write " const")
      >> when (m.has_noexcept_spec && m.spec_range_is_valid) (write " noexcept")
]

unfoldable pub write_function_reference_qualifiers : FunctionDecl → Action Writer
write_function_reference_qualifiers d = elim d.method [
  | none ↦ skip
  | some m ↦ elim m.ref_qualifier [
    | rq_lvalue ↦ write " &"
    | rq_rvalue ↦ write " &&"
    | rq_none ↦ skip
  ]
]

unfoldable pub write_mock_name : FunctionDecl → Action Writer
unfolding mock_name
write_mock_name d = elim (mock_name d) [ none ↦ raise_fault | some s ↦ write s ]
