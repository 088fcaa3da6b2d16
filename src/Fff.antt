-- ===== src/Fff.antt =====
-- output/FFF.cpp: mock functions for the fake function framework.
pub mod Typedefs
pub mod Total
pub mod DistinctTypedefs
pub mod Texts
pub mod Complete
use ccmock.Base.{
  ℕ, ◌+◌, String, true, false, not, Option, none, some, List, [], ◌∷◌, ◌++◌, ◌==◌, if◌then◌else◌,
  ◌<>◌, is_empty, decimal, Action, Outcome, ok, exit, fault, bind, ◌>>◌, skip, when, for_each,
  for_each_from,
}
use ccmock.Declarations.{fake_var_decl}
use ccmock.Ast.{ParmVarDecl, FunctionDecl, VarDecl}
use ccmock.Config.{FffSection, HistoryLen, plus, minus}
use ccmock.Writer.{Writer, write, write_type, write_var_decl, points_to_function}
use ccmock.Generator.{write_global_variables}

-- `TypedefMap_`: the name of the typedef that a type got, by the type's address.
abbrev pub TypedefMap : Type 0
TypedefMap = List (ℕ × String)

pub record State : Type 0 where
  pub writer : Writer
  pub typedef_map : TypedefMap

abbrev pub with_writer : State → Outcome Writer → Outcome State
with_writer s (ok w) = ok (record s { writer = w })
with_writer s exit = exit
with_writer s fault = fault

abbrev pub emit : Action Writer → Action State
emit m s = with_writer s (m s.writer)

unfoldable pub find_typedef : TypedefMap → ℕ → Option String
find_typedef [] k = none
find_typedef ((j, name) ∷ m) k = if j == k then some name else find_typedef m k

unfoldable pub create_typedef_name : FunctionDecl → ℕ → String
create_typedef_name d index = d.printed_name <> "_fn" <> decimal (index + 1) <> "_t"

unfoldable pub write_history_len : String → HistoryLen → Action Writer
write_history_len define (plus n) = do write define; write (decimal n); write "u)\n"
write_history_len define (minus n) = skip

unfoldable pub write_settings : FffSection → Action Writer
unfolding write_history_len
write_settings cfg = do
  when (not (is_empty cfg.gcc_function_attributes)) (do
    write "#define FFF_GCC_FUNCTION_ATTRIBUTES "
    write cfg.gcc_function_attributes
    write "\n")
  write_history_len "#define FFF_ARG_HISTORY_LEN (" cfg.arg_history_len
  write_history_len "#define FFF_CALL_HISTORY_LEN (" cfg.call_history_len

unfoldable pub write_include_directives : Action Writer
write_include_directives = write "\n#include <fff.h>\n\n"

unfoldable pub write_fake : FunctionDecl → Action Writer
write_fake d = do write "    FAKE("; write d.name; write ") \\\n"

unfoldable pub write_macros : List FunctionDecl → Action Writer
unfolding write_fake
write_macros functions = do
  write "DEFINE_FFF_GLOBALS\n\n#define FFF_FAKE_LIST(FAKE) \\\n"
  for_each functions write_fake
  write "\n\n"

-- The insertion always adds the entry, since the type had none, so the error branch is not taken.
unfoldable pub write_typedef : FunctionDecl → ℕ → ParmVarDecl → Action State
unfolding create_typedef_name points_to_function find_typedef write_var_decl
write_typedef d i p s =
    if not (points_to_function p.type)
    then ok s
    else if p.type.is_typedef_name_type
    then ok s
    else elim (find_typedef s.typedef_map p.type.type_ptr) [
      | some name ↦ ok s
      | none ↦
          let var = fake_var_decl p.type (create_typedef_name d i) in
          bind (emit (do write "typedef "; write_var_decl var.printed false; write ";\n") s)
            (λ t. ok (record t { typedef_map = t.typedef_map ++ (p.type.type_ptr, var.name) ∷ [] }))
    ]

unfoldable pub write_function_typedefs : FunctionDecl → Action State
unfolding write_typedef
write_function_typedefs d = for_each_from 0 d.parameters (write_typedef d)

unfoldable pub write_typedefs : List FunctionDecl → Action State
unfolding write_function_typedefs
write_typedefs functions = do
  for_each functions write_function_typedefs
  (λ s. when (elim s.typedef_map [ [] ↦ false | e ∷ m ↦ true ]) (emit (write "\n")) s)

unfoldable pub write_mock_parameter : TypedefMap → ParmVarDecl → Action Writer
unfolding find_typedef
write_mock_parameter typedefs p = do
  write ", "
  elim (find_typedef typedefs p.type.type_ptr) [
    | some name ↦ write name
    | none ↦ λ w. write (p.type.printed_unconst w.policy "") w
  ]

abbrev vararg_suffix : FunctionDecl → String
vararg_suffix d = if d.is_variadic then "_VARARG" else ""

unfoldable pub write_mock : FffSection → TypedefMap → FunctionDecl → Action Writer
unfolding write_mock_parameter write_type
write_mock cfg typedefs d = do
  if d.return_type.is_void_type
      then (do write "FAKE_VOID_FUNC"; write (vararg_suffix d); write "(")
      else (do
        write "FAKE_VALUE_FUNC"
        write (vararg_suffix d)
        write "("
        write_type d.return_type ""
        write ", ")
  when (not (is_empty cfg.calling_convention)) (do write cfg.calling_convention; write ", ")
  write d.name
  for_each d.parameters (write_mock_parameter typedefs)
  when d.is_variadic (write ", ...")
  write ");\n"

unfoldable pub write_mocks : FffSection → List FunctionDecl → Action State
unfolding write_mock
write_mocks cfg functions s =
    emit
      (do
        write "#ifdef __cplusplus\nextern \"C\" {\n#endif\n\n"
        for_each functions (write_mock cfg s.typedef_map)
        write "\n#ifdef __cplusplus\n} /* extern \"C\" */\n#endif\n\n")
      s

unfoldable pub run : FffSection → List FunctionDecl → List VarDecl → Action State
unfolding write_settings write_include_directives write_macros write_typedefs write_mocks
    write_global_variables
run cfg functions vars = do
  emit (write_settings cfg)
  emit write_include_directives
  emit (write_macros functions)
  write_typedefs functions
  write_mocks cfg functions
  emit (write_global_variables vars)
