-- ===== src/Cmocka.antt =====
-- output/CMocka.cpp: mock functions for the cmocka library.
pub mod Outputs
pub mod Texts
pub mod Complete
use ccmock.Base.{
  ℕ, ◌+◌, String, Bool, true, false, not, ◌&&◌, Option, none, some, List, [], ◌∷◌, if◌then◌else◌,
  is_empty, decimal, Action, ◌>>◌, skip, when, for_each, for_each_from, any,
}
use ccmock.Ast.{QualType, ParmVarDecl, FunctionDecl, VarDecl}
use ccmock.Config.{CmockaSection}
use ccmock.Writer.{
  Writer, write, write_type, write_return_type, write_fully_qualified_name,
  write_function_parameter_list, points_to_function,
}
use ccmock.Generator.{write_macro_definitions, write_global_variables}

unfoldable pub write_include_directives : Action Writer
write_include_directives =
    write
      "#include <string.h>\n#include <stdarg.h>\n#include <stddef.h>\n#include <setjmp.h>\n\n#include <cmocka.h>\n\n"

-- `IsOutParam`: a pointer or reference to something that the callee may write.
unfoldable pub is_out_param : ParmVarDecl → Bool
is_out_param p = elim p.type.pointee [
  | none ↦ false
  | some q ↦
      if q.is_void_type
      then false
      else if q.is_function_type
      then false
      else if q.is_const_qualified
      then false
      else true
]

-- the parameter's name, or the one that the parameter list gave it
unfoldable pub write_argument : ℕ → ParmVarDecl → Action Writer
write_argument i p =
    if not (is_empty p.name) then write p.name else (do write "arg"; write (decimal (i + 1)))

unfoldable pub write_check : ℕ → ParmVarDecl → Action Writer
unfolding write_argument
write_check i p = do
  if p.type.is_pointer_type then write "    check_expected_ptr(" else write "    check_expected("
  write_argument i p
  write ");\n"

unfoldable pub write_output_parameter : ℕ → ParmVarDecl → Action Writer
unfolding is_out_param write_argument write_type
write_output_parameter i p = if not (is_out_param p) then skip else (do
  write "    mock_ptr = mock_ptr_type("
  write_type p.type ""
  write ");\n    if (mock_ptr)\n        memmove("
  write_argument i p
  write ", mock_ptr, sizeof(*"
  write_argument i p
  write "));\n\n")

unfoldable pub write_return : QualType → Action Writer
unfolding write_type
write_return type = when (not type.is_void_type) (do
  write "\n    return "
  if type.is_pointer_type then write "mock_ptr_type(" else write "mock_type("
  write_type type ""
  write ");\n")

unfoldable pub write_function_body : CmockaSection → FunctionDecl → Action Writer
unfolding is_out_param write_check write_output_parameter write_return
write_function_body cfg d = do
  write "{\n"
  when (cfg.output_parameters && any is_out_param d.parameters)
      (write "    const void *mock_ptr;\n\n")
  when cfg.strict_mocks (write "    function_called();\n")
  when (elim d.parameters [ [] ↦ false | p ∷ ps ↦ true ])
      (do write "\n"; for_each_from 0 d.parameters write_check)
  when cfg.output_parameters (do write "\n"; for_each_from 0 d.parameters write_output_parameter)
  write_return d.return_type
  write "}\n"

unfoldable pub write_mock_function : CmockaSection → FunctionDecl → Action Writer
unfolding write_function_body write_return_type write_fully_qualified_name
    write_function_parameter_list
write_mock_function cfg d = do
  when d.is_extern_c (write "CCMOCK_LINKAGE ")
  write_return_type d
  write "\n"
  write_fully_qualified_name d.qualified_name
  write_function_parameter_list d true false
  write "\n"
  write_function_body cfg d
  write "\n"

unfoldable pub write_mock_functions : CmockaSection → List FunctionDecl → Action Writer
unfolding write_mock_function
write_mock_functions cfg functions = for_each functions (write_mock_function cfg)

unfoldable pub run : CmockaSection → List FunctionDecl → List VarDecl → Action Writer
unfolding write_include_directives write_mock_functions write_macro_definitions
    write_global_variables
run cfg functions vars = do
  write_include_directives
  write_macro_definitions
  write_global_variables vars
  write_mock_functions cfg functions
