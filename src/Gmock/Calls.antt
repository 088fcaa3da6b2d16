-- ===== src/Gmock/Calls.antt =====
-- output/GMock.cpp: the mock functions, whose bodies call the mock methods.
use ccmock.Base.{
  ℕ, ◌+◌, Bool, true, false, not, none, some, List, ◌==◌, if◌then◌else◌, is_empty, decimal, length,
  last?, Action, ◌>>◌, when, for_each_from, raise_fault,
}
use ccmock.Ast.{
  Ast, DeclKind, cxx_constructor, cxx_destructor, is_translation_unit, ParmVarDecl, FunctionDecl,
}
use ccmock.Config.{GmockSection}
use ccmock.Writer.{
  Writer, write, with_name, write_return_type, write_mock_name, write_function_parameter_list,
  write_fully_qualified_name, write_function_specifiers, write_function_reference_qualifiers,
}
use ccmock.Contexts.{is_global_context, has_return_type}
use ccmock.Gmock.Names.{for_enclosing, write_config_pointer_name, write_mock_pointer_access}

-- the parameter's name, or the one that the parameter list gave it
unfoldable pub write_argument : ℕ → ParmVarDecl → Action Writer
write_argument i p =
    if not (is_empty p.name) then write p.name else (do write "arg"; write (decimal (i + 1)))

unfoldable pub write_call_argument : ℕ → ParmVarDecl → Action Writer
unfolding write_argument
write_call_argument i p = do
  when (not (i == 0)) (write ", ")
  when p.type.is_rvalue_reference_type (write "std::move(")
  write_argument i p
  when p.type.is_rvalue_reference_type (write ")")

-- The argument of `va_start`: `Parameters.back()`, a fault where there is none.
unfoldable pub write_last_argument : List ParmVarDecl → Action Writer
write_last_argument parameters = elim (last? parameters) [
  | none ↦ raise_fault
  | some p ↦
      if not (is_empty p.name)
      then write p.name
      else (do write "arg"; write (decimal (length parameters)))
]

unfoldable pub is_structor : DeclKind → Bool
is_structor cxx_constructor = true
is_structor cxx_destructor = true
is_structor _ = false

module _ (ast : Ast) (cfg : GmockSection) where
  unfoldable pub write_call_context : ℕ → Action Writer
  unfolding with_name is_global_context write_config_pointer_name
  write_call_context item = with_name ast item (λ name.
      if is_global_context ast item
      then (do write "::"; write name; write "_::"; write_config_pointer_name cfg; write ")")
      else (do write "."; write name))

  -- The parent of a function is the context that encloses it; every function has one.
  unfoldable pub write_mock_call_pointer_access : FunctionDecl → Action Writer
  unfolding for_enclosing write_call_context write_config_pointer_name
  write_mock_call_pointer_access d = elim (ast.parent d.context) [
    | none ↦ raise_fault
    | some parent ↦ (do
      write "(*"
      write cfg.class_name
      if is_translation_unit (ast.kind parent)
          then (do write "::"; write_config_pointer_name cfg; write ").")
          else (do for_enclosing ast parent write_call_context; write "."))
  ]

  unfoldable pub write_mock_call : FunctionDecl → Action Writer
  unfolding write_mock_call_pointer_access write_mock_name write_call_argument
  write_mock_call d = do
    write_mock_call_pointer_access d
    write_mock_name d
    write "("
    for_each_from 0 d.parameters write_call_argument
    when d.is_variadic (write ", vargs_")
    write ");\n"

  -- Constructors and destructors return at once while no fixture is set up.
  unfoldable pub write_pointer_guard : FunctionDecl → Action Writer
  unfolding is_structor write_mock_pointer_access
  write_pointer_guard d = when (is_structor d.kind) (elim (ast.parent d.context) [
    | none ↦ raise_fault
    | some parent ↦ (do
      write "    if (!"
      write_mock_pointer_access ast cfg parent 0
      write ")\n        return;\n\n")
  ])

  unfoldable pub write_function_body : FunctionDecl → Action Writer
  unfolding write_pointer_guard write_mock_call write_last_argument
  write_function_body d = do
    write "{\n"
    write_pointer_guard d
    if not d.is_variadic
        then (do
          write "    "
          when (not d.return_type.is_void_type) (write "return ")
          write_mock_call d
          write "}\n")
        else (do
          write "    va_list vargs_;\n\n    va_start(vargs_, "
          write_last_argument d.parameters
          write ");\n    "
          when (not d.return_type.is_void_type) (write "auto ccmock_val_ = ")
          write_mock_call d
          write "    va_end(vargs_);\n"
          when (not d.return_type.is_void_type) (write "\n    return ccmock_val_;\n")
          write "}\n")

  unfoldable pub write_function : FunctionDecl → Action Writer
  unfolding has_return_type write_return_type write_fully_qualified_name
      write_function_parameter_list write_function_specifiers write_function_reference_qualifiers
      write_function_body
  write_function d = do
    when d.is_extern_c (write "CCMOCK_LINKAGE ")
    when (has_return_type d) (do write_return_type d; write "\n")
    write_fully_qualified_name d.qualified_name
    write_function_parameter_list d true false
    write_function_specifiers d
    write_function_reference_qualifiers d
    write "\n"
    write_function_body d
    write "\n"
