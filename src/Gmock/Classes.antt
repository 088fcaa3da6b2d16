-- ===== src/Gmock/Classes.antt =====
-- output/GMock.cpp: `writeMockClass`, `writeMockMethod`, `writeMockPointerInstance` and
-- `writePointerDefinitions`.
use ccmock.Base.{
  ℕ, zero, suc, ◌+◌, String, true, false, not, none, some, List, if◌then◌else◌, Action, ◌>>◌, skip,
  when, for_each, raise_fault,
}
use ccmock.Ast.{
  Ast, translation_unit, namespace, cxx_record, other, is_translation_unit, FunctionDecl,
}
use ccmock.Config.{GmockSection}
use ccmock.Writer.{
  Writer, write, indent, with_name, write_return_type, write_mock_name,
  write_function_parameter_list,
}
use ccmock.Contexts.{ContextMap, Order, index_map, is_global_context, has_return_type}
use ccmock.Gmock.Members.{State, emit}
use ccmock.Gmock.Names.{
  requires_pointer_variable, write_config_pointer_name, write_qualified_mock_declaration_name,
}

unfoldable pub write_mock_method : FunctionDecl → ℕ → Action Writer
unfolding has_return_type write_return_type write_mock_name write_function_parameter_list
write_mock_method d n = do
  indent n
  write "MOCK_METHOD(("
  if has_return_type d then write_return_type d else write "void"
  write "), "
  write_mock_name d
  write ", "
  write_function_parameter_list d false true
  write ");\n"

module _ (ast : Ast) (cfg : GmockSection) where
  unfoldable pub write_mock_pointer_instance : ℕ → ℕ → Action Writer
  unfolding with_name write_config_pointer_name
  write_mock_pointer_instance context n = do
    indent n
    write "static thread_local testing::"
    write cfg.mock_type
    write "<"
    if is_translation_unit (ast.kind context)
        then write cfg.class_name
        else with_name ast context (λ name. do write name; write "_")
    write "> *"
    write_config_pointer_name cfg
    write ";\n"

  -- the lines of a class before its members
  unfoldable pub open_class : ℕ → String → ℕ → Action Writer
  unfolding is_global_context
  open_class context name n = do
    indent n
    write "class"
    if is_translation_unit (ast.kind context)
        then (do write " "; write name)
        else when (is_global_context ast context) (do write " "; write name; write "_")
    write " {\n"
    indent n
    write "public:\n"

  -- the pointer, and the lines of a class behind its members
  unfoldable pub close_class : ℕ → List ℕ → String → ℕ → Action Writer
  unfolding is_global_context requires_pointer_variable write_mock_pointer_instance
  close_class context children name n = do
    when (requires_pointer_variable ast context children)
        (write_mock_pointer_instance context (n + 4))
    indent n
    write "}"
    when (not (is_global_context ast context)) (do write " "; write name)
    write ";\n\n"

module _ (ast : Ast) (order : Order) (cfg : GmockSection) where
  -- `writeMockClass` with a name; `again` makes the calls for the children. The set that
  -- `ContextMap_[Context]` refers to is read before those calls.
  unfoldable pub write_named_class : (ℕ → ℕ → Action State) → ℕ → String → ℕ → Action State
  unfolding index_map open_class close_class
  write_named_class again context name n s =
      let (children, m) = index_map context s.context_map in
      (do
        emit (open_class ast cfg context name n)
        for_each (order.of_set children) (λ c. again c (n + 4))
        emit (close_class ast cfg context children name n))
        (record s { context_map = m })

  -- `writeMockClass` without a name: the switch over the kinds.
  unfoldable pub write_class_of : (ℕ → ℕ → Action State) → ℕ → ℕ → Action State
  unfolding write_named_class write_mock_method
  write_class_of again context n = elim (ast.kind context) [
    | translation_unit ↦ write_named_class again context cfg.class_name n
    | namespace ↦ elim (ast.name context) [
      | none ↦ raise_fault
      | some name ↦ write_named_class again context name n
    ]
    | cxx_record ↦ elim (ast.name context) [
      | none ↦ raise_fault
      | some name ↦ write_named_class again context name n
    ]
    | other ↦ skip
    | _ ↦ elim (ast.function context) [ none ↦ raise_fault | some d ↦ emit (write_mock_method d n) ]
  ]

  -- Contexts nest no deeper than the fuel, so the walk never runs out.
  unfoldable pub write_mock_class : ℕ → ℕ → ℕ → Action State
  unfolding write_class_of
  write_mock_class zero context n = raise_fault
  write_mock_class (suc fuel) context n = write_class_of (write_mock_class fuel) context n

  unfoldable pub write_pointer_definition : ℕ × List ℕ → Action Writer
  unfolding requires_pointer_variable write_qualified_mock_declaration_name
      write_config_pointer_name
  write_pointer_definition (context, children) =
      when (requires_pointer_variable ast context children) (do
        write "thread_local testing::"
        write cfg.mock_type
        write "<"
        write_qualified_mock_declaration_name ast cfg context
        write "> *"
        write_qualified_mock_declaration_name ast cfg context
        write "::"
        write_config_pointer_name cfg
        write " = nullptr;\n")

  unfoldable pub write_pointer_definitions : ContextMap → Action Writer
  unfolding write_pointer_definition
  write_pointer_definitions m = for_each (order.of_map m) write_pointer_definition
