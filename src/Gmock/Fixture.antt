-- ===== src/Gmock/Fixture.antt =====
-- output/GMock.cpp: the test fixture, whose member objects the mock pointers point to.
use ccmock.Base.{ℕ, List, if◌then◌else◌, Action, ◌>>◌, when, for_each}
use ccmock.Ast.{Ast, is_translation_unit}
use ccmock.Config.{GmockSection}
use ccmock.Writer.{Writer, write, indent, with_name}
use ccmock.Contexts.{ContextMap, Order}
use ccmock.Gmock.Names.{
  for_enclosing, requires_pointer_variable, write_mock_pointer_access,
  write_qualified_mock_declaration_name,
}

module _ (ast : Ast) where
  unfoldable pub write_fixture_variable_name : ℕ → Action Writer
  unfolding with_name
  write_fixture_variable_name context =
      if is_translation_unit (ast.kind context) then write "_" else with_name ast context write

  module _ (cfg : GmockSection) where
    unfoldable pub write_fixture_variable_access : ℕ → Action Writer
    unfolding for_enclosing with_name
    write_fixture_variable_access context = do
      write "(*this)"
      if is_translation_unit (ast.kind context)
          then (do write "."; write cfg.global_namespace_name)
          else for_enclosing ast context (λ c. with_name ast c (λ name. do write "."; write name))

module _ (ast : Ast) (order : Order) (cfg : GmockSection) where
  unfoldable pub write_set_up : ℕ × List ℕ → Action Writer
  unfolding requires_pointer_variable write_mock_pointer_access write_fixture_variable_access
  write_set_up (context, children) = when (requires_pointer_variable ast context children) (do
    write_mock_pointer_access ast cfg context 8
    write " = &"
    write_fixture_variable_access ast cfg context
    write ";\n")

  unfoldable pub write_fixture_set_up_function : ContextMap → Action Writer
  unfolding write_set_up
  write_fixture_set_up_function m = do
    write "    void SetUp() override {\n"
    for_each (order.of_map m) write_set_up
    write "    }\n"

  unfoldable pub write_tear_down : ℕ × List ℕ → Action Writer
  unfolding requires_pointer_variable write_mock_pointer_access
  write_tear_down (context, children) =
      when (requires_pointer_variable ast context children)
        (do write_mock_pointer_access ast cfg context 8; write " = nullptr;\n")

  unfoldable pub write_fixture_tear_down_function : ContextMap → Action Writer
  unfolding write_tear_down
  write_fixture_tear_down_function m = do
    write "    void TearDown() override {\n"
    for_each (order.of_map m) write_tear_down
    write "    }\n"

  unfoldable pub write_fixture_variable : ℕ × List ℕ → Action Writer
  unfolding requires_pointer_variable write_qualified_mock_declaration_name
      write_fixture_variable_name
  write_fixture_variable (context, children) =
      when (requires_pointer_variable ast context children) (do
        indent 4
        write "testing::"
        write cfg.mock_type
        write "<"
        write_qualified_mock_declaration_name ast cfg context
        write "> "
        write_fixture_variable_name ast context
        write ";\n")

  unfoldable pub write_fixture_variables : ContextMap → Action Writer
  unfolding write_fixture_variable
  write_fixture_variables m = for_each (order.of_map m) write_fixture_variable

  unfoldable pub write_fixture : ContextMap → Action Writer
  unfolding write_fixture_set_up_function write_fixture_tear_down_function write_fixture_variables
  write_fixture m = do
    write "\nclass "
    write cfg.test_fixture_name
    write " : public testing::Test {\nprotected:\n"
    write_fixture_set_up_function m
    write "\n"
    write_fixture_tear_down_function m
    write "\n"
    write_fixture_variables m
    write "};\n\n"
