-- ===== src/Gmock.antt =====
-- output/GMock.cpp: mock classes, a test fixture and mock functions for the gmock library.
mod Members
mod Names
mod Classes
mod Fixture
mod Calls
pub mod Pointers
pub mod Defined
pub mod Appends
pub mod Functions
pub mod Arguments
pub mod CallText
pub mod Nameless
pub mod Passes
pub mod ClassWalk
pub mod Total
pub mod Stable
pub mod Bodies
pub mod Texts
pub mod Mocks
pub mod Complete
mod Tests
unfoldable pub use Members.*
unfoldable pub use Names.*
unfoldable pub use Classes.*
unfoldable pub use Fixture.*
unfoldable pub use Calls.*
use ccmock.Base.{
  suc, ◌+◌, String, Bool, true, false, List, [], ◌∷◌, Action, ok, ◌>>◌, skip, when, for_each,
}
use ccmock.Ast.{Policy, FunctionDecl, VarDecl, Ast}
use ccmock.Config.{GmockSection}
use ccmock.Writer.{Writer, write}
use ccmock.Contexts.{ContextMap, Order, create_context_map}
use ccmock.Generator.{write_macro_definitions, write_global_variables}

-- the printing policy that the constructor sets
abbrev pub gmock_policy : Policy
gmock_policy = record {
  suppress_tag_keyword = true;
  bool_keyword = true;
  use_void_for_zero_params = false;
}

unfoldable pub write_include_directives : Bool → Action Writer
write_include_directives any_variadic = do
  when any_variadic (write "\n#include <cstdarg>\n\n")
  write "\n#include <gmock/gmock.h>\n#include <gtest/gtest.h>\n\n"

unfoldable pub write_main : GmockSection → Action Writer
write_main cfg = when cfg.write_main (
    write
      "int main(int argc, char *argv[])\n{\n    testing::InitGoogleTest(&argc, argv);\n\n    return RUN_ALL_TESTS();\n}\n\n")

unfoldable pub write_mock_functions : Ast → GmockSection → List FunctionDecl → Action Writer
unfolding write_function
write_mock_functions ast cfg functions = for_each functions (write_function ast cfg)

unfoldable pub initialize_context_map : Ast → List FunctionDecl → Action State
unfolding create_context_map
initialize_context_map ast functions s =
    ok (record s { context_map = create_context_map ast functions })

unfoldable pub run :
    Ast → Order → GmockSection → Bool → List FunctionDecl → List VarDecl → Action State
unfolding initialize_context_map write_include_directives write_macro_definitions write_mock_class
    write_pointer_definitions write_fixture write_mock_functions write_global_variables write_main
run ast order cfg any_variadic functions vars = do
  initialize_context_map ast functions
  emit (write_include_directives any_variadic)
  emit write_macro_definitions
  write_mock_class ast order cfg (suc ast.nesting) ast.root 0
  on_map (λ m. write_pointer_definitions ast order cfg m)
  on_map (λ m. write_fixture ast order cfg m)
  emit (write_mock_functions ast cfg functions)
  emit (write_global_variables vars)
  emit (write_main cfg)
