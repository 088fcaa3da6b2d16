-- ===== src/MockAction.antt =====
-- MockAction.hpp and MockAction.cpp: the resource directory of clang, the choice of the backend and
-- the run of a backend on one translation unit (`HandleTranslationUnit` of
-- output/OutputGenerator.cpp). The file system is a parameter.
pub mod Resource
pub mod Output
pub mod Generates
pub mod Backends
pub mod Complete
use Prim.Native.String.{len, slice}
use ccmock.Base.{
  ℕ, String, Bool, true, false, not, ◌&&◌, Option, none, some, List, [], ◌∷◌, ◌++◌, if◌then◌else◌,
  ◌<>◌, is_empty, back?, leb, Outcome, ok, exit, fault, bind, Action,
}
use ccmock.Ast.{Ast, Policy, FunctionDecl, VarDecl, as_none}
use ccmock.Config.{Config, Backend, gmock, fff, cmocka, raw}
use ccmock.Writer.{Writer, new_writer}
use ccmock.Contexts.{Order}
use ccmock.Generator.{Host, Sink, write_file_header, write_sink, handle_translation_unit}
use ccmock.Visitor
use ccmock.Visitor.{Visit, Visitor, Glob}
use ccmock.Gmock
use ccmock.Fff
use ccmock.Cmocka
use ccmock.Raw

-- `entries` are the paths that `directory_iterator` yields, in its order. Both calls throw, which
-- nothing catches, where the file system fails.
pub record Directories : Type 0 where
  pub is_directory : String → Outcome Bool
  pub entries : String → Outcome (List String)

abbrev is_digit : Option ℕ → Bool
is_digit none = false
is_digit (some c) = leb b'0' c && leb c b'9'

-- the inner loop: `none` where no entry serves
unfoldable pub detect_in : Directories → List String → Outcome (Option String)
detect_in dirs [] = ok none
detect_in dirs (path ∷ paths) =
    let rest = detect_in dirs paths in
    if not (is_digit (back? path))
    then rest
    else bind (dirs.is_directory (path <> "/include")) (λ b. if b then ok (some path) else rest)

abbrev or_next : Outcome String → Option String → Outcome String
or_next rest none = rest
or_next rest (some path) = ok path

unfoldable pub detect_from : Directories → List String → Outcome String
unfolding detect_in
detect_from dirs [] = ok ""
detect_from dirs (item ∷ items) =
    let rest = detect_from dirs items in
    bind (dirs.is_directory item) (λ b.
      if not b
      then rest
      else bind (dirs.entries item) (λ paths. bind (detect_in dirs paths) (or_next rest)))

abbrev pub path_list : List String
path_list = "/usr/lib/clang" ∷ "/usr/lib64/clang" ∷ "/lib/clang" ∷ []

unfoldable pub detect_clang_resource_directory : Directories → Outcome String
unfolding detect_from
detect_clang_resource_directory dirs = detect_from dirs path_list

-- clang's `HeaderSearchOptions`
pub record HeaderSearch : Type 0 where
  pub system_paths : List String
  pub resource_dir : String

-- `Path.resize(Size)`, to a smaller size
abbrev resize : ℕ → String → String
resize size path = slice path 0 size

-- The header search with the include directory added.
unfoldable pub add_resource_directory : String → HeaderSearch → HeaderSearch
add_resource_directory path search =
    let size = len path in
    let include' = path <> "/include" in
    record {
      system_paths = search.system_paths ++ include' ∷ [];
      resource_dir = resize size include';
    }

-- `none` where no directory is found.
unfoldable pub prepare_to_execute_action :
    Directories → Config → HeaderSearch → Outcome (Option HeaderSearch)
unfolding detect_clang_resource_directory add_resource_directory
prepare_to_execute_action dirs cfg search =
    if is_empty cfg.clang.resource_directory
    then bind (detect_clang_resource_directory dirs)
        (λ path. ok (if is_empty path then none else some (add_resource_directory path search)))
    else ok (some (add_resource_directory cfg.clang.resource_directory search))

unfoldable pub generator_name : Backend → String
generator_name gmock = "gmock"
generator_name fff = "fff"
generator_name cmocka = "cmocka"
generator_name raw = "Raw"

-- the policy with which the backend's constructor leaves the writer
unfoldable pub backend_policy : Backend → Policy → Policy
backend_policy gmock policy = Gmock.gmock_policy
backend_policy _ policy = policy

abbrev gmock_writer : Outcome Gmock.State → Outcome Writer
gmock_writer (ok s) = ok s.writer
gmock_writer exit = exit
gmock_writer fault = fault

abbrev fff_writer : Outcome Fff.State → Outcome Writer
fff_writer (ok s) = ok s.writer
fff_writer exit = exit
fff_writer fault = fault

abbrev raw_writer : Outcome Raw.State → Outcome Writer
raw_writer (ok s) = ok s.writer
raw_writer exit = exit
raw_writer fault = fault

module _ (ast : Ast) (order : Order) (cfg : Config) where
  -- `run` of the class that `CreateASTConsumer` makes for the backend
  unfoldable pub run_backend : Backend → Visitor → Action Writer
  run_backend gmock v w = gmock_writer (
      Gmock.run ast order cfg.gmock v.any_variadic v.function_decls v.var_decls
        (record { writer = w; context_map = [] }))
  run_backend fff v w =
      fff_writer
        (Fff.run cfg.fff v.function_decls v.var_decls (record { writer = w; typedef_map = [] }))
  run_backend cmocka v w = Cmocka.run cfg.cmocka v.function_decls v.var_decls w
  run_backend raw v w = raw_writer (
      Raw.run ast order v.function_decls
        (record { writer = w; context_map = []; current_access = as_none }))

  -- One translation unit: the walk, the file header, the backend, and the output.
  unfoldable pub generate : Host → (String → Option Glob) → Policy → List Visit → Outcome Sink
  generate host create policy visits = bind (Visitor.run create cfg visits) (λ v.
      handle_translation_unit host cfg.general (generator_name cfg.mocking.backend)
        (run_backend cfg.mocking.backend v)
        (new_writer (backend_policy cfg.mocking.backend policy)))
