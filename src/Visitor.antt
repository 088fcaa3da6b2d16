-- ===== src/Visitor.antt =====
-- output/OutputGenerator.cpp, class `ASTVisitor`, with the `addDecl` methods of `OutputGenerator`:
-- which functions and variables of the main file get a mock. The walk over the tree is clang's; it
-- hands the visitor the expressions in turn, as a list of `Visit`s.
mod Blacklist
pub mod Selection
mod Steps
pub mod Collects
pub mod Guarantees
pub mod Distinct
pub mod Settings
unfoldable pub use Blacklist.*
use ccmock.Base.{
  mem_str, ℕ, String, Bool, true, false, not, ◌&&◌, Option, none, some, List, [], ◌∷◌, ◌++◌, ◌==◌,
  str_eq, starts_with, if◌then◌else◌, mem_nat, Action, ok, exit, Outcome, bind, ◌>>◌, skip, when,
  for_each,
}
use ccmock.Ast.{FunctionDecl, VarDecl, CxxRecord}
use ccmock.Config.{Config}
use ccmock.Console.{Log, Item, say, info}

-- An expression that the walk visits. The first field says whether it lies in the main file; a
-- call has no callee where it goes through a function pointer, and a reference no variable where
-- it names something else.
pub data Visit : Type 0 where
  call_expr : Bool → Option FunctionDecl → Visit
  cxx_construct_expr : Bool → FunctionDecl → Option FunctionDecl → Visit
  decl_ref_expr : Bool → Option VarDecl → Visit

-- The members that the walk changes: the visitor's own, and the generator's lists. `log` is what
-- went to standard error.
pub record Visitor : Type 0 where
  pub visited : List ℕ
  pub buffer : String
  pub function_decls : List FunctionDecl
  pub var_decls : List VarDecl
  pub any_variadic : Bool
  pub log : Log

abbrev pub initial : Visitor
initial = record {
  visited = [];
  buffer = "";
  function_decls = [];
  var_decls = [];
  any_variadic = false;
  log = [];
}

unfoldable pub add_function : FunctionDecl → Visitor → Visitor
add_function d v = record v {
  any_variadic = if d.is_variadic && not v.any_variadic then true else v.any_variadic;
  function_decls = v.function_decls ++ d ∷ [];
}

unfoldable pub add_var : VarDecl → Visitor → Visitor
add_var d v = record v { var_decls = v.var_decls ++ d ∷ [] }

-- An informational message, which only verbose runs write.
unfoldable pub report : Config → List Item → Visitor → Visitor
report cfg items v = if cfg.general.verbose then record v { log = info v.log ++ items } else v

-- `isVisited`: whether the set had the declaration, and the set with it. The insertion into a
-- `DenseSet` always returns the element's place, so the error branch is never taken.
unfoldable pub is_visited : ℕ → Visitor → Bool × Visitor
is_visited id v =
    if mem_nat id v.visited then (true, v) else (false, record v { visited = id ∷ v.visited })

module _ (cfg : Config) (lists : Blacklists) where
  -- the last part of `dispatch`, behind `isVisited`
  unfoldable pub dispatch_new : FunctionDecl → Action Visitor
  dispatch_new d v =
      if d.is_variadic
      then (if not cfg.mocking.mock_variadic_functions
          then ok v
          else elim d.parameters [ [] ↦ exit | p ∷ ps ↦ ok (add_function d v) ])
      else ok (add_function d v)

  -- the blacklists, on the qualified name in `Buffer_`, and `isVisited`
  unfoldable pub dispatch_named : FunctionDecl → Action Visitor
  dispatch_named d v =
      if mem_str v.buffer lists.names
      then ok
          (report cfg (say "skipping \"" ∷ say v.buffer ∷ say "\" due to blacklist entry\n" ∷ []) v)
      else elim (find_glob v.buffer lists.globs) [
        | some pattern ↦ ok (
            report cfg
              (say "skipping \""
                ∷ say v.buffer
                ∷ say "\" due to blacklist entry \""
                ∷ say pattern
                ∷ say "\"\n"
                ∷ [])
              v)
        | none ↦ let (seen, v') = is_visited d.id v in if seen then ok v' else dispatch_new d v'
      ]

  -- the builtin functions, and what of `dispatch` follows them
  unfoldable pub dispatch_builtin : FunctionDecl → Action Visitor
  dispatch_builtin d v =
      let next = dispatch_named d (record v { buffer = d.qualified_name }) in
      if d.builtin_id == 0
      then next
      else if starts_with d.name "__builtin_" && not cfg.mocking.mock_builtins
      then ok (report cfg (say "skipping builtin \"" ∷ say d.name ∷ say "\"\n" ∷ []) v)
      else if d.is_in_std_namespace && not cfg.mocking.mock_cxx_std_lib
      then ok (
          report cfg
            (say "skipping C++ standard library function \""
              ∷ say d.qualified_name
              ∷ say "\"\n"
              ∷ [])
            v)
      else if not cfg.mocking.mock_c_std_lib
      then ok (
          report cfg
            (say "skipping C standard library function \"" ∷ say d.qualified_name ∷ say "\"\n" ∷ [])
            v)
      else next

  unfoldable pub dispatch : Bool → Option FunctionDecl → Action Visitor
  dispatch in_main_file none v = ok v
  dispatch in_main_file (some d) v =
      if not in_main_file
      then ok v
      else if d.is_defined
      then ok v
      else if d.has_identifier && str_eq d.name "__errno_location"
      then ok v
      else dispatch_builtin d v

  -- the constructors and the destructor of a variable's class
  unfoldable pub dispatch_record : Bool → CxxRecord → List FunctionDecl → Action Visitor
  dispatch_record in_main_file r [] v = ok v
  dispatch_record in_main_file r (d ∷ ds) v =
      bind
        (if not d.is_defined
          then bind (dispatch in_main_file (some d) v) (dispatch in_main_file r.destructor)
          else ok v)
        (dispatch_record in_main_file r ds)

  -- the last part of `doVisitDeclRefExpr`
  unfoldable pub visit_var : VarDecl → Action Visitor
  visit_var d v =
      let w = record v { buffer = d.qualified_name } in
      if mem_str w.buffer internal_blacklist
      then ok (
          report cfg
            (say "skipping \"" ∷ say w.buffer ∷ say "\" due to internal blacklist entry\n" ∷ []) w)
      else if mem_str w.buffer lists.names
      then ok
          (report cfg (say "skipping \"" ∷ say w.buffer ∷ say "\" due to blacklist entry\n" ∷ []) w)
      else let (seen, w') = is_visited d.id w in if seen then ok w' else ok (add_var d w')

  abbrev dispatch_type : Bool → Option CxxRecord → Action Visitor
  dispatch_type in_main_file none v = ok v
  dispatch_type in_main_file (some r) v = dispatch_record in_main_file r r.ctors v

  unfoldable pub do_visit : Visit → Action Visitor
  do_visit (call_expr in_main_file callee) v = dispatch in_main_file callee v
  do_visit (cxx_construct_expr in_main_file ctor dtor) v =
      bind (dispatch in_main_file (some ctor) v) (dispatch in_main_file dtor)
  do_visit (decl_ref_expr in_main_file none) v = ok v
  do_visit (decl_ref_expr in_main_file (some d)) v =
      if not d.is_externally_visible
      then ok v
      else if not in_main_file
      then ok v
      else bind (dispatch_type in_main_file d.record_decl v) (visit_var d)

  unfoldable pub traverse : List Visit → Action Visitor
  traverse visits = for_each visits do_visit

-- `ASTVisitor::run`: the constructor and the walk. `create` is `llvm::GlobPattern::create`.
unfoldable pub run : (String → Option Glob) → Config → List Visit → Outcome Visitor
run create cfg visits =
    bind (make_blacklist create cfg.mocking.blacklist) (λ lists. traverse cfg lists visits initial)
