-- ===== src/Witnesses/Walk.antt =====
-- The walk of output/OutputGenerator.cpp on the sample.
use Prim.Native.String.{String}
use ccmock.Base.{
  true, false, Option, none, some, List, [], ◌∷◌, ◌++◌, ◌≡◌, refl, if◌then◌else◌, All, ok, exit,
  str_eq, starts_with, any, keep, not,
}
use ccmock.Ast.{FunctionDecl, VarDecl}
use ccmock.Config.{Config, default_config}
use ccmock.Sample.{dispatch_decl, next_decl, count_decl}
use ccmock.Visitor
use ccmock.Visitor.{
  Glob, Blacklists, make_blacklist, is_pattern, Visit, call_expr, decl_ref_expr, Visitor, initial,
  run, dispatch, visit_var,
}
use ccmock.Visitor.Selection.{collected, collected_of, selection, first_occurrences, offers}
use ccmock.Visitor.Collects.{run-selection}
use ccmock.Visitor.Guarantees.{IsMockable, IsMockableVar, run-IsMockable}
use ccmock.Visitor.Distinct.{AllDistinct, function_ids, var_ids, run-AllDistinct}
use ccmock.Visitor.Settings.{
  is_malformed, globs_of, make_blacklist-filled, builtin_needs_c_std_lib, with_verbose,
  run-with_verbose, glob_spares_variables,
}

-- A matcher that knows one kind of pattern: a text before `*`.
abbrev pub prefix_glob : String → Option Glob
prefix_glob pattern = if str_eq pattern "log*" then some (λ name. starts_with name "log") else none

abbrev pub cfg : Config
cfg = record default_config {
  mocking = record (default_config.mocking) { blacklist = "log*" ∷ "abort" ∷ [] };
}

abbrev lists : Blacklists
lists = record { names = "abort" ∷ []; globs = ("log*", λ name. starts_with name "log") ∷ [] }

abbrev log_decl : FunctionDecl
log_decl = record (dispatch_decl) { id = 20; name = "log_line"; qualified_name = "log_line" }

abbrev log_count : VarDecl
log_count = record count_decl { id = 21; qualified_name = "log_line" }

-- two calls of one function, one that the blacklist keeps out, and a variable
abbrev pub visits : List Visit
visits =
    call_expr true (some dispatch_decl)
    ∷ call_expr true (some log_decl)
    ∷ call_expr true (some next_decl)
    ∷ call_expr true (some dispatch_decl)
    ∷ call_expr false (some log_decl)
    ∷ decl_ref_expr true (some count_decl)
    ∷ decl_ref_expr true none
    ∷ []

lists_made : make_blacklist prefix_glob cfg.mocking.blacklist ≡ ok lists
unfolding make_blacklist is_pattern
lists_made = refl

abbrev pub walked : Visitor
walked = record {
  visited = 12 ∷ 11 ∷ 10 ∷ [];
  buffer = "count";
  function_decls = dispatch_decl ∷ next_decl ∷ [];
  var_decls = count_decl ∷ [];
  any_variadic = true;
  log = [];
}

pub walk_ends : run prefix_glob cfg visits ≡ ok walked
unfolding run make_blacklist is_pattern Visitor.traverse Visitor.do_visit dispatch
    Visitor.dispatch_builtin Visitor.dispatch_named Visitor.find_glob Visitor.is_visited
    Visitor.dispatch_new Visitor.report Visitor.add_function visit_var Visitor.add_var
walk_ends = refl

run-selection_example :
    collected (run prefix_glob cfg visits)
    ≡ selection cfg.mocking (first_occurrences [] (offers cfg.mocking lists visits))
run-selection_example = run-selection prefix_glob cfg visits lists_made

run-AllDistinct_example :
    AllDistinct (function_ids walked.function_decls ++ var_ids walked.var_decls)
run-AllDistinct_example = run-AllDistinct prefix_glob cfg visits walk_ends

run-IsMockable_example :
    (lists : Blacklists) × (make_blacklist prefix_glob cfg.mocking.blacklist ≡ ok lists)
    × All (IsMockable cfg lists) walked.function_decls
    × All (IsMockableVar lists) walked.var_decls
run-IsMockable_example = run-IsMockable prefix_glob cfg visits walk_ends

make_blacklist-filled_example : make_blacklist prefix_glob ("log*" ∷ "abort" ∷ "ab[" ∷ []) ≡ (
    if any (is_malformed prefix_glob) ("log*" ∷ "abort" ∷ "ab[" ∷ [])
    then exit
    else ok (record {
      names = keep (λ name. not (is_pattern name)) ("log*" ∷ "abort" ∷ "ab[" ∷ []);
      globs = globs_of prefix_glob ("log*" ∷ "abort" ∷ "ab[" ∷ []);
    }))
make_blacklist-filled_example = make_blacklist-filled prefix_glob ("log*" ∷ "abort" ∷ "ab[" ∷ [])

builtin_needs_c_std_lib_example : All (λ d. d.builtin_id ≡ 0) walked.function_decls
builtin_needs_c_std_lib_example = builtin_needs_c_std_lib prefix_glob cfg visits walk_ends refl

run-with_verbose_example :
    collected (run prefix_glob (with_verbose true cfg) visits)
    ≡ collected (run prefix_glob cfg visits)
run-with_verbose_example = run-with_verbose true prefix_glob cfg visits

glob_spares_variables_example :
    (collected (dispatch cfg lists true (some log_decl) walked) ≡ ok (collected_of walked))
    × (collected (visit_var cfg lists log_count walked)
        ≡ ok (record (collected_of walked) { var_decls = count_decl ∷ log_count ∷ [] }))
glob_spares_variables_example =
    glob_spares_variables cfg lists log_decl log_count walked refl refl refl refl
