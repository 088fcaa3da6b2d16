-- ===== src/Visitor/Settings.antt =====
-- How the settings act on the walk: the blacklist's entries, verbosity, builtin functions.
use mathlib.Core.List.{append_assoc, append-nil}
use ccmock.Base.{
  String, Bool, true, false, not, ◌&&◌, Option, none, some, List, [], ◌∷◌, ◌++◌, ◌≡◌, refl, sym, ap,
  arith, ◌∙◌, if◌then◌else◌, mem_nat, any, keep, All, Outcome, ok, exit, fault, for_each,
}
use ccmock.Ast.{FunctionDecl, VarDecl}
use ccmock.Config.{Config}
use ccmock.Visitor.Blacklist.{Blacklists, Glob, is_pattern, fill_blacklist, make_blacklist}
use ccmock.Visitor.{Visit, Visitor, run, dispatch, visit_var}
use ccmock.Visitor.Selection.{
  func, var, is_candidate, collected, any_glob, is_candidate_var, collected_of,
}
use ccmock.Visitor.Steps.{admit, track, dispatch-Does, visit_var-Does}
use ccmock.Visitor.Collects.{run-selection, untracked, collected-tracked}
use ccmock.Visitor.Guarantees.{IsMockable, run-IsMockable}

-- a pattern that llvm refuses
abbrev pub is_malformed : (String → Option Glob) → String → Bool
is_malformed create name = is_pattern name && elim (create name) [ none ↦ true | some g ↦ false ]

-- the entries that are patterns, with their matchers
abbrev pub globs_of : (String → Option Glob) → List String → List (String × Glob)
globs_of create [] = []
globs_of create (name ∷ rest) =
    let later = globs_of create rest in
    if is_pattern name
    then elim (create name) [ none ↦ later | some g ↦ (name, g) ∷ later ]
    else later

-- the outcome of the loop over the entries that are left
abbrev filled : (String → Option Glob) → List String → Blacklists → Outcome Blacklists
filled create entries b =
    if any (is_malformed create) entries
    then exit
    else ok (record {
      names = b.names ++ keep (λ name. not (is_pattern name)) entries;
      globs = b.globs ++ globs_of create entries;
    })

module _ (create : String → Option Glob) (name : String) (rest : List String) where
  fill_blacklist-cons :
      (o : Option Glob) (b : Blacklists)
      → create name ≡ o
      → ((c : Blacklists) → fill_blacklist create rest c ≡ filled create rest c)
      → fill_blacklist create (name ∷ rest) b ≡ filled create (name ∷ rest) b
  unfolding fill_blacklist
  fill_blacklist-cons none b e later = ground (
    arith,
    later (record b { names = b.names ++ name ∷ [] }),
    append_assoc b.names (name ∷ []) (keep (λ n. not (is_pattern n)) rest),
  )
  fill_blacklist-cons (some g) b e later = ground (
    arith,
    later (record b { names = b.names ++ name ∷ [] }),
    append_assoc b.names (name ∷ []) (keep (λ n. not (is_pattern n)) rest),
    later (record b { globs = b.globs ++ (name, g) ∷ [] }),
    append_assoc b.globs ((name, g) ∷ []) (globs_of create rest),
  )

fill_blacklist-eq :
    (create : String → Option Glob) (entries : List String) (b : Blacklists)
    → fill_blacklist create entries b ≡ filled create entries b
unfolding fill_blacklist
fill_blacklist-eq create [] b = ground (arith, append-nil b.names, append-nil b.globs)
fill_blacklist-eq create (name ∷ rest) b =
    fill_blacklist-cons create name rest (create name) b refl (fill_blacklist-eq create rest)

-- The visitor's constructor exits exactly where the blacklist has a malformed pattern; otherwise
-- it splits the entries, in their order, into the plain names and the patterns with their matchers.
pub make_blacklist-filled :
    (create : String → Option Glob) (entries : List String)
    → make_blacklist create entries ≡ (
        if any (is_malformed create) entries
        then exit
        else ok (record {
          names = keep (λ name. not (is_pattern name)) entries;
          globs = globs_of create entries;
        }))
unfolding make_blacklist
make_blacklist-filled create entries =
    fill_blacklist-eq create entries (record { names = []; globs = [] })

-- Every builtin function is left out unless the C standard library is mocked, whatever
-- `MockBuiltins` and `MockC++StdLib` say.
pub builtin_needs_c_std_lib :
    (create : String → Option Glob) (cfg : Config) (visits : List Visit) {v : Visitor}
    → run create cfg visits ≡ ok v
    → cfg.mocking.mock_c_std_lib ≡ false
    → All (λ d. d.builtin_id ≡ 0) v.function_decls
builtin_needs_c_std_lib create cfg visits {v} done off =
    let (lists, made, functions, vars) = run-IsMockable create cfg visits done in
    no_builtin lists v.function_decls functions
  where
    no_builtin :
        (lists : Blacklists) (ds : List FunctionDecl)
        → All (IsMockable cfg lists) ds
        → All (λ d. d.builtin_id ≡ 0) ds
    no_builtin lists [] h = tt
    no_builtin lists (d ∷ ds) h = (ground (arith, h.0.candidate), no_builtin lists ds h.1)

abbrev pub with_verbose : Bool → Config → Config
with_verbose b cfg = record cfg { general = record (cfg.general) { verbose = b } }

-- Verbose runs collect what silent runs collect, and exit where they exit.
pub run-with_verbose :
    (b : Bool) (create : String → Option Glob) (cfg : Config) (visits : List Visit)
    → collected (run create (with_verbose b cfg) visits) ≡ collected (run create cfg visits)
unfolding run
run-with_verbose b create cfg visits = go (make_blacklist create cfg.mocking.blacklist) refl
  where
    go :
        (o : Outcome Blacklists)
        → make_blacklist create cfg.mocking.blacklist ≡ o
        → collected (run create (with_verbose b cfg) visits) ≡ collected (run create cfg visits)
    go (ok lists) e =
        run-selection create (with_verbose b cfg) visits e ∙ sym (run-selection create cfg visits e)
    go exit e = rw e
    go fault e = rw e

matched-not_candidate :
    (cfg : Config) (lists : Blacklists) (f : FunctionDecl)
    → any_glob f.qualified_name lists.globs ≡ true
    → is_candidate cfg.mocking lists f ≡ false
matched-not_candidate cfg lists f h = ground arith

-- an offer that is made only under a test
keeps_out :
    (cfg : Config) (f : FunctionDecl) (v : Visitor) (candidate : Bool)
    → candidate ≡ false
    → untracked (for_each (if candidate then func f ∷ [] else []) (admit cfg) (track v))
      ≡ ok (collected_of v)
keeps_out cfg f v true h = absurd (ground arith)
keeps_out cfg f v false h = refl

lets_in :
    (cfg : Config) (d : VarDecl) (v : Visitor) (candidate : Bool)
    → candidate ≡ true
    → mem_nat d.id v.visited ≡ false
    → untracked (for_each (if candidate then var d ∷ [] else []) (admit cfg) (track v))
      ≡ ok (record (collected_of v) { var_decls = v.var_decls ++ d ∷ [] })
lets_in cfg d v true h new = rw new refl
lets_in cfg d v false h new = absurd (ground arith)

-- A glob pattern of the blacklist keeps a function out and leaves a variable of the same name in:
-- a call of the function changes none of the lists, and a reference to the variable, if no plain
-- entry names it and it was not visited before, appends it to the variables.
pub glob_spares_variables :
    (cfg : Config) (lists : Blacklists) (f : FunctionDecl) (d : VarDecl) (v : Visitor)
    → f.qualified_name ≡ d.qualified_name
    → any_glob d.qualified_name lists.globs ≡ true
    → is_candidate_var lists d ≡ true
    → mem_nat d.id v.visited ≡ false
    → (collected (dispatch cfg lists true (some f) v) ≡ ok (collected_of v))
      × (collected (visit_var cfg lists d v)
          ≡ ok (record (collected_of v) { var_decls = v.var_decls ++ d ∷ [] }))
glob_spares_variables cfg lists f d v same matches plain new = (
  sym (collected-tracked (dispatch cfg lists true (some f) v))
      ∙ ap untracked (dispatch-Does cfg lists true (some f) v)
      ∙ keeps_out cfg f v (is_candidate cfg.mocking lists f)
          (matched-not_candidate cfg lists f matched),
  sym (collected-tracked (visit_var cfg lists d v))
      ∙ ap untracked (visit_var-Does cfg lists d v)
      ∙ lets_in cfg d v (is_candidate_var lists d) plain new,
)
  where
    matched : any_glob f.qualified_name lists.globs ≡ true
    matched = ap (λ name. any_glob name lists.globs) same ∙ matches
