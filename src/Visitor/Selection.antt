-- ===== src/Visitor/Selection.antt =====
-- What the visitor is meant to collect, said without its state: the offered declarations that pass
-- the filters, each at its first occurrence.
use ccmock.Base.{
  mem_str, ℕ, String, Bool, true, false, not, ◌&&◌, ◌||◌, Option, none, some, List, [], ◌∷◌, ◌++◌,
  ◌==◌, str_eq, starts_with, if◌then◌else◌, mem_nat, any, Outcome, ok, exit, fault,
}
use ccmock.Ast.{FunctionDecl, VarDecl, CxxRecord}
use ccmock.Config.{MockingSection}
use ccmock.Visitor.Blacklist.{Blacklists, Glob, internal_blacklist}
use ccmock.Visitor.{Visit, call_expr, cxx_construct_expr, decl_ref_expr, Visitor}

pub data Entity : Type 0 where
  func : FunctionDecl → Entity
  var : VarDecl → Entity

abbrev pub entity_id : Entity → ℕ
entity_id (func d) = d.id
entity_id (var d) = d.id

-- some glob pattern matches
abbrev pub any_glob : String → List (String × Glob) → Bool
any_glob name [] = false
any_glob name ((pattern, glob) ∷ rest) = glob name || any_glob name rest

-- A builtin function may be mocked: every setting that covers it allows it.
abbrev pub allows_builtin : MockingSection → FunctionDecl → Bool
allows_builtin mocking d =
    d.builtin_id == 0
    || ((not (starts_with d.name "__builtin_") || mocking.mock_builtins)
        && ((not d.is_in_std_namespace || mocking.mock_cxx_std_lib) && mocking.mock_c_std_lib))

abbrev pub is_candidate : MockingSection → Blacklists → FunctionDecl → Bool
is_candidate mocking lists d =
    not d.is_defined
    && (not (d.has_identifier && str_eq d.name "__errno_location")
        && (allows_builtin mocking d
            && (not (mem_str d.qualified_name lists.names)
                && not (any_glob d.qualified_name lists.globs))))

abbrev pub is_candidate_var : Blacklists → VarDecl → Bool
is_candidate_var lists d =
    not (mem_str d.qualified_name internal_blacklist) && not (mem_str d.qualified_name lists.names)

module _ (mocking : MockingSection) (lists : Blacklists) where
  abbrev pub offer : Bool → Option FunctionDecl → List Entity
  offer in_main_file none = []
  offer in_main_file (some d) =
      if in_main_file && is_candidate mocking lists d then func d ∷ [] else []

  -- An undefined constructor is offered, and behind it the destructor.
  abbrev pub offer_record : Bool → Option FunctionDecl → List FunctionDecl → List Entity
  offer_record in_main_file dtor [] = []
  offer_record in_main_file dtor (d ∷ ds) =
      (if d.is_defined then [] else offer in_main_file (some d) ++ offer in_main_file dtor)
      ++ offer_record in_main_file dtor ds

  abbrev pub offer_type : Bool → Option CxxRecord → List Entity
  offer_type in_main_file none = []
  offer_type in_main_file (some r) = offer_record in_main_file r.destructor r.ctors

  abbrev pub offer_var : VarDecl → List Entity
  offer_var d = if is_candidate_var lists d then var d ∷ [] else []

  abbrev pub offer_visit : Visit → List Entity
  offer_visit (call_expr in_main_file callee) = offer in_main_file callee
  offer_visit (cxx_construct_expr in_main_file ctor dtor) =
      offer in_main_file (some ctor) ++ offer in_main_file dtor
  offer_visit (decl_ref_expr in_main_file none) = []
  offer_visit (decl_ref_expr in_main_file (some d)) =
      if d.is_externally_visible && in_main_file
      then offer_type in_main_file d.record_decl ++ offer_var d
      else []

  -- All that the visits offer, in their order.
  unfoldable pub offers : List Visit → List Entity
  offers [] = []
  offers (x ∷ xs) = offer_visit x ++ offers xs

-- The entities whose identities are not in `seen`, each at its first occurrence.
unfoldable pub first_occurrences : List ℕ → List Entity → List Entity
first_occurrences seen [] = []
first_occurrences seen (e ∷ es) = elim (mem_nat (entity_id e) seen) [
  | true ↦ first_occurrences seen es
  | false ↦ e ∷ first_occurrences (entity_id e ∷ seen) es
]

abbrev pub has_no_parameters : FunctionDecl → Bool
has_no_parameters d = elim d.parameters [ [] ↦ true | p ∷ ps ↦ false ]

-- A variadic function that ought to be mocked, and has no named parameter for `va_start`.
abbrev pub is_unmockable : MockingSection → Entity → Bool
is_unmockable mocking (func d) =
    d.is_variadic && (mocking.mock_variadic_functions && has_no_parameters d)
is_unmockable mocking (var d) = false

abbrev pub is_mocked : MockingSection → FunctionDecl → Bool
is_mocked mocking d = not d.is_variadic || mocking.mock_variadic_functions

unfoldable pub functions_of : MockingSection → List Entity → List FunctionDecl
functions_of mocking [] = []
functions_of mocking (func d ∷ es) =
    let rest = functions_of mocking es in if is_mocked mocking d then d ∷ rest else rest
functions_of mocking (var d ∷ es) = functions_of mocking es

unfoldable pub vars_of : List Entity → List VarDecl
vars_of [] = []
vars_of (func d ∷ es) = vars_of es
vars_of (var d ∷ es) = d ∷ vars_of es

-- What the generator gets from the walk.
pub record Collected : Type 0 where
  pub function_decls : List FunctionDecl
  pub var_decls : List VarDecl
  pub any_variadic : Bool

abbrev pub collected_of : Visitor → Collected
collected_of v = record {
  function_decls = v.function_decls;
  var_decls = v.var_decls;
  any_variadic = v.any_variadic;
}

abbrev pub collected : Outcome Visitor → Outcome Collected
collected (ok v) = ok (collected_of v)
collected exit = exit
collected fault = fault

-- The specification of the walk, from the entities that are new.
abbrev pub selection : MockingSection → List Entity → Outcome Collected
selection mocking fresh =
    if any (is_unmockable mocking) fresh
    then exit
    else ok (record {
      function_decls = functions_of mocking fresh;
      var_decls = vars_of fresh;
      any_variadic = any (λ d. d.is_variadic) (functions_of mocking fresh);
    })
