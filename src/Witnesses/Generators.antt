-- ===== src/Witnesses/Generators.antt =====
-- The FFF and Raw generators on the sample, alone and in a run from the walk to the output.
use ccmock.Base.{
  true, false, ◌↔◌, is_empty, for_each_from, ◌==◌, ℕ, String, some, List, [], ◌∷◌, ◌≡◌, ◌⊎◌, refl,
  inl, inr, arith, Bool-cases, All, ok,
}
use ccmock.Ast.{as_none, FunctionDecl, ParmVarDecl}
use ccmock.Config.{Config, raw}
use ccmock.Sample.{sample, insertion_order, dispatch_decl, next_decl, parameter, int_type}
use ccmock.Writer.{append}
use ccmock.Writer.Braces.{IsBalanced, depth_behind}
use ccmock.Generator.{Sink}
use ccmock.Visitor
use ccmock.Visitor.{run}
use ccmock.Raw
use ccmock.Raw.Prints.{IsBraced}
use ccmock.Raw.Statements.{HasFunctionDecls}
use ccmock.Contexts.Reaches.{IsContained, IsOwn}
use ccmock.Raw.Shows.{IsDeclared}
use ccmock.Contexts.Entries.{IsExhaustive}
use ccmock.Raw.Complete.{run-IsDeclared}
use ccmock.Raw.Balance.{run-IsBalanced}
use ccmock.MockAction.{generate}
use ccmock.MockAction.Backends.{generate-ne-gmock}
use ccmock.Gmock
use ccmock.Gmock.{gmock_policy}
use ccmock.Gmock.CallText.{passed, write_call_argument-passed, write_argument-eq_iff}
use ccmock.Writer.{write_function_parameter_list, argument_name}
use ccmock.Writer.Separated.{Texts, join}
use ccmock.Writer.ParameterList.{
  Declares, list_text, ellipsis, write_function_parameter_list-Declares,
}
use ccmock.Witnesses.Walk.{prefix_glob, cfg, visits, walked, walk_ends}
use ccmock.Witnesses.Backends.{
  depth, sample-IsNested, sample-IsNamed, sample-IsRooted, insertion_order-IsOrder, start, both,
}
use ccmock.Witnesses.Whole.{surroundings}

sample-names :
    (c : ℕ) (name : String)
    → sample.name c ≡ some name
    → (name ≡ "util") ⊎ ((name ≡ "dispatch") ⊎ ((name ≡ "next") ⊎ (name ≡ "")))
sample-names c name e = ground arith

sample-functions :
    (c : ℕ) (d : FunctionDecl) → sample.function c ≡ some d → (d ≡ dispatch_decl) ⊎ (d ≡ next_decl)
sample-functions c d e = ground arith

pub sample-IsBraced : IsBraced sample
unfolding depth_behind
sample-IsBraced = record {
  name_balanced = λ c name e n. elim (sample-names c name e) [
    | inl p ↦ rw p refl
    | inr (inl p) ↦ rw p refl
    | inr (inr (inl p)) ↦ rw p refl
    | inr (inr (inr p)) ↦ rw p refl
  ];
  declaration_balanced =
      λ c d policy n e m. elim (sample-functions c d e) [ inl p ↦ rw p refl | inr p ↦ rw p refl ];
}

pub sample-HasFunctionDecls : HasFunctionDecls sample
sample-HasFunctionDecls = record {
  function_of = λ c e. elim (Bool-cases (c == 2)) [
    | inl two ↦ (dispatch_decl, ground arith)
    | inr more ↦ (next_decl, ground arith)
  ];
}

abbrev raw_start : Raw.State
raw_start = record { writer = start.writer; context_map = []; current_access = as_none }

run-IsBalanced_example :
    (t : Raw.State) × (text : String) × (Raw.run sample insertion_order both raw_start ≡ ok t)
    × (t.writer ≡ append text raw_start.writer)
    × IsBalanced text
run-IsBalanced_example =
    run-IsBalanced sample depth sample-IsNested sample-IsNamed sample-IsBraced
      sample-HasFunctionDecls insertion_order insertion_order-IsOrder both raw_start

abbrev raw_cfg : Config
raw_cfg = record cfg { mocking = record (cfg.mocking) { backend = raw } }

raw_walk_ends : run prefix_glob raw_cfg visits ≡ ok walked
unfolding run Visitor.traverse Visitor.do_visit Visitor.dispatch Visitor.visit_var
    Visitor.dispatch_builtin Visitor.report Visitor.dispatch_named Visitor.dispatch_new
raw_walk_ends = walk_ends

generate-ne-gmock_example :
    (s : Sink) × (generate sample insertion_order raw_cfg surroundings prefix_glob gmock_policy
        visits
      ≡ ok s)
generate-ne-gmock_example =
    generate-ne-gmock sample depth sample-IsNested sample-IsNamed sample-IsBraced
      sample-HasFunctionDecls insertion_order insertion_order-IsOrder raw_cfg surroundings
      prefix_glob gmock_policy visits raw_walk_ends (cc) (inl refl)

write_function_parameter_list-Declares_example :
    (ts : List String) × Texts (Declares gmock_policy) 0 next_decl.parameters ts
    × (write_function_parameter_list next_decl true false start.writer
        ≡ ok (
            append
              (list_text gmock_policy (ellipsis next_decl false) next_decl.parameters ts)
              start.writer))
write_function_parameter_list-Declares_example =
    write_function_parameter_list-Declares next_decl false start.writer

abbrev unnamed_then_arg1 : List ParmVarDecl
unnamed_then_arg1 = parameter "" int_type ∷ parameter "arg1" int_type ∷ []

write_call_argument-passed_example :
    (ts : List String) × (for_each_from 0 unnamed_then_arg1 Gmock.write_call_argument start.writer
      ≡ ok (append (join ts) start.writer))
    × Texts (λ i p t. t ≡ passed i p) 0 unnamed_then_arg1 ts
write_call_argument-passed_example = write_call_argument-passed unnamed_then_arg1 start.writer

write_argument-eq_iff_example :
    (Gmock.write_argument 0 (parameter "" int_type) start.writer
      ≡ Gmock.write_argument 1 (parameter "arg1" int_type) start.writer)
    ↔ (((is_empty "" ≡ true) × (is_empty "arg1" ≡ false) × ("arg1" ≡ argument_name 0))
        ⊎ ((is_empty "arg1" ≡ true) × (is_empty "" ≡ false) × ("" ≡ argument_name 1)))
write_argument-eq_iff_example =
    write_argument-eq_iff 0 1 (parameter "" int_type) (parameter "arg1" int_type) start.writer
      (omega arith) (λ e. refl)

pub sample-IsContained : IsContained sample
sample-IsContained = record { parent_kind = λ c p e. ground arith }

pub insertion_order-IsExhaustive : IsExhaustive insertion_order
insertion_order-IsExhaustive = record { mem_of_set = λ x cs h. h }

pub both-IsOwn : All (IsOwn sample) both
both-IsOwn = (
  record { leaf = refl; itself = refl; enclosed = (1, refl) },
  (record { leaf = refl; itself = refl; enclosed = (0, refl) }, tt),
)

run-IsDeclared_example :
    (t : Raw.State) × (text : String) × (Raw.run sample insertion_order both raw_start ≡ ok t)
    × (t.writer ≡ append text raw_start.writer)
    × All (λ d. IsDeclared gmock_policy d text) both
run-IsDeclared_example =
    run-IsDeclared sample depth sample-IsNested sample-IsNamed sample-IsRooted sample-IsContained
      sample-IsBraced sample-HasFunctionDecls insertion_order insertion_order-IsOrder
      insertion_order-IsExhaustive both raw_start both-IsOwn
