-- ===== src/Witnesses/Backends.antt =====
-- The generators of output/ on the sample.
use ccmock.Base.{
  any, when, for_each_from, ◌++◌, ℕ, ◌==◌, String, true, false, some, List, [], ◌∷◌, ◌≡◌, ◌↔◌, ◌⊎◌,
  refl, arith, inl, inr, Option-cases, Bool-cases, decimal, if◌then◌else◌, All, spaces, ◌<>◌, ok,
  ◌>>◌,
}
use ccmock.Ast.{is_translation_unit, FunctionDecl}
use ccmock.Config.{default_gmock, default_cmocka}
use ccmock.Sample.{
  char_pointer, int_type, sample, insertion_order, dispatch_decl, next_decl, count_decl, parameter,
  callback,
}
use ccmock.Writer.{new_writer, append, write, mock_name}
use ccmock.Writer.{Writer}
use ccmock.Writer.Texts.{Holds}
use ccmock.Contexts.{is_global_context, insert_child, create_context_map}
use ccmock.Contexts.Laws.{IsRooted, IsNested, IsNamed}
use ccmock.Contexts.Links.{has_child, SomeLink, create_context_map-SomeLink}
use ccmock.Gmock.{
  gmock_policy, requires_pointer_variable, write_pointer_definitions, State, top_context,
  write_mock_pointer_access, write_qualified_mock_declaration_name, write_config_pointer_name,
  write_fixture_variable_access, write_fixture_variable_name,
}
use ccmock.Gmock
use ccmock.Gmock.Pointers.{write_fixture_variable_access-write_fixture_variable_name}
use ccmock.Gmock.Defined.{
  pointer_of, definition_line, write_mock_pointer_access-write_pointer_definition,
}
use ccmock.Gmock.Appends.{IsWritable}
use ccmock.Gmock.ClassWalk.{HasFunctions}
use ccmock.Gmock.Stable.{run-create_context_map}
use ccmock.Contexts.Entries.{Within, IsOrder}
use ccmock.Gmock.Total.{run-ok}
use ccmock.Cmocka
use ccmock.Cmocka.Outputs.{write_function_body-is_out_param}
use ccmock.Fff
use ccmock.Fff.DistinctTypedefs.{typedef_types, write_typedefs-AllDistinct}
use ccmock.Visitor.Distinct.{AllDistinct}
use ccmock.Gmock.Arguments.{write_last_argument-write_argument}
use ccmock.Fff.Typedefs.{HasTypedef, write_typedefs-HasTypedef}

abbrev pub depth : ℕ → ℕ
depth c = if c == 0 then 0 else if c == 2 then 2 else 1

pub sample-IsNested : IsNested sample depth
sample-IsNested = record {
  bounded = λ c. ground arith;
  parent_depth = λ c p e. ground arith;
  primary_depth = λ c. refl;
}

pub sample-IsNamed : IsNamed sample
sample-IsNamed = record {
  root_kind = λ c e. ground arith;
  root_parent = λ c e. ground arith;
  root_name = λ c e. ground arith;
  inner_name = λ c p e. named c e;
}
  where
    named :
        (c : ℕ) {p : ℕ} → sample.parent c ≡ some p → (name : String) × (sample.name c ≡ some name)
    named c e = elim (Option-cases (sample.name c)) [ inl n ↦ absurd (ground arith) | inr r ↦ r ]

pub sample-HasFunctions : HasFunctions sample
unfolding mock_name
sample-HasFunctions = record {
  function_of = λ c e. elim (Bool-cases (c == 2)) [
    | inl two ↦ (dispatch_decl, ground arith, "dispatch", refl)
    | inr more ↦ (next_decl, ground arith, "next", refl)
  ];
}

pub insertion_order-IsOrder : IsOrder insertion_order
insertion_order-IsOrder = record { of_set_mem = λ x cs h. h }

abbrev pub both : List FunctionDecl
both = dispatch_decl ∷ next_decl ∷ []

pub both-IsWritable : All (IsWritable sample) both
unfolding mock_name
both-IsWritable = (
  record { called = ("dispatch", refl); enclosed = (1, refl); parameters = λ e. refl },
  (record { called = ("next", refl); enclosed = (0, refl); parameters = λ e. refl }, tt),
)

abbrev pub start : State
start = record { writer = new_writer gmock_policy; context_map = [] }

run-ok_example :
    (t : State) × (Gmock.run sample insertion_order default_gmock true both (count_decl ∷ []) start
      ≡ ok t)
    × Within (create_context_map sample both) t.context_map
run-ok_example =
    run-ok sample depth sample-IsNested sample-IsNamed insertion_order default_gmock
      sample-HasFunctions insertion_order-IsOrder true both (count_decl ∷ []) start both-IsWritable

sample_map : create_context_map sample both ≡ (1, 2 ∷ []) ∷ (0, 1 ∷ 3 ∷ []) ∷ []
unfolding create_context_map insert_child
sample_map = refl

sample_top : sample.name 1 ≡ sample.name (top_context sample 3 2)
unfolding top_context
sample_top = refl

sample_requires : requires_pointer_variable sample 1 (2 ∷ []) ≡ true
unfolding requires_pointer_variable
sample_requires = refl

write_mock_pointer_access-write_pointer_definition_example :
    (is_global_context sample (top_context sample 3 2) ≡ true)
    × ((class' : String) × ((n : ℕ) (v : Writer)
          → write_mock_pointer_access sample default_gmock 2 n v
            ≡ ok (append (spaces n <> pointer_of default_gmock class') v))
        × ((text : String) × (write_pointer_definitions sample insertion_order default_gmock
                (create_context_map sample both)
                start.writer
              ≡ ok (append text start.writer))
            × Holds (definition_line default_gmock class') text))
write_mock_pointer_access-write_pointer_definition_example =
    write_mock_pointer_access-write_pointer_definition sample depth sample-IsNested sample-IsNamed
      default_gmock insertion_order 2 1 (2 ∷ []) (create_context_map sample both) []
      ((0, 1 ∷ 3 ∷ []) ∷ []) sample_map sample_top sample_requires start.writer

root-global : is_global_context sample 0 ≡ true
unfolding is_global_context
root-global = refl

write_fixture_variable_access-write_fixture_variable_name_example :
    (write_fixture_variable_access sample default_gmock 0 start.writer
      ≡ (do write "(*this)"; write "."; write_fixture_variable_name sample 0) start.writer)
    ↔ ((is_translation_unit (sample.kind 0) ≡ false) ⊎ (default_gmock.global_namespace_name ≡ "_"))
write_fixture_variable_access-write_fixture_variable_name_example =
    write_fixture_variable_access-write_fixture_variable_name sample depth sample-IsNested
      sample-IsNamed default_gmock 0 start.writer root-global

create_context_map-SomeLink_example :
    (has_child (create_context_map sample both) 1 2 ≡ true) ↔ SomeLink sample both 1 2
create_context_map-SomeLink_example =
    create_context_map-SomeLink sample depth sample-IsNested both 1 2

abbrev pub visit_decl : FunctionDecl
visit_decl = record dispatch_decl { parameters = parameter "visit" callback ∷ [] }

abbrev pub fff_start : Fff.State
fff_start = record { writer = new_writer gmock_policy; typedef_map = [] }

abbrev fff_end : Fff.State
fff_end = record {
  writer = record { policy = gmock_policy; buffer = "typedef callback dispatch_fn1_t;\n\n" };
  typedef_map = (4, "dispatch_fn1_t") ∷ [];
}

typedefs_written : Fff.write_typedefs (visit_decl ∷ next_decl ∷ []) fff_start ≡ ok fff_end
unfolding Fff.write_typedefs decimal
typedefs_written = refl

write_typedefs-HasTypedef_example :
    All (λ d. All (HasTypedef fff_end.typedef_map) d.parameters) (visit_decl ∷ next_decl ∷ [])
    × ((k : ℕ) (name : String)
        → Fff.find_typedef fff_start.typedef_map k ≡ some name
        → Fff.find_typedef fff_end.typedef_map k ≡ some name)
write_typedefs-HasTypedef_example =
    write_typedefs-HasTypedef (visit_decl ∷ next_decl ∷ []) fff_start typedefs_written

write_typedefs-AllDistinct_example : AllDistinct (typedef_types fff_end.typedef_map)
write_typedefs-AllDistinct_example =
    write_typedefs-AllDistinct (visit_decl ∷ next_decl ∷ []) fff_start tt typedefs_written

write_last_argument-write_argument_example :
    Gmock.write_last_argument
      ((parameter "s" char_pointer ∷ []) ++ parameter "" int_type ∷ [])
      start.writer
    ≡ Gmock.write_argument 1 (parameter "" int_type) start.writer
write_last_argument-write_argument_example =
    write_last_argument-write_argument (parameter "s" char_pointer ∷ []) (parameter "" int_type)
      start.writer

no_outputs : any Cmocka.is_out_param next_decl.parameters ≡ false
unfolding Cmocka.is_out_param
no_outputs = refl

write_function_body-is_out_param_example :
    Cmocka.write_function_body default_cmocka next_decl start.writer
    ≡ (do
      write "{\n"
      when true (write "    function_called();\n")
      when true (do write "\n"; for_each_from 0 next_decl.parameters Cmocka.write_check)
      when true (write "\n")
      Cmocka.write_return next_decl.return_type
      write "}\n")
        start.writer
write_function_body-is_out_param_example =
    write_function_body-is_out_param default_cmocka next_decl start.writer no_outputs

pub sample-IsRooted : IsRooted sample
sample-IsRooted = record { only_root = λ c e. ground arith }

run-create_context_map_example :
    (t : State) × (Gmock.run sample insertion_order default_gmock true both (count_decl ∷ []) start
      ≡ ok t)
    × (t.context_map ≡ create_context_map sample both)
run-create_context_map_example =
    run-create_context_map sample depth sample-IsNested sample-IsNamed sample-IsRooted
      sample-HasFunctions insertion_order insertion_order-IsOrder default_gmock true dispatch_decl
      (next_decl ∷ []) (count_decl ∷ []) start both-IsWritable (refl, (refl, tt))
