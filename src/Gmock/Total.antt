-- ===== src/Gmock/Total.antt =====
-- output/GMock.cpp: the backend always succeeds on declarations that the walk can hand over.
use ccmock.Base.{true, mem_nat, sym, ◌∙◌, ℕ, suc, String, Bool, List, ◌≡◌, arith, All, ok}
use ccmock.Ast.{Ast, is_translation_unit, FunctionDecl, VarDecl}
use ccmock.Config.{GmockSection}
use ccmock.Writer.{append}
use ccmock.Writer.Appends.{
  Appends, appends, Appends-write, Appends-seq, Appends-test, Appends-for_each, Appends-with_name,
}
use ccmock.Contexts.{index_map, is_class_or_other, ContextMap, Order, create_context_map}
use ccmock.Contexts.Laws.{IsNested, IsNamed}
use ccmock.Contexts.Links.{has_child, create_context_map-SomeLink}
use ccmock.Generator.Appends.{Appends-write_macro_definitions, Appends-write_global_variables}
use ccmock.Gmock.Members.{State}
use ccmock.Gmock.Classes.{write_pointer_definition, write_pointer_definitions}
use ccmock.Gmock.Names.{write_qualified_mock_declaration_name, write_mock_pointer_access}
use ccmock.Gmock.Fixture.{
  write_fixture_variable_access, write_fixture_variable_name, write_set_up, write_tear_down,
  write_fixture_variable, write_fixture_set_up_function, write_fixture_tear_down_function,
  write_fixture_variables, write_fixture,
}
use ccmock.Gmock.Appends.{
  IsWritable, Appends-for_enclosing, Appends-for_each_where,
  Appends-write_qualified_mock_declaration_name, Appends-write_mock_pointer_access,
  Appends-write_config_pointer_name,
}
use ccmock.Gmock.Functions.{Appends-write_function}
use ccmock.Contexts.Entries.{
  Within, IsOrder, named_context, SomeLink-deeper, index_map-children, index_map-keeps,
}
use ccmock.Gmock.Passes.{Passes-emit, Passes-on_map, Passes-seq}
use ccmock.Gmock.ClassWalk.{HasFunctions, Passes-write_mock_class}
use ccmock.Gmock.{
  write_include_directives, write_main, write_mock_functions, initialize_context_map, run,
}

pub Appends-write_include_directives :
    (any_variadic : Bool) → Appends (write_include_directives any_variadic)
unfolding write_include_directives
Appends-write_include_directives any_variadic = search appends

module _ (ast : Ast) (depth : ℕ → ℕ) (nested : IsNested ast depth) (named : IsNamed ast)
    (order : Order) (cfg : GmockSection) where
  qualified : (c : ℕ) → Appends (write_qualified_mock_declaration_name ast cfg c)
  qualified c = Appends-write_qualified_mock_declaration_name ast depth nested named cfg c

  access : (c n : ℕ) → Appends (write_mock_pointer_access ast cfg c n)
  access c n = Appends-write_mock_pointer_access ast depth nested named cfg c n

  Appends-write_pointer_definition :
      (e : ℕ × List ℕ) → Appends (write_pointer_definition ast order cfg e)
  unfolding write_pointer_definition
  Appends-write_pointer_definition (c, children) =
      search (appends, qualified, Appends-write_config_pointer_name) depth 12

  Appends-fixture_variable_access : (c : ℕ) → Appends (write_fixture_variable_access ast cfg c)
  unfolding write_fixture_variable_access
  Appends-fixture_variable_access c = Appends-seq (Appends-write "(*this)") (
      Appends-test (is_translation_unit (ast.kind c)) (λ e. search appends)
        (λ e. Appends-for_enclosing ast depth nested named c _ (λ x (p, f).
          let (name, called) = named.inner_name x p f in
          Appends-with_name ast x _ called (search appends))))

  Appends-fixture_variable_name : (c : ℕ) → Appends (write_fixture_variable_name ast c)
  unfolding write_fixture_variable_name
  Appends-fixture_variable_name c =
      Appends-test (is_translation_unit (ast.kind c)) (λ e. Appends-write "_")
        (λ e.
          let (name, called) = named_context ast named c e in
          Appends-with_name ast c _ called (Appends-write name))

  Appends-write_set_up : (e : ℕ × List ℕ) → Appends (write_set_up ast order cfg e)
  unfolding write_set_up
  Appends-write_set_up (c, children) =
      search (appends, access, Appends-fixture_variable_access) depth 12

  Appends-write_tear_down : (e : ℕ × List ℕ) → Appends (write_tear_down ast order cfg e)
  unfolding write_tear_down
  Appends-write_tear_down (c, children) = search (appends, access) depth 12

  Appends-write_fixture_variable :
      (e : ℕ × List ℕ) → Appends (write_fixture_variable ast order cfg e)
  unfolding write_fixture_variable
  Appends-write_fixture_variable (c, children) =
      search (appends, qualified, Appends-fixture_variable_name) depth 12

  Appends-write_fixture_set_up_function :
      (m : ContextMap) → Appends (write_fixture_set_up_function ast order cfg m)
  unfolding write_fixture_set_up_function
  Appends-write_fixture_set_up_function m =
      Appends-seq (Appends-write _)
        (Appends-seq (Appends-for_each (order.of_map m) Appends-write_set_up) (Appends-write _))

  Appends-write_fixture_tear_down_function :
      (m : ContextMap) → Appends (write_fixture_tear_down_function ast order cfg m)
  unfolding write_fixture_tear_down_function
  Appends-write_fixture_tear_down_function m =
      Appends-seq (Appends-write _)
        (Appends-seq (Appends-for_each (order.of_map m) Appends-write_tear_down) (Appends-write _))

  Appends-write_fixture_variables :
      (m : ContextMap) → Appends (write_fixture_variables ast order cfg m)
  unfolding write_fixture_variables
  Appends-write_fixture_variables m =
      Appends-for_each (order.of_map m) Appends-write_fixture_variable

  pub Appends-write_fixture : (m : ContextMap) → Appends (write_fixture ast order cfg m)
  unfolding write_fixture
  Appends-write_fixture m =
      search
        (
          appends, Appends-write_fixture_set_up_function, Appends-write_fixture_tear_down_function,
          Appends-write_fixture_variables,
        )
        depth 20

  pub Appends-write_pointer_definitions :
      (m : ContextMap) → Appends (write_pointer_definitions ast order cfg m)
  unfolding write_pointer_definitions
  Appends-write_pointer_definitions m =
      Appends-for_each (order.of_map m) Appends-write_pointer_definition

  pub Appends-write_mock_functions :
      (functions : List FunctionDecl)
      → All (IsWritable ast) functions
      → Appends (write_mock_functions ast cfg functions)
  unfolding write_mock_functions
  Appends-write_mock_functions functions writable =
      Appends-for_each_where functions _ (Appends-write_function ast depth nested named cfg)
        writable

  pub Appends-write_main : Appends (write_main cfg)
  unfolding write_main
  Appends-write_main = search appends

  module _ (functions_named : HasFunctions ast) (ordered : IsOrder order) (I : ContextMap → Type 0)
      (Walked : ℕ → Type 0) (functions : List FunctionDecl)
      (children_of : (m : ContextMap) (c x : ℕ)
        → I m
        → mem_nat x (index_map c m).0 ≡ true
        → has_child (create_context_map ast functions) c x ≡ true)
      (keeps : (m : ContextMap) (c : ℕ) → I m → Walked c → I (index_map c m).1)
      (walk : (q x : ℕ)
        → has_child (create_context_map ast functions) q x ≡ true
        → is_class_or_other (ast.kind x) ≡ true
        → Walked x)
      (root : Walked ast.root) where
    -- `run`, whatever it is that the statements keep of the context map.
    pub run-Passes :
        (any_variadic : Bool) (vars : List VarDecl) (s : State)
        → All (IsWritable ast) functions
        → I (create_context_map ast functions)
        → (t : State) × (text : String) × (run ast order cfg any_variadic functions vars s ≡ ok t)
          × I t.context_map
          × (t.writer ≡ append text s.writer)
    unfolding run initialize_context_map
    run-Passes any_variadic vars s writable holds =
        let start = create_context_map ast functions in
        (Passes-seq I (Passes-emit I (Appends-write_include_directives any_variadic)) (
            Passes-seq I (Passes-emit I Appends-write_macro_definitions) (
              Passes-seq I
                (Passes-write_mock_class ast named cfg functions_named order ordered start I Walked
                  children_of keeps depth nested
                  (λ q x e.
                    SomeLink-deeper ast depth nested functions q x
                      ((create_context_map-SomeLink ast depth nested functions q x).0 e))
                  walk (suc ast.nesting) ast.root 0 (omega arith) (λ e. root))
                (Passes-seq I (Passes-on_map I Appends-write_pointer_definitions) (
                  Passes-seq I (Passes-on_map I Appends-write_fixture) (
                    Passes-seq I (Passes-emit I (Appends-write_mock_functions functions writable)) (
                      Passes-seq I (Passes-emit I (Appends-write_global_variables vars))
                        (Passes-emit I Appends-write_main)))))))).puts
          (record s { context_map = start }) holds

  module _ (functions_named : HasFunctions ast) (ordered : IsOrder order) where
    -- With nested, named contexts and functions that have mock names: the backend succeeds on all
    -- functions that have a mock name, an enclosing context and, if they are variadic, a parameter.
    -- It makes no link between contexts but those of the functions.
    pub run-ok :
        (any_variadic : Bool) (functions : List FunctionDecl) (vars : List VarDecl) (s : State)
        → All (IsWritable ast) functions
        → (t : State) × (run ast order cfg any_variadic functions vars s ≡ ok t)
          × Within (create_context_map ast functions) t.context_map
    run-ok any_variadic functions vars s writable =
        let (t, text, e, within, w) =
          run-Passes functions_named ordered (Within (create_context_map ast functions)) (λ c. Unit)
            functions (λ m c x k e. k c x (index_map-children m c x e))
            (λ m c k w q x e. k q x (sym (index_map-keeps m c q x) ∙ e)) (λ q x e f. tt) tt
            any_variadic vars s writable (λ q x e. e) in
        (t, e, within)
