-- ===== src/Gmock/Complete.antt =====
-- output/GMock.cpp: every function has a mock method and a mock function in the output.
use mathlib.Core.Path.{subst}
use ccmock.Base.{
  ℕ, suc, ◌<◌, Bool, String, true, List, [], ◌∷◌, ◌≡◌, refl, sym, ap, ◌∙◌, arith, All, ok,
  <>-cancel,
}
use ccmock.Ast.{Ast, FunctionDecl, VarDecl}
use ccmock.Config.{GmockSection}
use ccmock.Writer.{Writer, append}
use ccmock.Writer.Shows.{All-IsLocal, for_each-Says, Shows-then, then-Shows}
use ccmock.Contexts.{ContextMap, Order, create_context_map}
use ccmock.Contexts.Laws.{IsNested, IsNamed, IsRooted}
use ccmock.Contexts.Links.{has_child, create_context_map-SomeLink}
use ccmock.Contexts.Entries.{Same, IsOrder, IsExhaustive, SomeLink-deeper}
use ccmock.Contexts.Reaches.{Reaches, IsContained, IsOwn, All-enclosed, functions-Reaches}
use ccmock.Generator.Variables.{
  HasVariables, HasVariables-IsLocal, write_global_variables-HasVariables,
}
use ccmock.Generator.Appends.{Appends-write_macro_definitions, Appends-write_global_variables}
use ccmock.Gmock.Members.{State}
use ccmock.Gmock.Calls.{write_function}
use ccmock.Gmock.Appends.{IsWritable}
use ccmock.Gmock.Passes.{Passes-emit, Passes-on_map, Passes-seq, writer_of}
use ccmock.Gmock.ClassWalk.{HasFunctions}
use ccmock.Gmock.Total.{
  Appends-write_include_directives, Appends-write_pointer_definitions, Appends-write_fixture,
  Appends-write_mock_functions, Appends-write_main,
}
use ccmock.Gmock.Texts.{
  IsMocked, IsMocked-IsLocal, IsDefined, IsDefined-IsLocal, write_function-IsDefined,
}
use ccmock.Gmock.Mocks.{Shown-emit, Mocks-write_mock_class, Passes-walk}
use ccmock.Gmock.{write_mock_functions, initialize_context_map, run}

module _ (ast : Ast) (depth : ℕ → ℕ) (nested : IsNested ast depth) (named : IsNamed ast)
    (cfg : GmockSection) where
  write_mock_functions-IsDefined :
      (ds : List FunctionDecl) (w : Writer)
      → All (IsWritable ast) ds
      → (text : String) × (write_mock_functions ast cfg ds w ≡ ok (append text w))
        × All (λ d. IsDefined ast cfg d w.policy text) ds
  unfolding write_mock_functions
  write_mock_functions-IsDefined ds w h =
      for_each-Says (IsDefined ast cfg) (IsDefined-IsLocal ast cfg) (write_function ast cfg)
        (IsWritable ast) (write_function-IsDefined ast depth nested named cfg) ds h w

  module _ (functions_named : HasFunctions ast) (rooted : IsRooted ast)
      (contained : IsContained ast) (order : Order) (ordered : IsOrder order)
      (exhaustive : IsExhaustive order) (functions : List FunctionDecl)
      (writable : All (IsWritable ast) functions) where
    deeper : (q x : ℕ) → has_child (create_context_map ast functions) q x ≡ true → depth q < depth x
    deeper q x e =
        SomeLink-deeper ast depth nested functions q x
          ((create_context_map-SomeLink ast depth nested functions q x).0 e)

    run-IsDefined :
        (any_variadic : Bool) (vars : List VarDecl) (s : State)
        → (t : State) × (text : String) × (run ast order cfg any_variadic functions vars s ≡ ok t)
          × (t.writer ≡ append text s.writer)
          × All (λ d. IsDefined ast cfg d s.writer.policy text) functions
    unfolding run initialize_context_map
    run-IsDefined any_variadic vars s =
        let start = create_context_map ast functions in
        let I : ContextMap → Type 0 = Same start in
        let holds : State → Type 0 = λ t. Same start t.context_map in
        let local = All-IsLocal (IsDefined ast cfg) (IsDefined-IsLocal ast cfg) functions in
        let (t, text, e, same, w, all) =
          (then-Shows writer_of holds local
              (Passes-emit I (Appends-write_include_directives any_variadic))
              (then-Shows writer_of holds local (Passes-emit I Appends-write_macro_definitions) (
                then-Shows writer_of holds local
                  (Passes-walk ast named cfg functions_named order ordered start depth nested deeper
                    (suc ast.nesting) ast.root 0 (omega arith))
                  (then-Shows writer_of holds local
                    (Passes-on_map I
                      (Appends-write_pointer_definitions ast depth nested named order cfg))
                    (then-Shows writer_of holds local
                      (Passes-on_map I (Appends-write_fixture ast depth nested named order cfg))
                      (Shows-then writer_of holds local
                        (Shown-emit start
                          (λ policy text. All (λ d. IsDefined ast cfg d policy text) functions)
                          (λ v. write_mock_functions-IsDefined functions v writable))
                        (Passes-seq I (Passes-emit I (Appends-write_global_variables vars)) (
                          Passes-emit I
                            (Appends-write_main ast depth nested named order cfg))))))))).shows
            (record s { context_map = start }) (λ q x. refl) in
        (t, text, e, w, all)

    run-HasVariables :
        (any_variadic : Bool) (vars : List VarDecl) (s : State)
        → (t : State) × (text : String) × (run ast order cfg any_variadic functions vars s ≡ ok t)
          × (t.writer ≡ append text s.writer)
          × HasVariables vars s.writer.policy text
    unfolding run initialize_context_map
    run-HasVariables any_variadic vars s =
        let start = create_context_map ast functions in
        let I : ContextMap → Type 0 = Same start in
        let holds : State → Type 0 = λ t. Same start t.context_map in
        let local = HasVariables-IsLocal vars in
        let (t, text, e, same, w, has) =
          (then-Shows writer_of holds local
              (Passes-emit I (Appends-write_include_directives any_variadic))
              (then-Shows writer_of holds local (Passes-emit I Appends-write_macro_definitions) (
                then-Shows writer_of holds local
                  (Passes-walk ast named cfg functions_named order ordered start depth nested deeper
                    (suc ast.nesting) ast.root 0 (omega arith))
                  (then-Shows writer_of holds local
                    (Passes-on_map I
                      (Appends-write_pointer_definitions ast depth nested named order cfg))
                    (then-Shows writer_of holds local
                      (Passes-on_map I (Appends-write_fixture ast depth nested named order cfg))
                      (then-Shows writer_of holds local
                        (Passes-emit I (
                          Appends-write_mock_functions ast depth nested named order cfg functions
                            writable))
                        (Shows-then writer_of holds local
                          (Shown-emit start (HasVariables vars)
                            (write_global_variables-HasVariables vars))
                          (Passes-emit I
                            (Appends-write_main ast depth nested named order cfg))))))))).shows
            (record s { context_map = start }) (λ q x. refl) in
        (t, text, e, w, has)

    run-IsMocked-one :
        (any_variadic : Bool) (vars : List VarDecl) (s : State) (d : FunctionDecl)
        → IsOwn ast d
        → IsWritable ast d
        → Reaches ast (create_context_map ast functions) ast.root (ast.primary d.context)
        → (t : State) × (text : String) × (run ast order cfg any_variadic functions vars s ≡ ok t)
          × (t.writer ≡ append text s.writer)
          × IsMocked s.writer.policy d text
    unfolding run initialize_context_map
    run-IsMocked-one any_variadic vars s d own mine reached =
        let start = create_context_map ast functions in
        let I : ContextMap → Type 0 = Same start in
        let holds : State → Type 0 = λ t. Same start t.context_map in
        let local = IsMocked-IsLocal d in
        let (t, text, e, same, w, mocked) =
          (then-Shows writer_of holds local
              (Passes-emit I (Appends-write_include_directives any_variadic))
              (then-Shows writer_of holds local (Passes-emit I Appends-write_macro_definitions) (
                Shows-then writer_of holds local
                  (Mocks-write_mock_class ast named cfg functions_named order ordered exhaustive
                    start d depth nested deeper (suc ast.nesting) ast.root 0 (omega arith) reached
                    own.leaf own.itself mine.called.1)
                  (Passes-seq I
                    (Passes-on_map I
                      (Appends-write_pointer_definitions ast depth nested named order cfg))
                    (Passes-seq I
                      (Passes-on_map I (Appends-write_fixture ast depth nested named order cfg))
                      (Passes-seq I
                        (Passes-emit I (
                          Appends-write_mock_functions ast depth nested named order cfg functions
                            writable))
                        (Passes-seq I (Passes-emit I (Appends-write_global_variables vars)) (
                          Passes-emit I
                            (Appends-write_main ast depth nested named order cfg))))))))).shows
            (record s { context_map = start }) (λ q x. refl) in
        (t, text, e, w, mocked)

    same_text :
        (s : State) (x y : String) {t u : State}
        → ok t ≡ ok u
        → t.writer ≡ append x s.writer
        → u.writer ≡ append y s.writer
        → x ≡ y
    same_text s x y e v w =
        let written : append x s.writer ≡ append y s.writer = cc (e, v, w) in
        <>-cancel s.writer.buffer x y (ap (λ (z : Writer). z.buffer) written)

    text-IsMocked :
        (any_variadic : Bool) (vars : List VarDecl) (s : State) (text : String) {t : State}
        → run ast order cfg any_variadic functions vars s ≡ ok t
        → t.writer ≡ append text s.writer
        → (ds : List FunctionDecl) → All (IsOwn ast) ds
        → All (IsWritable ast) ds
        → All
            (λ d. Reaches ast (create_context_map ast functions) ast.root (ast.primary d.context))
            ds
        → All (λ d. IsDefined ast cfg d s.writer.policy text) ds
        → All (λ d. IsMocked s.writer.policy d text × IsDefined ast cfg d s.writer.policy text) ds
    text-IsMocked any_variadic vars s text e w [] own able reached defined = tt
    text-IsMocked any_variadic vars s text e w (d ∷ ds) own able reached defined =
        let (u, shown, f, v, mocked) =
          run-IsMocked-one any_variadic vars s d own.0 able.0 reached.0 in
        (
          (
            subst (λ x. IsMocked s.writer.policy d x) (same_text s shown text (sym f ∙ e) v w)
                mocked,
            defined.0,
          ),
          text-IsMocked any_variadic vars s text e w ds own.1 able.1 reached.1 defined.1,
        )

    -- With nested, named contexts, functions that stand in namespaces and classes only, have mock
    -- names and, if they are variadic, a parameter, and loops that come to each element of a set:
    -- the backend succeeds, does nothing to the writer but put some text behind the buffer, and in
    -- that text each of the functions has a mock method, with its return type, its mock name and
    -- the types of its parameters, and a definition, which declares each of its parameters and
    -- passes them on to the mock method of this name. The text holds the variables, too.
    pub run-IsMocked :
        (any_variadic : Bool) (vars : List VarDecl) (s : State)
        → All (IsOwn ast) functions
        → (t : State) × (text : String) × (run ast order cfg any_variadic functions vars s ≡ ok t)
          × (t.writer ≡ append text s.writer)
          × All
              (λ d. IsMocked s.writer.policy d text × IsDefined ast cfg d s.writer.policy text)
              functions
          × HasVariables vars s.writer.policy text
    run-IsMocked any_variadic vars s own =
        let (t, text, e, w, defined) = run-IsDefined any_variadic vars s in
        let (u, shown, f, v, has) = run-HasVariables any_variadic vars s in
        (
          t,
          text,
          e,
          w,
          text-IsMocked any_variadic vars s text e w functions own writable
              (functions-Reaches ast depth nested rooted contained functions
                (All-enclosed ast functions own))
              defined,
          subst (λ x. HasVariables vars s.writer.policy x) (same_text s shown text (sym f ∙ e) v w)
              has,
        )
