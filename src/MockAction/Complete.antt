-- ===== src/MockAction/Complete.antt =====
-- The run on one translation unit with any backend: from the functions that the walk collected to
-- the text of the output.
use ccmock.Base.{String, true, Option, List, [], ◌∷◌, ◌≡◌, ap, ◌∙◌, ◌⊎◌, is_empty, All, ok, ℕ}
use ccmock.Ast.{Ast, Policy, FunctionDecl, VarDecl, as_none}
use ccmock.Config.{Config, Backend, gmock, fff, cmocka, raw}
use ccmock.Writer.{Writer, append}
use ccmock.Writer.Shows.{IsLocal, All-IsLocal}
use ccmock.Contexts.{Order}
use ccmock.Contexts.Laws.{IsNested, IsNamed, IsRooted}
use ccmock.Contexts.Entries.{IsOrder, IsExhaustive}
use ccmock.Contexts.Reaches.{IsContained, IsOwn}
use ccmock.Generator.{Host, Sink}
use ccmock.Generator.Variables.{HasVariables, HasVariables-IsLocal}
use ccmock.Visitor
use ccmock.Visitor.{Visit, Visitor, Glob}
use ccmock.Visitor.Guarantees.{run-IsMockable}
use ccmock.Gmock.Appends.{IsWritable}
use ccmock.Gmock.ClassWalk.{HasFunctions}
use ccmock.Gmock
use ccmock.Gmock.Texts.{IsMocked, IsMocked-IsLocal}
use ccmock.Gmock.Complete.{run-IsMocked}
use ccmock.Fff.{TypedefMap}
use ccmock.Fff.Complete.{IsFaked, IsFaked-IsLocal, run-IsFaked}
use ccmock.Cmocka
use ccmock.Cmocka.Complete.{run-IsDefined}
use ccmock.Raw.Prints.{IsBraced}
use ccmock.Raw.Statements.{HasFunctionDecls}
use ccmock.Raw.Shows.{IsDeclared, IsDeclared-IsLocal}
use ccmock.Raw.Complete.{run-IsDeclared}
use ccmock.MockAction.{run_backend, backend_policy, gmock_writer, fff_writer, raw_writer, generate}
use ccmock.MockAction.Generates.{IsPlaced, mockable-IsWritable}
use ccmock.MockAction.Output.{sink_text, generate-Says}

-- What a backend writes for a function.
abbrev pub IsWritten : Ast → Config → Backend → FunctionDecl → Policy → String → Type 0
IsWritten ast cfg gmock d policy text =
    IsMocked policy d text × Gmock.Texts.IsDefined ast cfg.gmock d policy text
IsWritten ast cfg fff d policy text =
    (typedefs : TypedefMap) × IsFaked cfg.fff typedefs d policy text
IsWritten ast cfg cmocka d policy text = Cmocka.Complete.IsDefined cfg.cmocka d policy text
IsWritten ast cfg raw d policy text = IsDeclared policy d text

IsWritten-IsLocal :
    (ast : Ast) (cfg : Config) (backend : Backend) (d : FunctionDecl)
    → IsLocal (IsWritten ast cfg backend d)
IsWritten-IsLocal ast cfg gmock d = record {
  left = λ policy s t h. (
    (IsMocked-IsLocal d).left policy s t h.0,
    (Gmock.Texts.IsDefined-IsLocal ast cfg.gmock d).left policy s t h.1,
  );
  right = λ policy s t h. (
    (IsMocked-IsLocal d).right policy s t h.0,
    (Gmock.Texts.IsDefined-IsLocal ast cfg.gmock d).right policy s t h.1,
  );
}
IsWritten-IsLocal ast cfg fff d = record {
  left = λ policy s t (m, h). (m, (IsFaked-IsLocal cfg.fff m d).left policy s t h);
  right = λ policy s t (m, h). (m, (IsFaked-IsLocal cfg.fff m d).right policy s t h);
}
IsWritten-IsLocal ast cfg cmocka d = Cmocka.Complete.IsDefined-IsLocal cfg.cmocka d
IsWritten-IsLocal ast cfg raw d = IsDeclared-IsLocal d

-- The raw backend leaves out the variables.
abbrev pub WritesVariables : Backend → List VarDecl → Policy → String → Type 0
WritesVariables raw vars policy text = Unit
WritesVariables _ vars policy text = HasVariables vars policy text

WritesVariables-IsLocal :
    (backend : Backend) (vars : List VarDecl) → IsLocal (WritesVariables backend vars)
WritesVariables-IsLocal gmock vars = HasVariables-IsLocal vars
WritesVariables-IsLocal fff vars = HasVariables-IsLocal vars
WritesVariables-IsLocal cmocka vars = HasVariables-IsLocal vars
WritesVariables-IsLocal raw vars = record { left = λ policy s t h. tt; right = λ policy s t h. tt }

-- What a backend writes for the functions and the variables.
abbrev pub Outputs :
    Ast → Config → Backend → List FunctionDecl → List VarDecl → Policy → String → Type 0
Outputs ast cfg backend functions vars policy text =
    All (λ d. IsWritten ast cfg backend d policy text) functions
    × WritesVariables backend vars policy text

Outputs-IsLocal :
    (ast : Ast) (cfg : Config) (backend : Backend) (functions : List FunctionDecl)
    (vars : List VarDecl)
    → IsLocal (Outputs ast cfg backend functions vars)
Outputs-IsLocal ast cfg backend functions vars =
    let each =
      All-IsLocal (IsWritten ast cfg backend) (IsWritten-IsLocal ast cfg backend) functions in
    let all = WritesVariables-IsLocal backend vars in
    record {
      left = λ policy s t h. (each.left policy s t h.0, all.left policy s t h.1);
      right = λ policy s t h. (each.right policy s t h.0, all.right policy s t h.1);
    }

with_typedefs :
    (ast : Ast) (cfg : Config) (typedefs : TypedefMap) (policy : Policy) (text : String)
    (ds : List FunctionDecl)
    → All (λ d. IsFaked cfg.fff typedefs d policy text) ds
    → All (λ d. IsWritten ast cfg fff d policy text) ds
with_typedefs ast cfg typedefs policy text [] h = tt
with_typedefs ast cfg typedefs policy text (d ∷ ds) h =
    ((typedefs, h.0), with_typedefs ast cfg typedefs policy text ds h.1)

module _ (ast : Ast) (depth : ℕ → ℕ) (nested : IsNested ast depth) (named : IsNamed ast)
    (rooted : IsRooted ast) (contained : IsContained ast) (functions : HasFunctions ast)
    (declared : HasFunctionDecls ast) (braced : IsBraced ast) (order : Order)
    (ordered : IsOrder order) (exhaustive : IsExhaustive order) where
  run_backend-Outputs :
      (cfg : Config) (v : Visitor) (backend : Backend)
      → All (IsWritable ast) v.function_decls
      → All (IsOwn ast) v.function_decls
      → (w : Writer)
      → (text : String) × (run_backend ast order cfg backend v w ≡ ok (append text w))
        × Outputs ast cfg backend v.function_decls v.var_decls w.policy text
  unfolding run_backend
  run_backend-Outputs cfg v gmock writable own w =
      let (t, text, e, k, all, has) =
        run-IsMocked ast depth nested named cfg.gmock functions rooted contained order ordered
          exhaustive v.function_decls writable v.any_variadic v.var_decls
          (record { writer = w; context_map = [] }) own in
      (text, ap gmock_writer e ∙ ap ok k, (all, has))
  run_backend-Outputs cfg v fff writable own w =
      let (t, text, e, k, all, has) =
        run-IsFaked cfg.fff v.function_decls v.var_decls
          (record { writer = w; typedef_map = [] }) in
      (
        text,
        ap fff_writer e ∙ ap ok k,
        (with_typedefs ast cfg t.typedef_map w.policy text v.function_decls all, has),
      )
  run_backend-Outputs cfg v cmocka writable own w =
      let (text, e, all, has) = run-IsDefined cfg.cmocka v.function_decls v.var_decls w in
      (text, e, (all, has))
  run_backend-Outputs cfg v raw writable own w =
      let (t, text, e, k, all) =
        run-IsDeclared ast depth nested named rooted contained braced declared order ordered
          exhaustive v.function_decls
          (record { writer = w; context_map = []; current_access = as_none }) own in
      (text, ap raw_writer e ∙ ap ok k, (all, tt))

  -- With nested, named contexts, names and declarations in which braces are balanced, and loops
  -- that come to each element of a set: if the walk ends, the functions that it collected have
  -- mock names and stand in namespaces and classes only, and the output can be opened, then a run
  -- writes its output, and that has each of these functions, as the backend writes it: as a mock
  -- method and a definition that calls it, as a fake that is in the list of fakes, as the
  -- definition of a mock function, or as clang's declaration. The output holds the text of the
  -- variables that the walk collected, too, except with the raw backend.
  pub generate-Outputs :
      (cfg : Config) (host : Host) (create : String → Option Glob) (policy : Policy)
      (visits : List Visit) {v : Visitor}
      → Visitor.run create cfg visits ≡ ok v
      → All (IsPlaced ast) v.function_decls
      → All (IsOwn ast) v.function_decls
      → ((is_empty cfg.general.output ≡ true) ⊎ (host.opens cfg.general.output ≡ true))
      → (s : Sink) × (generate ast order cfg host create policy visits ≡ ok s)
        × Outputs ast cfg cfg.mocking.backend v.function_decls v.var_decls
            (backend_policy cfg.mocking.backend policy)
            (sink_text s)
  generate-Outputs cfg host create policy visits {v} done placed own opens =
      let (lists, made, mockable, vars) = run-IsMockable create cfg visits done in
      let writable = mockable-IsWritable ast cfg lists v.function_decls mockable placed in
      let backend = cfg.mocking.backend in
      generate-Says ast order cfg host create policy visits
        (Outputs-IsLocal ast cfg backend v.function_decls v.var_decls) done
        (run_backend-Outputs cfg v backend writable own) opens
