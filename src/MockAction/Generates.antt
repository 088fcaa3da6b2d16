-- ===== src/MockAction/Generates.antt =====
-- The run on one translation unit, from the walk to the output, with the GMock backend.
use mathlib.Core.Path.{subst}
use ccmock.Base.{String, true, Option, some, List, [], ◌∷◌, ◌≡◌, sym, ap, ◌⊎◌, is_empty, All, ok, ℕ}
use ccmock.Ast.{Ast, Policy, FunctionDecl}
use ccmock.Config.{Config, gmock}
use ccmock.Writer.{Writer, mock_name}
use ccmock.Contexts.{Order}
use ccmock.Contexts.Laws.{IsNested, IsNamed}
use ccmock.Generator.{Host, Sink}
use ccmock.Visitor
use ccmock.Visitor.{Visit, Visitor, Glob, Blacklists}
use ccmock.Visitor.Guarantees.{IsMockable, run-IsMockable}
use ccmock.Gmock.Appends.{HasParent, IsWritable}
use ccmock.Contexts.Entries.{IsOrder}
use ccmock.Gmock.ClassWalk.{HasFunctions}
use ccmock.Gmock.Total.{run-ok}
use ccmock.MockAction.{run_backend, gmock_writer, generate}
use ccmock.MockAction.Output.{generate-ok}

-- What the walk does not look at: the function has a mock name and a context around it.
pub record IsPlaced (ast : Ast) (d : FunctionDecl) : Type 0 where
  pub called : (name : String) × (mock_name d ≡ some name)
  pub enclosed : HasParent ast d.context

pub mockable-IsWritable :
    (ast : Ast) (cfg : Config) (lists : Blacklists) (ds : List FunctionDecl)
    → All (IsMockable cfg lists) ds
    → All (IsPlaced ast) ds
    → All (IsWritable ast) ds
mockable-IsWritable ast cfg lists [] m p = tt
mockable-IsWritable ast cfg lists (d ∷ ds) m p = (
  record { called = p.0.called; enclosed = p.0.enclosed; parameters = m.0.parameters },
  mockable-IsWritable ast cfg lists ds m.1 p.1,
)

module _ (ast : Ast) (depth : ℕ → ℕ) (nested : IsNested ast depth) (named : IsNamed ast)
    (functions : HasFunctions ast) (order : Order) (ordered : IsOrder order) where
  run_backend-gmock :
      (cfg : Config) (v : Visitor) (w : Writer)
      → All (IsWritable ast) v.function_decls
      → (u : Writer) × (run_backend ast order cfg gmock v w ≡ ok u)
  unfolding run_backend
  run_backend-gmock cfg v w writable =
      let (t, e, within) =
        run-ok ast depth nested named order cfg.gmock functions ordered v.any_variadic
          v.function_decls v.var_decls (record { writer = w; context_map = [] }) writable in
      (t.writer, ap gmock_writer e)

  -- If the walk ends, the functions that it collected have mock names and contexts around them,
  -- and the output can be opened, then a run with the GMock backend writes its output.
  pub generate-gmock :
      (cfg : Config) (host : Host) (create : String → Option Glob) (policy : Policy)
      (visits : List Visit) {v : Visitor}
      → Visitor.run create cfg visits ≡ ok v
      → cfg.mocking.backend ≡ gmock
      → All (IsPlaced ast) v.function_decls
      → ((is_empty cfg.general.output ≡ true) ⊎ (host.opens cfg.general.output ≡ true))
      → (s : Sink) × (generate ast order cfg host create policy visits ≡ ok s)
  generate-gmock cfg host create policy visits {v} done chosen placed opens =
      let (lists, made, mockable, vars) = run-IsMockable create cfg visits done in
      let writable = mockable-IsWritable ast cfg lists v.function_decls mockable placed in
      generate-ok ast order cfg host create policy visits done
        (λ w.
          subst (λ k. (u : Writer) × (run_backend ast order cfg k v w ≡ ok u)) (sym chosen)
            (run_backend-gmock cfg v w writable))
        opens
