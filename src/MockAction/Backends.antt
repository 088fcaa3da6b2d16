-- ===== src/MockAction/Backends.antt =====
-- The run on one translation unit with the other backends, which need nothing of the functions.
use ccmock.Base.{String, true, Option, List, [], ◌≡◌, ◌≢◌, refl, ap, ◌⊎◌, is_empty, ok, ℕ}
use ccmock.Ast.{Ast, Policy, as_none}
use ccmock.Config.{Config, Backend, gmock, fff, cmocka, raw}
use ccmock.Writer.{Writer, append}
use ccmock.Contexts.{Order}
use ccmock.Contexts.Laws.{IsNested, IsNamed}
use ccmock.Contexts.Entries.{IsOrder}
use ccmock.Generator.{Host, Sink}
use ccmock.Visitor
use ccmock.Visitor.{Visit, Visitor, Glob}
use ccmock.Fff.Complete.{run-IsFaked}
use ccmock.Cmocka.Complete.{run-IsDefined}
use ccmock.Raw.Prints.{IsBraced}
use ccmock.Raw.Statements.{HasFunctionDecls}
use ccmock.Raw.Balance.{run-IsBalanced}
use ccmock.MockAction.{run_backend, fff_writer, raw_writer, generate}
use ccmock.MockAction.Output.{generate-ok}

module _ (ast : Ast) (depth : ℕ → ℕ) (nested : IsNested ast depth) (named : IsNamed ast)
    (braced : IsBraced ast) (declared : HasFunctionDecls ast) (order : Order)
    (ordered : IsOrder order) where
  run_backend-ok :
      (cfg : Config) (v : Visitor) (w : Writer) (backend : Backend)
      → backend ≢ gmock
      → (u : Writer) × (run_backend ast order cfg backend v w ≡ ok u)
  unfolding run_backend
  run_backend-ok cfg v w gmock h = absurd (h refl)
  run_backend-ok cfg v w fff h =
      let (t, text, e, k, all, has) =
        run-IsFaked cfg.fff v.function_decls v.var_decls
          (record { writer = w; typedef_map = [] }) in
      (t.writer, ap fff_writer e)
  run_backend-ok cfg v w cmocka h =
      let (text, e, all, has) = run-IsDefined cfg.cmocka v.function_decls v.var_decls w in
      (append text w, e)
  run_backend-ok cfg v w raw h =
      let (t, text, e, k, balanced) =
        run-IsBalanced ast depth nested named braced declared order ordered v.function_decls
          (record { writer = w; context_map = []; current_access = as_none }) in
      (t.writer, ap raw_writer e)

  -- With nested, named contexts, and names and declarations in which braces are balanced: if the
  -- walk ends and the output can be opened, then a run with any backend but GMock writes its
  -- output, whatever the functions and the variables are that the walk collected.
  pub generate-ne-gmock :
      (cfg : Config) (host : Host) (create : String → Option Glob) (policy : Policy)
      (visits : List Visit) {v : Visitor}
      → Visitor.run create cfg visits ≡ ok v
      → cfg.mocking.backend ≢ gmock
      → ((is_empty cfg.general.output ≡ true) ⊎ (host.opens cfg.general.output ≡ true))
      → (s : Sink) × (generate ast order cfg host create policy visits ≡ ok s)
  generate-ne-gmock cfg host create policy visits {v} done other opens =
      generate-ok ast order cfg host create policy visits done
        (λ w. run_backend-ok cfg v w cfg.mocking.backend other) opens
