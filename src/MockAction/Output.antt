-- ===== src/MockAction/Output.antt =====
-- A run on one translation unit: what the backend writes goes out behind the file header.
use mathlib.Core.Path.{subst}
use ccmock.Base.{
  String, true, Option, List, ◌≡◌, sym, refl, ap, ◌∙◌, ◌⊎◌, inl, inr, arith, ◌<>◌, is_empty, ok,
  bind, Bool-cases,
}
use ccmock.Ast.{Ast, Policy}
use ccmock.Config.{Config}
use ccmock.Writer.{Writer, append, new_writer, flush}
use ccmock.Writer.Shows.{IsLocal}
use ccmock.Contexts.{Order}
use ccmock.Generator.{Host, Sink, standard_output, file, write_sink, handle_translation_unit}
use ccmock.Generator.Appends.{Appends-write_file_header}
use ccmock.Visitor
use ccmock.Visitor.{Visit, Visitor, Glob}
use ccmock.MockAction.{generator_name, backend_policy, run_backend, generate}

-- the text that left the program
abbrev pub sink_text : Sink → String
sink_text (standard_output text) = text
sink_text (file path text) = text

write_sink-ok :
    (host : Host) (cfg : Config) (w : Writer)
    → ((is_empty cfg.general.output ≡ true) ⊎ (host.opens cfg.general.output ≡ true))
    → (s : Sink) × (write_sink host cfg.general w ≡ ok s) × (sink_text s ≡ w.buffer <> "\n")
unfolding write_sink flush
write_sink-ok host cfg w h = elim (Bool-cases (is_empty cfg.general.output)) [
  | inl e ↦ (standard_output (w.buffer <> "\n"), rw (write_sink, e) refl, refl)
  | inr e ↦ elim h [
    | inl f ↦ absurd (ground arith)
    | inr f ↦ (file cfg.general.output (w.buffer <> "\n"), rw (write_sink, e, f) refl, refl)
  ]
]

-- After the walk, a run writes its output if the backend succeeds: the text that the backend left
-- in the writer. The writer has the backend's printing policy.
pub generate-run_backend :
    (ast : Ast) (order : Order) (cfg : Config) (host : Host) (create : String → Option Glob)
    (policy : Policy) (visits : List Visit) {v : Visitor} (P : Writer → Writer → Type 0)
    → Visitor.run create cfg visits ≡ ok v
    → ((w : Writer)
        → w.policy ≡ backend_policy cfg.mocking.backend policy
        → (u : Writer) × (run_backend ast order cfg cfg.mocking.backend v w ≡ ok u) × P w u)
    → ((is_empty cfg.general.output ≡ true) ⊎ (host.opens cfg.general.output ≡ true))
    → (w : Writer) × (u : Writer) × (s : Sink) × (generate ast order cfg host create policy visits
        ≡ ok s)
      × (sink_text s ≡ u.buffer <> "\n")
      × (w.policy ≡ backend_policy cfg.mocking.backend policy)
      × P w u
unfolding generate handle_translation_unit
generate-run_backend ast order cfg host create policy visits {v} P done succeeds opens =
    let backend = cfg.mocking.backend in
    let name = generator_name backend in
    let start = new_writer (backend_policy backend policy) in
    let (header, h) = (Appends-write_file_header host cfg.general name).runs start in
    let (u, b, holds) = succeeds (append header start) refl in
    let (s, w, text) = write_sink-ok host cfg u opens in
    (
      append header start,
      u,
      s,
      ap
            (λ o. bind o (λ x.
              handle_translation_unit host cfg.general name (run_backend ast order cfg backend x)
                start))
            done
          ∙ ap
              (λ o.
                bind (bind o (run_backend ast order cfg backend v)) (write_sink host cfg.general))
              h
          ∙ ap (λ o. bind o (write_sink host cfg.general)) b
          ∙ w,
      text,
      refl,
      holds,
    )

-- A run succeeds if the backend does.
pub generate-ok :
    (ast : Ast) (order : Order) (cfg : Config) (host : Host) (create : String → Option Glob)
    (policy : Policy) (visits : List Visit) {v : Visitor}
    → Visitor.run create cfg visits ≡ ok v
    → ((w : Writer) → (u : Writer) × (run_backend ast order cfg cfg.mocking.backend v w ≡ ok u))
    → ((is_empty cfg.general.output ≡ true) ⊎ (host.opens cfg.general.output ≡ true))
    → (s : Sink) × (generate ast order cfg host create policy visits ≡ ok s)
generate-ok ast order cfg host create policy visits done succeeds opens =
    let (w, u, s, e, out, same, holds) =
      generate-run_backend ast order cfg host create policy visits (λ w u. Unit) done
        (λ w same. let (u, b) = succeeds w in (u, b, tt)) opens in
    (s, e)

-- What the text of a successful backend says, the output says.
pub generate-Says :
    (ast : Ast) (order : Order) (cfg : Config) (host : Host) (create : String → Option Glob)
    (policy : Policy) (visits : List Visit) {v : Visitor} {Says : Policy → String → Type 0}
    → IsLocal Says
    → Visitor.run create cfg visits ≡ ok v
    → ((w : Writer)
        → (text : String) × (run_backend ast order cfg cfg.mocking.backend v w ≡ ok (append text w))
          × Says w.policy text)
    → ((is_empty cfg.general.output ≡ true) ⊎ (host.opens cfg.general.output ≡ true))
    → (s : Sink) × (generate ast order cfg host create policy visits ≡ ok s)
      × Says (backend_policy cfg.mocking.backend policy) (sink_text s)
generate-Says ast order cfg host create policy visits {v} {Says} local done writes opens =
    let (w, u, s, e, out, same, (text, appended, says)) =
      generate-run_backend ast order cfg host create policy visits
        (λ w u. (text : String) × (u ≡ append text w) × Says w.policy text) done
        (λ w same. let (text, b, says) = writes w in (append text w, b, (text, refl, says)))
        opens in
    (
      s,
      e,
      subst (λ z. Says z (sink_text s)) same
          (subst (λ t. Says w.policy t) (sym (out ∙ ap (λ (x : Writer). x.buffer <> "\n") appended))
            (local.left w.policy (w.buffer <> text) "\n"
              (local.right w.policy w.buffer text says))),
    )
