-- ===== src/Fff/Complete.antt =====
-- output/FFF.cpp: every function is in the list of fakes and has a fake in the output.
use mathlib.Core.Path.{subst}
use ccmock.Base.{String, List, [], ◌∷◌, ◌≡◌, ap, ◌∙◌, ◌<>◌, All, Action, ok, bind, ◌>>◌}
use ccmock.Ast.{Policy, FunctionDecl, VarDecl}
use ccmock.Config.{FffSection}
use ccmock.Writer.{Writer, append}
use ccmock.Writer.Appends.{Appends, Appends-write, append-append}
use ccmock.Writer.Shows.{IsLocal, All-IsLocal}
use ccmock.Writer.Texts.{
  Writes-write, Writes-seq, Writes-for_each, concat-Holds, At, Holds, Holds-IsLocal,
}
use ccmock.Generator.{write_global_variables}
use ccmock.Generator.Variables.{
  HasVariables, HasVariables-IsLocal, write_global_variables-HasVariables,
}
use ccmock.Fff.{
  TypedefMap, State, emit, with_writer, write_settings, write_include_directives, write_macros,
  write_mocks, run,
}
use ccmock.Fff.Total.{Extends, Appends-write_settings, Extends-write_typedefs}
use ccmock.Fff.Texts.{
  entry_text, mock_text, macros_text, mocks_text, Writes-write_macros, Writes-write_mock,
}

-- The statement leads from one state to another.
record Leads (a : Action State) (s t : State) : Type 0 where
  leads : a s ≡ ok t

Leads-emit :
    {m : Action Writer} {s : State} {text : String}
    → At s.writer m text
    → Leads (emit m) s (record s { writer = append text (s.writer) })
Leads-emit {s = s} a = record { leads = ap (with_writer s) a.at }

Leads-seq : {a b : Action State} {s t u : State} → Leads a s t → Leads b t u → Leads (a >> b) s u
Leads-seq {b = b} p q = record { leads = ap (λ o. bind o b) p.leads ∙ q.leads }

Leads-Extends : {a : Action State} (p : Extends a) (s : State) → Leads a s (p.extends s).0
Leads-Extends p s = record { leads = (p.extends s).2 }

Leads-write_mocks :
    (cfg : FffSection) (functions : List FunctionDecl) (s : State)
    → Leads (write_mocks cfg functions) s (record s {
      writer = append (mocks_text s.writer.policy cfg s.typedef_map functions) (s.writer);
    })
unfolding write_mocks
Leads-write_mocks cfg functions s = record {
  leads = ap (with_writer s) (
      (Writes-seq (Writes-write _) (
          Writes-seq (Writes-for_each functions (Writes-write_mock cfg s.typedef_map))
            (Writes-write _))).writes
        s.writer);
}

Appends-write_include_directives : Appends write_include_directives
unfolding write_include_directives
Appends-write_include_directives = Appends-write _

-- what `run` writes, with texts that do not matter in between
abbrev run_text :
    Policy
    → FffSection
    → TypedefMap
    → List FunctionDecl
    → String
    → String
    → String
    → String
    → String
run_text policy cfg typedefs functions x1 x2 x4 x6 =
    x1
    <> (x2 <> (macros_text functions <> (x4 <> (mocks_text policy cfg typedefs functions <> x6))))

run_text_lem :
    (cfg : FffSection) (functions : List FunctionDecl) (vars : List VarDecl) (s : State)
    → (t : State) × (x1 : String) × (x2 : String) × (x4 : String) × (x6 : String) × (run cfg
          functions vars s
        ≡ ok t)
      × (t.writer
          ≡ append (run_text s.writer.policy cfg t.typedef_map functions x1 x2 x4 x6) s.writer)
      × HasVariables vars s.writer.policy x6
unfolding run
run_text_lem cfg functions vars s =
    let (x1, e1) = (Appends-write_settings cfg).runs s.writer in
    let s1 : State = record s { writer = append x1 (s.writer) } in
    let (x2, e2) = Appends-write_include_directives.runs s1.writer in
    let s2 : State = record s1 { writer = append x2 (s1.writer) } in
    let x3 = macros_text functions in
    let s3 : State = record s2 { writer = append x3 (s2.writer) } in
    let (t, x4, e4, w4) = (Extends-write_typedefs functions).extends s3 in
    let x5 = mocks_text t.writer.policy cfg t.typedef_map functions in
    let s5 : State = record t { writer = append x5 (t.writer) } in
    let (x6, e6, has) = write_global_variables-HasVariables vars s5.writer in
    let rest = x4 <> (x5 <> x6) in
    (
      record s5 { writer = append x6 (s5.writer) },
      x1,
      x2,
      x4,
      x6,
      (Leads-seq (Leads-emit {m = write_settings cfg} {s = s} (record { at = e1 })) (
          Leads-seq (Leads-emit {m = write_include_directives} {s = s1} (record { at = e2 })) (
            Leads-seq
              (Leads-emit {m = write_macros functions} {s = s2}
                (record { at = (Writes-write_macros functions).writes s2.writer }))
              (Leads-seq (Leads-Extends (Extends-write_typedefs functions) s3) (
                Leads-seq (Leads-write_mocks cfg functions t) (
                  Leads-emit {m = write_global_variables vars} {s = s5}
                    (record { at = e6 }))))))).leads,
      append-append x5 x6 t.writer
          ∙ ap (append (x5 <> x6)) w4
          ∙ append-append x4 (x5 <> x6) s3.writer
          ∙ append-append x3 rest s2.writer
          ∙ append-append x2 (x3 <> rest) s1.writer
          ∙ append-append x1 (x2 <> (x3 <> rest)) s.writer
          ∙ ap
              (λ (q : Policy). append (run_text q cfg t.typedef_map functions x1 x2 x4 x6) s.writer)
              (ap (λ (w : Writer). w.policy) w4),
      subst (λ q. HasVariables vars q x6) (ap (λ (w : Writer). w.policy) w4) has,
    )

-- The text lists the fake of this function and defines it.
abbrev pub IsFaked : FffSection → TypedefMap → FunctionDecl → Policy → String → Type 0
IsFaked cfg typedefs d policy text =
    Holds (entry_text d) text × Holds (mock_text policy cfg typedefs d) text

pub IsFaked-IsLocal :
    (cfg : FffSection) (typedefs : TypedefMap) (d : FunctionDecl) → IsLocal (IsFaked cfg typedefs d)
IsFaked-IsLocal cfg typedefs d =
    let entry = Holds-IsLocal (λ policy. entry_text d) in
    let mock = Holds-IsLocal (λ policy. mock_text policy cfg typedefs d) in
    record {
      left = λ policy s t h. (entry.left policy s t h.0, mock.left policy s t h.1);
      right = λ policy s t h. (entry.right policy s t h.0, mock.right policy s t h.1);
    }

All-both :
    (P Q : FunctionDecl → Type 0) (ds : List FunctionDecl)
    → All P ds
    → All Q ds
    → All (λ d. P d × Q d) ds
All-both P Q [] p q = tt
All-both P Q (d ∷ ds) p q = ((p.0, q.0), All-both P Q ds p.1 q.1)

run_text-IsFaked :
    (policy : Policy) (cfg : FffSection) (typedefs : TypedefMap) (functions : List FunctionDecl)
    (x1 x2 x4 x6 : String)
    → All
        (λ d. IsFaked cfg typedefs d policy (run_text policy cfg typedefs functions x1 x2 x4 x6))
        functions
run_text-IsFaked policy cfg typedefs functions x1 x2 x4 x6 =
    let entries =
      All-IsLocal (λ d policy text. Holds (entry_text d) text)
        (λ d. Holds-IsLocal (λ policy. entry_text d)) functions in
    let mocks =
      All-IsLocal (λ d policy text. Holds (mock_text policy cfg typedefs d) text)
        (λ d. Holds-IsLocal (λ policy. mock_text policy cfg typedefs d)) functions in
    All-both _ _ functions
      (entries.right policy x1 _ (
        entries.right policy x2 _ (
          entries.left policy (macros_text functions) _ (
            entries.right policy _ _
              (entries.left policy _ "\n\n" (concat-Holds entry_text functions))))))
      (mocks.right policy x1 _ (
        mocks.right policy x2 _ (
          mocks.right policy (macros_text functions) _ (
            mocks.right policy x4 _ (
              mocks.left policy (mocks_text policy cfg typedefs functions) x6 (
                mocks.right policy _ _ (
                  mocks.left policy _ _
                    (concat-Holds (mock_text policy cfg typedefs) functions))))))))

-- The FFF backend always succeeds, does nothing to the writer but put some text behind the buffer,
-- and in that text each of the functions is in the list of fakes and has a fake, with the types
-- that the typedef map has for its parameters in the end, and with clang's for the others. The text
-- holds the variables, too.
pub run-IsFaked :
    (cfg : FffSection) (functions : List FunctionDecl) (vars : List VarDecl) (s : State)
    → (t : State) × (text : String) × (run cfg functions vars s ≡ ok t)
      × (t.writer ≡ append text s.writer)
      × All (λ d. IsFaked cfg t.typedef_map d s.writer.policy text) functions
      × HasVariables vars s.writer.policy text
run-IsFaked cfg functions vars s =
    let (t, x1, x2, x4, x6, e, w, has) = run_text_lem cfg functions vars s in
    let policy = s.writer.policy in
    let variables = HasVariables-IsLocal vars in
    (
      t,
      run_text policy cfg t.typedef_map functions x1 x2 x4 x6,
      e,
      w,
      run_text-IsFaked policy cfg t.typedef_map functions x1 x2 x4 x6,
      variables.right policy x1 _ (
          variables.right policy x2 _ (
            variables.right policy (macros_text functions) _ (
              variables.right policy x4 _
                (variables.right policy (mocks_text policy cfg t.typedef_map functions) x6 has)))),
    )
