-- ===== src/Fff/Total.antt =====
-- output/FFF.cpp: settings and typedefs always succeed, and only put text behind the buffer.
use ccmock.Base.{
  ◌<>◌, ℕ, suc, String, Bool, true, false, List, [], ◌∷◌, ◌++◌, ◌≡◌, refl, sym, ap, ◌∙◌, inl, inr,
  Bool-cases, Option-cases, Action, ok, bind, ◌>>◌, skip, when, for_each, for_each_from,
}
use ccmock.Ast.{FunctionDecl, ParmVarDecl}
use ccmock.Config.{FffSection, HistoryLen, plus, minus}
use ccmock.Writer.{Writer, append, points_to_function}
use ccmock.Writer.Appends.{
  Appends, appends, append-append, append-empty, Appends-skip, Appends-write,
}
use ccmock.Fff.{
  State, emit, with_writer, find_typedef, create_typedef_name, write_history_len, write_settings,
  write_typedef, write_function_typedefs, write_typedefs,
}

-- The statement succeeds, and does nothing to the writer but put some text behind the buffer.
pub record Extends (a : Action State) : Type 0 where
  pub extends :
      (s : State) → (t : State) × (text : String) × (a s ≡ ok t) × (t.writer ≡ append text s.writer)

Extends-emit : {m : Action Writer} → Appends m → Extends (emit m)
Extends-emit a = record {
  extends = λ s.
      let (text, e) = a.runs s.writer in
      (record s { writer = append text (s.writer) }, text, ap (with_writer s) e, refl);
}

Extends-skip : Extends skip
Extends-skip = record { extends = λ s. (s, "", refl, sym (append-empty s.writer)) }

Extends-seq : {a b : Action State} → Extends a → Extends b → Extends (a >> b)
Extends-seq {a} {b} p q = record {
  extends = λ s.
      let (t, x, e, w) = p.extends s in
      let (u, y, l, v) = q.extends t in
      (u, x <> y, ap (λ o. bind o b) e ∙ l, v ∙ ap (append y) w ∙ append-append x y s.writer);
}

Extends-when : (b : Bool) {a : Action State} → Extends a → Extends (when b a)
Extends-when true p = record { extends = p.extends }
Extends-when false p = record { extends = Extends-skip.extends }

Extends-for_each {κ} :
    {A : Type κ} (xs : List A) {body : A → Action State}
    → ((x : A) → Extends (body x))
    → Extends (for_each xs body)
Extends-for_each [] h = record { extends = Extends-skip.extends }
Extends-for_each (x ∷ xs) h = record {
  extends = (Extends-seq (h x) (Extends-for_each xs h)).extends;
}

Extends-for_each_from {κ} :
    {A : Type κ} (i : ℕ) (xs : List A) {body : ℕ → A → Action State}
    → ((j : ℕ) (x : A) → Extends (body j x))
    → Extends (for_each_from i xs body)
Extends-for_each_from i [] h = record { extends = Extends-skip.extends }
Extends-for_each_from i (x ∷ xs) h = record {
  extends = (Extends-seq (h i x) (Extends-for_each_from (suc i) xs h)).extends;
}

Extends-write_typedef : (d : FunctionDecl) (i : ℕ) (p : ParmVarDecl) → Extends (write_typedef d i p)
unfolding write_typedef
Extends-write_typedef d i p = record {
  extends = λ s. elim (Bool-cases (points_to_function p.type)) [
    | inr e ↦ rw e (Extends-skip.extends s)
    | inl e ↦ elim (Bool-cases p.type.is_typedef_name_type) [
      | inl f ↦ rw (e, f) (Extends-skip.extends s)
      | inr f ↦ elim (Option-cases (find_typedef s.typedef_map p.type.type_ptr)) [
        | inr (name, g) ↦ rw (e, f, g) (Extends-skip.extends s)
        | inl g ↦
            rw (e, f, g)
              (let name = create_typedef_name d i in
                let declared = p.type.declared name 0 in
                (
                  record {
                    writer = append ";\n" (append declared (append "typedef " s.writer));
                    typedef_map = s.typedef_map ++ (p.type.type_ptr, name) ∷ [];
                  },
                  "typedef " <> (declared <> ";\n"),
                  refl,
                  append-append declared ";\n" (append "typedef " s.writer)
                      ∙ append-append "typedef " (declared <> ";\n") s.writer,
                ))
      ]
    ]
  ];
}

Appends-write_history_len :
    (define : String) (n : HistoryLen) → Appends (write_history_len define n)
unfolding write_history_len
Appends-write_history_len define (plus n) = search appends
Appends-write_history_len define (minus n) = Appends-skip

pub Appends-write_settings : (cfg : FffSection) → Appends (write_settings cfg)
unfolding write_settings
Appends-write_settings cfg = search (appends, Appends-write_history_len) depth 20

pub Extends-write_typedefs : (functions : List FunctionDecl) → Extends (write_typedefs functions)
unfolding write_typedefs write_function_typedefs
Extends-write_typedefs functions =
    Extends-seq
      (Extends-for_each functions
        (λ d. Extends-for_each_from 0 d.parameters (Extends-write_typedef d)))
      (record {
        extends = λ s.
            (Extends-when (elim s.typedef_map [ [] ↦ false | e ∷ m ↦ true ])
                (Extends-emit (Appends-write "\n"))).extends
              s;
      })
