-- ===== src/Writer/Appends.antt =====
-- output/OutputWriter.hpp and output/OutputWriter.cpp: the writer's methods as statements that put
-- text behind the buffer and leave the printing policy as it is.
use ccmock.Base.{
  ℕ, suc, String, Bool, true, false, ◌&&◌, Option, none, some, List, [], ◌∷◌, ◌≡◌, refl, sym, ap,
  ◌∙◌, if◌then◌else◌, ◌<>◌, <>_assoc, <>-empty, spaces, Action, ok, bind, ◌>>◌, skip, when,
  for_each, for_each_from,
}
use ccmock.Ast.{Ast, FunctionDecl, QualType, Method, RefQualifier, rq_none, rq_lvalue, rq_rvalue}
use ccmock.Writer.{
  Writer, append, write, indent, with_name, write_type, write_return_type,
  write_function_specifiers, write_function_reference_qualifiers, write_mock_name, mock_name,
}

-- The statement succeeds, and does nothing but put some text behind the buffer.
pub record Appends (m : Action Writer) : Type 0 where
  pub runs : (w : Writer) → (s : String) × (m w ≡ ok (append s w))

pub append-append : (s t : String) (w : Writer) → append t (append s w) ≡ append (s <> t) w
append-append s t w = ap (λ b. record w { buffer = b }) (<>_assoc w.buffer s t)

pub append-empty : (w : Writer) → append "" w ≡ w
append-empty w = ap (λ b. record w { buffer = b }) (<>-empty w.buffer)

pub Appends-write : (s : String) → Appends (write s)
Appends-write s = record { runs = λ w. (s, refl) }

pub Appends-skip : Appends skip
Appends-skip = record { runs = λ w. ("", ap ok (sym (append-empty w))) }

pub Appends-seq : {m k : Action Writer} → Appends m → Appends k → Appends (m >> k)
Appends-seq {m} {k} a b = record {
  runs = λ w.
      let (s, e) = a.runs w in
      let (t, f) = b.runs (append s w) in
      (s <> t, ap (λ o. bind o k) e ∙ f ∙ ap ok (append-append s t w));
}

pub Appends-if :
    (b : Bool) {m k : Action Writer} → Appends m → Appends k → Appends (if b then m else k)
Appends-if true a c = a
Appends-if false a c = c

-- the same, where each branch knows the test's outcome
pub Appends-test :
    (b : Bool) {m k : Action Writer}
    → (b ≡ true → Appends m)
    → (b ≡ false → Appends k)
    → Appends (if b then m else k)
Appends-test true a c = a refl
Appends-test false a c = c refl

pub Appends-when : (b : Bool) {m : Action Writer} → Appends m → Appends (when b m)
Appends-when true a = record { runs = a.runs }
Appends-when false a = record { runs = Appends-skip.runs }

pub Appends-for_each {κ} :
    {A : Type κ} (xs : List A) {body : A → Action Writer}
    → ((x : A) → Appends (body x))
    → Appends (for_each xs body)
Appends-for_each [] h = record { runs = Appends-skip.runs }
Appends-for_each (x ∷ xs) h = record { runs = (Appends-seq (h x) (Appends-for_each xs h)).runs }

pub Appends-for_each_from {κ} :
    {A : Type κ} (i : ℕ) (xs : List A) {body : ℕ → A → Action Writer}
    → ((j : ℕ) (x : A) → Appends (body j x))
    → Appends (for_each_from i xs body)
Appends-for_each_from i [] h = record { runs = Appends-skip.runs }
Appends-for_each_from i (x ∷ xs) h = record {
  runs = (Appends-seq (h i x) (Appends-for_each_from (suc i) xs h)).runs;
}

pub ruleset appends = (Appends-write, Appends-skip, Appends-seq, Appends-if, Appends-when)

pub Appends-write_type :
    (type : QualType) (placeholder : String) → Appends (write_type type placeholder)
unfolding write_type
Appends-write_type type placeholder = record {
  runs = λ w. (type.printed w.policy placeholder, refl);
}

pub Appends-write_return_type : (d : FunctionDecl) → Appends (write_return_type d)
unfolding write_return_type
Appends-write_return_type d = Appends-write_type d.return_type ""

pub Appends-indent : (n : ℕ) → Appends (indent n)
Appends-indent n = Appends-write (spaces n)

pub Appends-write_function_specifiers : (d : FunctionDecl) → Appends (write_function_specifiers d)
unfolding write_function_specifiers
Appends-write_function_specifiers d = go d.method
  where
    go :
        (o : Option Method)
        → Appends (elim o [
          | none ↦ skip
          | some m ↦
              when m.is_const (write " const")
              >> when (m.has_noexcept_spec && m.spec_range_is_valid) (write " noexcept")
        ])
    go none = Appends-skip
    go (some m) = search appends

pub Appends-write_function_reference_qualifiers :
    (d : FunctionDecl) → Appends (write_function_reference_qualifiers d)
unfolding write_function_reference_qualifiers
Appends-write_function_reference_qualifiers d = go d.method
  where
    qualifier :
        (q : RefQualifier)
        → Appends (elim q [ rq_lvalue ↦ write " &" | rq_rvalue ↦ write " &&" | rq_none ↦ skip ])
    qualifier rq_lvalue = Appends-write " &"
    qualifier rq_rvalue = Appends-write " &&"
    qualifier rq_none = Appends-skip

    go :
        (o : Option Method)
        → Appends (elim o [
          | none ↦ skip
          | some m ↦ elim m.ref_qualifier [
            | rq_lvalue ↦ write " &"
            | rq_rvalue ↦ write " &&"
            | rq_none ↦ skip
          ]
        ])
    go none = Appends-skip
    go (some m) = qualifier m.ref_qualifier

-- Every function has a mock name but the overloads of `?:` and of `co_await`, which the switch
-- takes for unreachable.
pub Appends-write_mock_name :
    (d : FunctionDecl) {name : String} → mock_name d ≡ some name → Appends (write_mock_name d)
unfolding write_mock_name
Appends-write_mock_name d {name} e = record { runs = λ w. (name, rw (write_mock_name, e) refl) }

pub Appends-with_name :
    (ast : Ast) (c : ℕ) {name : String} (k : String → Action Writer)
    → ast.name c ≡ some name
    → Appends (k name)
    → Appends (with_name ast c k)
unfolding with_name
Appends-with_name ast c {name} k e a = record {
  runs = λ w. let (s, h) = a.runs w in (s, rw (with_name, e) h);
}
