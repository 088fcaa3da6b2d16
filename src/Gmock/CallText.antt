-- ===== src/Gmock/CallText.antt =====
-- output/GMock.cpp, `writeMockCall`: the arguments of the call, and under which names they clash.
use ccmock.Base.{
  ℕ, ◌+◌, String, true, false, ◌⊎◌, ◌↔◌, ◌≢◌, inl, inr, Bool-cases, List, ◌≡◌, refl, sym, ap, ◌∙◌,
  ◌<>◌, <>-cancel, is_empty, decimal, decimal-inj, if◌then◌else◌, arith, Action, when, Bool,
  Outcome, ok, exit, fault, bind, ◌>>◌, for_each_from,
}
use ccmock.Ast.{ParmVarDecl}
use ccmock.Writer.{Writer, append, write, argument_name}
use ccmock.Writer.Appends.{append-append}
use ccmock.Writer.Separated.{join, Texts, for_each_from-join}
use ccmock.Writer.ParameterList.{argument_of}
use ccmock.Gmock.Calls.{write_argument, write_call_argument}

write_argument-argument_of :
    (i : ℕ) (p : ParmVarDecl) (w : Writer) → write_argument i p w ≡ ok (append (argument_of i p) w)
unfolding write_argument argument_name
write_argument-argument_of i p w = elim (Bool-cases (is_empty p.name)) [
  | inl e ↦ rw e (ap ok (append-append "arg" (decimal (i + 1)) w))
  | inr e ↦ rw e refl
]

abbrev moved : Bool → String → String
moved b s = if b then "std::move(" <> (s <> ")") else s

-- What is passed for a parameter: an rvalue reference is moved.
abbrev pub passed : ℕ → ParmVarDecl → String
passed i p = moved p.type.is_rvalue_reference_type (argument_of i p)

abbrev argument : Bool → ℕ → ParmVarDecl → Action Writer
argument b i p = when b (write "std::move(") >> (write_argument i p >> when b (write ")"))

argument-moved :
    (b : Bool) (i : ℕ) (p : ParmVarDecl) (w : Writer)
    → argument b i p w ≡ ok (append (moved b (argument_of i p)) w)
argument-moved false i p w = ap (λ o. bind o ok) (write_argument-argument_of i p w)
argument-moved true i p w =
    ap (λ o. bind o (write ")")) (write_argument-argument_of i p (append "std::move(" w))
    ∙ ap ok (
        append-append (argument_of i p) ")" (append "std::move(" w)
        ∙ append-append "std::move(" (argument_of i p <> ")") w)

-- The call in a mock function passes each parameter, in order and separated by ", ", by its name,
-- or by the name of its position, if it has none; one that is an rvalue reference is moved.
pub write_call_argument-passed :
    (ps : List ParmVarDecl) (w : Writer)
    → (ts : List String) × (for_each_from 0 ps write_call_argument w ≡ ok (append (join ts) w))
      × Texts (λ i p t. t ≡ passed i p) 0 ps ts
unfolding write_call_argument
write_call_argument-passed ps w =
    for_each_from-join (λ i p. argument p.type.is_rvalue_reference_type i p)
      (λ i p t. t ≡ passed i p) (λ v. Unit) (λ t v h. tt)
      (λ i p v h. (passed i p, argument-moved p.type.is_rvalue_reference_type i p v, refl)) ps w tt

argument_name-inj : (i j : ℕ) → argument_name i ≡ argument_name j → i ≡ j
unfolding argument_name
argument_name-inj i j e =
    omega
      (arith, decimal-inj (i + 1) (j + 1) (<>-cancel "arg" (decimal (i + 1)) (decimal (j + 1)) e))

abbrev buffer_of : Outcome Writer → String
buffer_of (ok w) = w.buffer
buffer_of exit = ""
buffer_of fault = ""

write_argument-inj :
    (i j : ℕ) (p q : ParmVarDecl) (w : Writer)
    → write_argument i p w ≡ write_argument j q w
    → argument_of i p ≡ argument_of j q
write_argument-inj i j p q w e =
    <>-cancel w.buffer (argument_of i p) (argument_of j q)
      (ap buffer_of (sym (write_argument-argument_of i p w) ∙ e ∙ write_argument-argument_of j q w))

-- Parameters at two positions, which do not have the same name, are passed as the same argument
-- exactly where one of them has no name, and the other has the name that the code invents for its
-- position.
pub write_argument-eq_iff :
    (i j : ℕ) (p q : ParmVarDecl) (w : Writer)
    → i ≢ j
    → (p.name ≡ q.name → is_empty p.name ≡ true)
    → (write_argument i p w ≡ write_argument j q w) ↔ (
        ((is_empty p.name ≡ true) × (is_empty q.name ≡ false) × (q.name ≡ argument_name i))
        ⊎ ((is_empty q.name ≡ true) × (is_empty p.name ≡ false) × (p.name ≡ argument_name j)))
write_argument-eq_iff i j p q w distinct unequal = (to, from)
  where
    to :
        write_argument i p w ≡ write_argument j q w
        → ((is_empty p.name ≡ true) × (is_empty q.name ≡ false) × (q.name ≡ argument_name i))
          ⊎ ((is_empty q.name ≡ true) × (is_empty p.name ≡ false) × (p.name ≡ argument_name j))
    to h =
        let e = write_argument-inj i j p q w h in
        elim (Bool-cases (is_empty p.name)) [
          | inl a ↦ elim (Bool-cases (is_empty q.name)) [
            | inl b ↦ absurd (distinct (argument_name-inj i j (rw (a, b) at e)))
            | inr b ↦ inl (a, b, sym (rw (a, b) at e))
          ]
          | inr a ↦ elim (Bool-cases (is_empty q.name)) [
            | inl b ↦ inr (b, a, rw (a, b) at e)
            | inr b ↦ cc (a, unequal (rw (a, b) at e))
          ]
        ]

    from :
        ((is_empty p.name ≡ true) × (is_empty q.name ≡ false) × (q.name ≡ argument_name i))
          ⊎ ((is_empty q.name ≡ true) × (is_empty p.name ≡ false) × (p.name ≡ argument_name j))
        → write_argument i p w ≡ write_argument j q w
    from h =
        let e : argument_of i p ≡ argument_of j q = elim h [
          | inl (a, b, c) ↦ rw (a, b) (sym c)
          | inr (a, b, c) ↦ rw (a, b) c
        ] in
        write_argument-argument_of i p w
        ∙ ap (λ s. ok (append s w)) e
        ∙ sym (write_argument-argument_of j q w)
