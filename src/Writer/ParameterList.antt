-- ===== src/Writer/ParameterList.antt =====
-- `writeFunctionParameterList` of output/OutputWriter.cpp: the text of a list with names.
use mathlib.Core.Path.{subst}
use ccmock.Base.{
  ℕ, ◌+◌, String, Bool, true, false, not, inl, inr, Bool-cases, List, [], ◌∷◌, ◌≡◌, refl, ap, ◌∙◌,
  ◌<>◌, sym, is_empty, decimal, if◌then◌else◌, Action, ok, bind, ◌>>◌, when, for_each_from,
}
use ccmock.Ast.{FunctionDecl, ParmVarDecl, Policy}
use ccmock.Writer.{
  Writer, append, write, write_type, write_var_decl, points_to_function, argument_name,
  write_unnamed_parameter, write_parameter, write_function_parameter_list,
}
use ccmock.Writer.Appends.{append-append, append-empty}
use ccmock.Writer.Gaps.{gap_behind, IsOpen, IsOpen-parenthesis, IsOpen-separator, pad_printed}
use ccmock.Writer.Separated.{join, separate, Texts, for_each_from-join}

-- The name under which a function refers to its parameter at a position.
abbrev pub argument_of : ℕ → ParmVarDecl → String
argument_of i p = if not (is_empty p.name) then p.name else argument_name i

-- The texts that declare a parameter at a position: what clang prints, if it has a name; else its
-- type with the name that it is given, put behind it and the gap or, for a pointer to a function,
-- into it.
pub data Declares (policy : Policy) (i : ℕ) (p : ParmVarDecl) : String → Type 0 where
  printed : {t : String} → is_empty p.name ≡ false → t ≡ p.printed 0 → Declares policy i p t
  inside :
      {t : String}
      → is_empty p.name ≡ true
      → points_to_function p.type ≡ true
      → t ≡ p.type.declared (argument_of i p) 0
      → Declares policy i p t
  behind :
      {t : String}
      → is_empty p.name ≡ true
      → points_to_function p.type ≡ false
      → t ≡ p.type.printed policy "" <> (gap_behind (p.type.printed policy "") <> argument_of i p)
      → Declares policy i p t

write_unnamed_parameter-Declares :
    (i : ℕ) (p : ParmVarDecl) (w : Writer)
    → IsOpen w
    → is_empty p.name ≡ true
    → (t : String) × (write_unnamed_parameter i p w ≡ ok (append t w)) × Declares w.policy i p t
unfolding write_unnamed_parameter write_type write_var_decl argument_name
write_unnamed_parameter-Declares i p w h e = elim (Bool-cases (points_to_function p.type)) [
  | inl f ↦ (p.type.declared (argument_name i) 0, rw f refl, inside e f (rw e refl))
  | inr f ↦
      let printed = p.type.printed w.policy "" in
      let gap = gap_behind printed in
      let padded = pad_printed printed w h in
      (
        printed <> (gap <> argument_name i),
        rw f (
            ap (λ o. bind o (write "arg" >> write (decimal (i + 1)))) padded
            ∙ ap ok (
                append-append "arg" (decimal (i + 1)) (append gap (append printed w))
                ∙ append-append gap (argument_name i) (append printed w)
                ∙ append-append printed (gap <> argument_name i) w)),
        behind e f (rw e refl),
      )
]

-- a parameter behind its separator, as in `write_parameter`
abbrev declaration : ℕ → ParmVarDecl → Action Writer
declaration i p =
    if not (is_empty p.name) then write_var_decl p.printed false else write_unnamed_parameter i p

declaration-Declares :
    (policy : Policy) (i : ℕ) (p : ParmVarDecl) (w : Writer)
    → IsOpen w × (w.policy ≡ policy)
    → (t : String) × (declaration i p w ≡ ok (append t w)) × Declares policy i p t
unfolding write_var_decl
declaration-Declares policy i p w (h, same) = elim (Bool-cases (is_empty p.name)) [
  | inl e ↦
      let (t, f, says) = write_unnamed_parameter-Declares i p w h e in
      (t, rw e f, subst (λ q. Declares q i p t) same says)
  | inr e ↦ (p.printed 0, rw e refl, printed e refl)
]

abbrev pub ellipsis : FunctionDecl → Bool → String
ellipsis d va_list' = if d.is_variadic then (if va_list' then ", va_list" else ", ...") else ""

write_ellipsis :
    (d : FunctionDecl) (va_list' : Bool) (w : Writer)
    → when d.is_variadic (if va_list' then write ", va_list" else write ", ...") w
      ≡ ok (append (ellipsis d va_list') w)
write_ellipsis d va_list' w = elim (Bool-cases d.is_variadic) [
  | inr e ↦ rw e (ap ok (sym (append-empty w)))
  | inl e ↦ elim (Bool-cases va_list') [ inl f ↦ rw (e, f) refl | inr f ↦ rw (e, f) refl ]
]

-- The list of these parameters, of which these texts are the declarations.
abbrev pub list_text : Policy → String → List ParmVarDecl → List String → String
list_text policy dots [] ts = if policy.use_void_for_zero_params then "(void)" else "()"
list_text policy dots (p ∷ ps) ts = "(" <> (join ts <> (dots <> ")"))

-- A list whose parameters `body` writes behind their separators.
module _ (d : FunctionDecl) (names va_list' : Bool) (w : Writer)
    (Text : ℕ → ParmVarDecl → String → Type 0) (body : ℕ → ParmVarDecl → Action Writer)
    (parameters : (λ i p. separate i >> body i p) ≡ write_parameter names)
    (writes : (i : ℕ) (p : ParmVarDecl) (v : Writer)
      → IsOpen v × (v.policy ≡ w.policy)
      → (t : String) × (body i p v ≡ ok (append t v)) × Text i p t) where
  write_function_parameter_list_lem :
      (ps : List ParmVarDecl)
      → d.parameters ≡ ps
      → (ts : List String) × Texts Text 0 ps ts
        × (write_function_parameter_list d names va_list' w
            ≡ ok (append (list_text w.policy (ellipsis d va_list') ps ts) w))
  unfolding write_function_parameter_list
  write_function_parameter_list_lem [] e = (
    [],
    tt,
    elim (Bool-cases w.policy.use_void_for_zero_params) [
      | inl f ↦ rw (write_function_parameter_list, e, f) refl
      | inr f ↦ rw (write_function_parameter_list, e, f) refl
    ],
  )
  write_function_parameter_list_lem (p ∷ ps) e =
      let inner = append "(" w in
      let (ts, f, all) =
        for_each_from-join body Text (λ v. IsOpen v × (v.policy ≡ w.policy))
          (λ t v h. (IsOpen-separator (append t v), h.1)) writes (p ∷ ps) inner
          (IsOpen-parenthesis w, refl) in
      let dots = ellipsis d va_list' in
      (
        ts,
        all,
        rw (write_function_parameter_list, e)
            (ap
                (λ o. bind o (
                  (when d.is_variadic (if va_list' then write ", va_list" else write ", ..."))
                  >> write ")"))
                (subst (λ b. for_each_from 0 (p ∷ ps) b inner ≡ ok (append (join ts) inner))
                  parameters f)
              ∙ ap (λ o. bind o (write ")")) (write_ellipsis d va_list' (append (join ts) inner))
              ∙ ap ok (
                  append-append dots ")" (append (join ts) inner)
                  ∙ append-append (join ts) (dots <> ")") inner
                  ∙ append-append "(" (join ts <> (dots <> ")")) w)),
      )

-- A parameter list with names is, between parentheses, one declaration for each parameter, in
-- order and separated by ", ", and the dots or the list of a variadic function behind them; a list
-- of no parameters is "(void)" or "()", as the printing policy says. A parameter is declared by
-- what clang prints for it; if it has no name, by its type and the name of its position, with a
-- space between them unless the type ends with `&` or `*`.
pub write_function_parameter_list-Declares :
    (d : FunctionDecl) (va_list' : Bool) (w : Writer)
    → (ts : List String) × Texts (Declares w.policy) 0 d.parameters ts
      × (write_function_parameter_list d true va_list' w
          ≡ ok (append (list_text w.policy (ellipsis d va_list') d.parameters ts) w))
unfolding write_parameter
write_function_parameter_list-Declares d va_list' w =
    write_function_parameter_list_lem d true va_list' w (Declares w.policy) declaration refl
      (declaration-Declares w.policy) d.parameters refl

-- A parameter list without names is made of the parameters' types in the same way.
pub write_function_parameter_list-types :
    (d : FunctionDecl) (va_list' : Bool) (w : Writer)
    → (ts : List String) × Texts (λ i p t. t ≡ p.type.printed w.policy "") 0 d.parameters ts
      × (write_function_parameter_list d false va_list' w
          ≡ ok (append (list_text w.policy (ellipsis d va_list') d.parameters ts) w))
unfolding write_parameter write_type
write_function_parameter_list-types d va_list' w =
    write_function_parameter_list_lem d false va_list' w (λ i p t. t ≡ p.type.printed w.policy "")
      (λ i p. write_type p.type "") refl
      (λ i p v h. (p.type.printed v.policy "", refl, ap (λ q. p.type.printed q "") h.1))
      d.parameters refl
