-- ===== src/Gmock/Texts.antt =====
-- output/GMock.cpp: the exact text of a `MOCK_METHOD` line, and of a mock function.
use text.Mathlib.TextLemmas.{nil-append}
use ccmock.Base.{
  ℕ, String, true, false, ◌&&◌, Option, none, some, List, ◌≡◌, sym, ap, ◌∙◌, ◌<>◌, <>_assoc,
  <>-empty, if◌then◌else◌, spaces, ok, ◌>>◌, skip, when,
}
use ccmock.Ast.{Policy, FunctionDecl, Method, RefQualifier, rq_none, rq_lvalue, rq_rvalue, Ast}
use ccmock.Config.{GmockSection}
use ccmock.Writer.{
  Writer, append, write, mock_name, write_fully_qualified_name, write_function_parameter_list,
  write_function_specifiers, write_function_reference_qualifiers,
}
use ccmock.Writer.Appends.{append-empty}
use ccmock.Writer.Separated.{Texts}
use ccmock.Writer.ParameterList.{
  Declares, list_text, ellipsis, write_function_parameter_list-Declares,
  write_function_parameter_list-types,
}
use ccmock.Writer.Shows.{IsLocal}
use ccmock.Writer.Texts.{
  Writes, Writes-write, Writes-seq, Writes-if, Writes-when, Writes-write_return_type, At-Writes,
  At-write, At-seq, Holds, Holds-left, Holds-right, at_front,
}
use ccmock.Contexts.{has_return_type}
use ccmock.Contexts.Laws.{IsNested, IsNamed}
use ccmock.Gmock.Appends.{IsWritable}
use ccmock.Gmock.Bodies.{IsBody, At-write_mock_name, write_function_body-IsBody}
use ccmock.Gmock.Classes.{write_mock_method}
use ccmock.Gmock.Calls.{write_function, write_function_body}

-- a method's `const` and `noexcept`
abbrev pub specifiers : Option Method → String
specifiers none = ""
specifiers (some m) =
    (if m.is_const then " const" else "")
    <> (if m.has_noexcept_spec && m.spec_range_is_valid then " noexcept" else "")

-- a method's reference qualifier
abbrev pub qualifier : Option Method → String
qualifier none = ""
qualifier (some m) = elim m.ref_qualifier [ rq_lvalue ↦ " &" | rq_rvalue ↦ " &&" | rq_none ↦ "" ]

Writes-write_function_specifiers :
    (d : FunctionDecl) → Writes (write_function_specifiers d) (λ policy. specifiers d.method)
unfolding write_function_specifiers
Writes-write_function_specifiers d = go d.method
  where
    go :
        (o : Option Method)
        → Writes
            (elim o [
              | none ↦ skip
              | some m ↦
                  when m.is_const (write " const")
                  >> when (m.has_noexcept_spec && m.spec_range_is_valid) (write " noexcept")
            ])
            (λ policy. specifiers o)
    go none = record { writes = λ w. ap ok (sym (append-empty w)) }
    go (some m) =
        Writes-seq (Writes-when m.is_const (Writes-write " const"))
          (Writes-when (m.has_noexcept_spec && m.spec_range_is_valid) (Writes-write " noexcept"))

Writes-write_function_reference_qualifiers :
    (d : FunctionDecl)
    → Writes (write_function_reference_qualifiers d) (λ policy. qualifier d.method)
unfolding write_function_reference_qualifiers
Writes-write_function_reference_qualifiers d = go d.method
  where
    by_qualifier :
        (q : RefQualifier)
        → Writes
            (elim q [ rq_lvalue ↦ write " &" | rq_rvalue ↦ write " &&" | rq_none ↦ skip ])
            (λ policy. elim q [ rq_lvalue ↦ " &" | rq_rvalue ↦ " &&" | rq_none ↦ "" ])
    by_qualifier rq_lvalue = Writes-write " &"
    by_qualifier rq_rvalue = Writes-write " &&"
    by_qualifier rq_none = record { writes = λ w. ap ok (sym (append-empty w)) }

    go :
        (o : Option Method)
        → Writes
            (elim o [
              | none ↦ skip
              | some m ↦ elim m.ref_qualifier [
                | rq_lvalue ↦ write " &"
                | rq_rvalue ↦ write " &&"
                | rq_none ↦ skip
              ]
            ])
            (λ policy. qualifier o)
    go none = record { writes = λ w. ap ok (sym (append-empty w)) }
    go (some m) = by_qualifier m.ref_qualifier

abbrev pub method_line : Policy → FunctionDecl → String → List String → String
method_line policy d name types =
    "MOCK_METHOD(("
    <> ((if has_return_type d then d.return_type.printed policy "" else "void")
        <> ("), "
            <> (name
                <> (", " <> (list_text policy (ellipsis d true) d.parameters types <> ");\n")))))

-- The text declares a mock method of this function: with its return type or `void`, under its mock
-- name, and with its parameters' types.
abbrev pub IsMocked : Policy → FunctionDecl → String → Type 0
IsMocked policy d text =
    (name : String) × (types : List String) × (mock_name d ≡ some name)
    × Texts (λ i p t. t ≡ p.type.printed policy "") 0 d.parameters types
    × Holds (method_line policy d name types) text

abbrev pub head : Policy → FunctionDecl → List String → String
head policy d declarations =
    (if d.is_extern_c then "CCMOCK_LINKAGE " else "")
    <> ((if has_return_type d then d.return_type.printed policy "" <> "\n" else "")
        <> (d.qualified_name
            <> (list_text policy (ellipsis d false) d.parameters declarations
                <> (specifiers d.method <> (qualifier d.method <> ("\n" <> "{\n"))))))

-- The text defines this function: with its linkage, return type and qualified name, a declaration
-- of each parameter, the qualifiers of a method, and the body.
abbrev pub IsDefined : Ast → GmockSection → FunctionDecl → Policy → String → Type 0
IsDefined ast cfg d policy text =
    (declarations : List String) × (block : String) × Texts (Declares policy) 0 d.parameters
      declarations
    × IsBody ast cfg d block
    × Holds (head policy d declarations <> (block <> "\n")) text

pub IsMocked-IsLocal : (d : FunctionDecl) → IsLocal (λ policy text. IsMocked policy d text)
IsMocked-IsLocal d = record {
  left = λ policy s t (name, types, e, all, h).
      (name, types, e, all, Holds-left (method_line policy d name types) s t h);
  right = λ policy s t (name, types, e, all, h).
      (name, types, e, all, Holds-right (method_line policy d name types) s t h);
}

pub IsDefined-IsLocal :
    (ast : Ast) (cfg : GmockSection) (d : FunctionDecl) → IsLocal (IsDefined ast cfg d)
IsDefined-IsLocal ast cfg d = record {
  left = λ policy s t (ts, block, all, is, h).
      (ts, block, all, is, Holds-left (head policy d ts <> (block <> "\n")) s t h);
  right = λ policy s t (ts, block, all, is, h).
      (ts, block, all, is, Holds-right (head policy d ts <> (block <> "\n")) s t h);
}

-- The line of a mock method, behind its indentation.
pub write_mock_method-IsMocked :
    (d : FunctionDecl) (n : ℕ) (w : Writer) {name : String}
    → mock_name d ≡ some name
    → (text : String) × (write_mock_method d n w ≡ ok (append text w)) × IsMocked w.policy d text
unfolding write_mock_method
write_mock_method-IsMocked d n w {name} e =
    let returned = if has_return_type d then d.return_type.printed w.policy "" else "void" in
    let behind_name = append ", " (
      append name
        (append "), " (append returned (append "MOCK_METHOD((" (append (spaces n) w))))) in
    let (types, all, list) = write_function_parameter_list-types d true behind_name in
    let line = method_line w.policy d name types in
    (
      spaces n <> line,
      (At-seq (At-write (spaces n)) (
          At-seq (At-write "MOCK_METHOD((") (
            At-seq
              (At-Writes
                (Writes-if (has_return_type d) (Writes-write_return_type d) (Writes-write "void")))
              (At-seq (At-write "), ") (
                At-seq (At-write_mock_name d e) (
                  At-seq (At-write ", ") (
                    At-seq {m = write_function_parameter_list d false true} (record { at = list })
                      (At-write ");\n")))))))).at,
      (name, types, e, all, (spaces n, "", ap (λ x. spaces n <> x) (sym (<>-empty line)))),
    )

-- A mock function.
pub write_function-IsDefined :
    (ast : Ast) (depth : ℕ → ℕ) (nested : IsNested ast depth) (named : IsNamed ast)
    (cfg : GmockSection) (d : FunctionDecl)
    → IsWritable ast d
    → (w : Writer)
    → (text : String) × (write_function ast cfg d w ≡ ok (append text w))
      × IsDefined ast cfg d w.policy text
unfolding write_function write_fully_qualified_name
write_function-IsDefined ast depth nested named cfg d able w =
    let linkage = if d.is_extern_c then "CCMOCK_LINKAGE " else "" in
    let returned = if has_return_type d then d.return_type.printed w.policy "" <> "\n" else "" in
    let behind_name = append d.qualified_name (append returned (append linkage w)) in
    let (ts, all, list) = write_function_parameter_list-Declares d false behind_name in
    let parameters = list_text w.policy (ellipsis d false) d.parameters ts in
    let (block, opened, is) = write_function_body-IsBody ast depth nested named cfg d able (
      append "\n" (
        append (qualifier d.method)
          (append (specifiers d.method) (append parameters behind_name)))) in
    (
      linkage
          <> (returned
              <> (d.qualified_name
                  <> (parameters
                      <> (specifiers d.method
                          <> (qualifier d.method <> ("\n" <> (("{\n" <> block) <> "\n"))))))),
      (At-seq (At-Writes (Writes-when d.is_extern_c (Writes-write "CCMOCK_LINKAGE "))) (
          At-seq
            (At-Writes (
              Writes-when (has_return_type d)
                (Writes-seq (Writes-write_return_type d) (Writes-write "\n"))))
            (At-seq (At-write d.qualified_name) (
              At-seq {m = write_function_parameter_list d true false} (record { at = list })
                (At-seq (At-Writes (Writes-write_function_specifiers d)) (
                  At-seq (At-Writes (Writes-write_function_reference_qualifiers d)) (
                    At-seq (At-write "\n") (
                      At-seq {m = write_function_body ast cfg d} (record { at = opened })
                        (At-write "\n"))))))))).at,
      (
        ts,
        block,
        all,
        is,
        (
          "",
          "",
          sym (
              nil-append _
              ∙ <>-empty _
              ∙ at_front linkage _ _ (
                  at_front returned _ _ (
                    at_front d.qualified_name _ _ (
                      at_front parameters _ _ (
                        at_front (specifiers d.method) _ _ (
                          at_front (qualifier d.method) _ _
                            (at_front "\n" _ _ (sym (<>_assoc "{\n" block "\n"))))))))),
        ),
      ),
    )
