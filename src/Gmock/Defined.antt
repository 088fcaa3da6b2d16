-- ===== src/Gmock/Defined.antt =====
-- output/GMock.cpp: the statements that set, clear and test the mock pointers, and the definitions
-- of these pointers.
use mathlib.Core.Path.{subst}
use text.Mathlib.TextLemmas.{nil-append}
use ccmock.Base.{
  ℕ, suc, String, true, none, some, List, [], ◌∷◌, ◌≡◌, sym, ap, ◌∙◌, ◌<>◌, <>_assoc, ◌++◌,
  <>-empty, All, skip, ◌>>◌, Option, Bool-cases, inl, inr, arith, ok, spaces,
}
use ccmock.Ast.{Ast, Policy}
use ccmock.Config.{GmockSection}
use ccmock.Writer.{Writer, append, write}
use ccmock.Writer.Appends.{append-empty}
use ccmock.Writer.Texts.{At, At-seq, At-write, at_front, Holds, Holds-left, Holds-right}
use ccmock.Writer.Shows.{IsLocal, for_each-Says}
use ccmock.Contexts.{ContextMap, Order, is_global_context}
use ccmock.Contexts.Laws.{IsNested, IsNamed}
use ccmock.Gmock.Names.{
  rtrim, top_context, requires_pointer_variable, write_config_pointer_name,
  write_mock_pointer_access, write_qualified_mock_declaration_name,
}
use ccmock.Gmock.Classes.{write_pointer_definition, write_pointer_definitions}
use ccmock.Gmock.Pointers.{
  class_of, top_context-global, write_qualified_mock_declaration_name-global,
}

-- The pointer of a mock class.
abbrev pub pointer_of : GmockSection → String → String
pointer_of cfg class' = class' <> ("::" <> (rtrim cfg.class_name <> "_ptr_"))

-- The line that defines the pointer of a mock class.
abbrev pub definition_line : GmockSection → String → String
definition_line cfg class' =
    "thread_local testing::"
    <> (cfg.mock_type <> ("<" <> (class' <> ("> *" <> (pointer_of cfg class' <> " = nullptr;\n")))))

Holds-same : (s : String) → Holds s s
Holds-same s = ("", "", sym (<>-empty s) ∙ sym (nil-append (s <> "")))

All-Unit : (xs : ContextMap) → All {0, 0} (λ x. Unit) xs
All-Unit [] = tt
All-Unit (x ∷ xs) = (tt, All-Unit xs)

All-middle :
    (P : ℕ × List ℕ → Type 0) (xs ys : ContextMap) (x : ℕ × List ℕ) → All P (xs ++ x ∷ ys) → P x
All-middle P [] ys x h = h.0
All-middle P (y ∷ xs) ys x h = All-middle P xs ys x h.1

module _ (ast : Ast) (depth : ℕ → ℕ) (nested : IsNested ast depth) (named : IsNamed ast)
    (cfg : GmockSection) where
  At-name :
      (o : Option String) {w : Writer}
      → At w
          (elim o [ none ↦ skip | some name ↦ (do write "::"; write name; write "_") ])
          (elim o [ none ↦ "" | some name ↦ "::" <> (name <> "_") ])
  At-name none {w} = record { at = ap ok (sym (append-empty w)) }
  At-name (some name) = At-seq (At-write "::") (At-seq (At-write name) (At-write "_"))

  write_mock_pointer_access-pointer_of :
      (c n : ℕ) (w : Writer)
      → write_mock_pointer_access ast cfg c n w
        ≡ ok (
            append
              (spaces n <> pointer_of cfg (class_of ast cfg (top_context ast (suc ast.nesting) c)))
              w)
  unfolding write_mock_pointer_access write_config_pointer_name
  write_mock_pointer_access-pointer_of c n w =
      (At-seq (At-write (spaces n)) (
        At-seq (At-write cfg.class_name) (
          At-seq (At-name (ast.name (top_context ast (suc ast.nesting) c))) (
            At-seq (At-write "::")
              (At-seq (At-write (rtrim cfg.class_name)) (At-write "_ptr_")))))).at
      ∙ ap (λ t. ok (append (spaces n <> t) w)) (sym (<>_assoc cfg.class_name _ _))

  module _ (order : Order) where
    -- What the definition of an entry says: the line, if the entry requires a pointer.
    abbrev Defines : ℕ × List ℕ → Policy → String → Type 0
    Defines x policy text =
        requires_pointer_variable ast x.0 x.1 ≡ true
        → Holds (definition_line cfg (class_of ast cfg x.0)) text

    Defines-IsLocal : (x : ℕ × List ℕ) → IsLocal (Defines x)
    Defines-IsLocal x =
        let line = definition_line cfg (class_of ast cfg x.0) in
        record {
          left = λ policy s t h required. Holds-left line s t (h required);
          right = λ policy s t h required. Holds-right line s t (h required);
        }

    requires_pointer_variable-global :
        (e : ℕ) (children : List ℕ)
        → requires_pointer_variable ast e children ≡ true
        → is_global_context ast e ≡ true
    unfolding requires_pointer_variable
    requires_pointer_variable-global e children h = ground (arith)

    At-class :
        (e : ℕ) (children : List ℕ)
        → requires_pointer_variable ast e children ≡ true
        → {v : Writer} → At v (write_qualified_mock_declaration_name ast cfg e) (class_of ast cfg e)
    At-class e children h {v} = record {
      at =
          write_qualified_mock_declaration_name-global ast depth nested named cfg e v
            (requires_pointer_variable-global e children h);
    }

    write_pointer_definition-definition_line :
        (e : ℕ) (children : List ℕ) (w : Writer)
        → requires_pointer_variable ast e children ≡ true
        → write_pointer_definition ast order cfg (e, children) w
          ≡ ok (append (definition_line cfg (class_of ast cfg e)) w)
    unfolding write_pointer_definition write_config_pointer_name
    write_pointer_definition-definition_line e children w h =
        let class' = class_of ast cfg e in
        let pointer = rtrim cfg.class_name <> "_ptr_" in
        rw (write_pointer_definition, h)
          ((At-seq (At-write "thread_local testing::") (
              At-seq (At-write cfg.mock_type) (
                At-seq (At-write "<") (
                  At-seq (At-class e children h) (
                    At-seq (At-write "> *") (
                      At-seq (At-class e children h) (
                        At-seq (At-write "::") (
                          At-seq (At-seq (At-write (rtrim cfg.class_name)) (At-write "_ptr_"))
                            (At-write " = nullptr;\n"))))))))).at
            ∙ ap
                (λ t. ok (
                  append
                    ("thread_local testing::"
                      <> (cfg.mock_type <> ("<" <> (class' <> ("> *" <> t)))))
                    w))
                (sym (at_front class' ("::" <> pointer) " = nullptr;\n" (<>_assoc "::" pointer _))))

    write_pointer_definition-Defines :
        (x : ℕ × List ℕ) (w : Writer)
        → (text : String) × (write_pointer_definition ast order cfg x w ≡ ok (append text w))
          × Defines x w.policy text
    unfolding write_pointer_definition
    write_pointer_definition-Defines (e, children) w =
        elim (Bool-cases (requires_pointer_variable ast e children)) [
          | inl required ↦
              let line = definition_line cfg (class_of ast cfg e) in
              (
                line,
                write_pointer_definition-definition_line e children w required,
                λ h. Holds-same line,
              )
          | inr spared ↦ (
            "",
            rw (write_pointer_definition, spared) (ap ok (sym (append-empty w))),
            λ h. cc (h, spared),
          )
        ]

    -- A statement that sets, clears or tests the pointer of any context names, behind its
    -- indentation, the pointer of the class of the outermost context on the way out to the
    -- translation unit, which is a global one. `writePointerDefinitions` succeeds, and its text
    -- holds the line that defines this very pointer, with the type of its class, if the map has
    -- an entry for that context, or for one of the same name, that requires a pointer.
    pub write_mock_pointer_access-write_pointer_definition :
        (c e : ℕ) (children : List ℕ) (m xs ys : ContextMap)
        → order.of_map m ≡ xs ++ (e, children) ∷ ys
        → ast.name e ≡ ast.name (top_context ast (suc ast.nesting) c)
        → requires_pointer_variable ast e children ≡ true
        → (w : Writer)
        → (is_global_context ast (top_context ast (suc ast.nesting) c) ≡ true)
          × ((class' : String) × ((n : ℕ) (v : Writer)
                → write_mock_pointer_access ast cfg c n v
                  ≡ ok (append (spaces n <> pointer_of cfg class') v))
              × ((text : String) × (write_pointer_definitions ast order cfg m w
                    ≡ ok (append text w))
                  × Holds (definition_line cfg class') text))
    unfolding write_pointer_definitions
    write_mock_pointer_access-write_pointer_definition c e children m xs ys entries same required
          w =
        let (text, written, all) =
          for_each-Says Defines Defines-IsLocal (write_pointer_definition ast order cfg) (λ x. Unit)
            (λ x fits v. write_pointer_definition-Defines x v) (order.of_map m)
            (All-Unit (order.of_map m)) w in
        let P : ℕ × List ℕ → Type 0 = λ x. Defines x w.policy text in
        let line = All-middle P xs ys (e, children) (subst (λ zs. All P zs) entries all) required in
        (
          top_context-global ast depth nested named (suc ast.nesting) c
              (omega (arith, nested.bounded c)),
          (
            class_of ast cfg (top_context ast (suc ast.nesting) c),
            write_mock_pointer_access-pointer_of c,
            (
              text,
              written,
              subst
                  (λ o.
                    Holds
                      (definition_line cfg (
                        cfg.class_name <> elim o [ none ↦ "" | some name ↦ "::" <> (name <> "_") ]))
                      text)
                  same line,
            ),
          ),
        )
