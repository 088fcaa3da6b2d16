-- ===== src/Generator/Variables.antt =====
-- output/OutputGenerator.cpp, `writeGlobalVariables`: the exact text of the variables.
use text.Mathlib.TextLemmas.{nil-append}
use ccmock.Base.{
  String, true, false, none, some, List, [], ◌∷◌, ◌≡◌, sym, ap, ◌∙◌, ◌<>◌, if◌then◌else◌, ok, bind,
  bind_assoc, for_each,
}
use ccmock.Ast.{Policy, VarDecl}
use ccmock.Writer.{Writer, append, write_type, points_to_function, write_fully_qualified_name}
use ccmock.Writer.Shows.{IsLocal}
use ccmock.Writer.Texts.{
  Writes, Writes-write, Writes-seq, Writes-if, Writes-when, Writes-write_type, Writes-for_each,
  concat, Holds, Holds-IsLocal,
}
use ccmock.Generator.{set_suppress_tag_keyword, write_global_variable, write_global_variables}

-- The text for a variable: one that points or refers to a function has its name inside its type,
-- and an object of a class that has no default constructor is left out.
abbrev pub variable_text : Policy → VarDecl → String
variable_text policy d =
    if points_to_function d.type
    then d.type.printed policy (d.qualified_name_in policy) <> ";\n"
    else if elim d.record_decl [ none ↦ true | some r ↦ r.has_default_constructor ]
    then d.type.printed policy "" <> (" " <> (d.qualified_name <> ";\n"))
    else ""

-- the policy under which the types are printed: with their tag keywords
abbrev pub with_tags : Policy → Policy
with_tags policy = record policy { suppress_tag_keyword = false }

Writes-write_global_variable :
    (d : VarDecl) → Writes (write_global_variable d) (λ policy. variable_text policy d)
unfolding write_global_variable write_fully_qualified_name write_type
Writes-write_global_variable d =
    Writes-if (points_to_function d.type)
      (record {
        writes = λ w.
            (Writes-seq (Writes-write_type d.type (d.qualified_name_in w.policy))
                (Writes-write ";\n")).writes
              w;
      })
      (Writes-when (elim d.record_decl [ none ↦ true | some r ↦ r.has_default_constructor ])
        (Writes-seq (Writes-write_type d.type "")
          (Writes-seq (Writes-write " ") (Writes-seq (Writes-write _) (Writes-write ";\n")))))

-- The variables are written one behind the other, in order, with tag keywords in their types; what
-- stands behind them is the printing policy that was there before.
pub write_global_variables-concat :
    (ds : List VarDecl) (w : Writer)
    → write_global_variables ds w
      ≡ ok (
          append
            (concat ds (variable_text (with_tags w.policy))
              <> (if elim ds [ [] ↦ false | d ∷ rest ↦ true ] then "\n" else ""))
            w)
unfolding write_global_variables set_suppress_tag_keyword
write_global_variables-concat ds w =
    let start = record w { policy = with_tags (w.policy) } in
    sym (bind_assoc (for_each ds write_global_variable start) _ _)
    ∙ ap (λ o. bind o (set_suppress_tag_keyword w.policy.suppress_tag_keyword))
        ((Writes-seq (Writes-for_each ds Writes-write_global_variable)
            (Writes-when (elim ds [ [] ↦ false | d ∷ rest ↦ true ]) (Writes-write "\n"))).writes
          start)

-- The text holds the texts of the variables.
abbrev pub HasVariables : List VarDecl → Policy → String → Type 0
HasVariables ds policy text = Holds (concat ds (variable_text (with_tags policy))) text

pub HasVariables-IsLocal : (ds : List VarDecl) → IsLocal (HasVariables ds)
HasVariables-IsLocal ds = Holds-IsLocal (λ policy. concat ds (variable_text (with_tags policy)))

pub write_global_variables-HasVariables :
    (ds : List VarDecl) (w : Writer)
    → (text : String) × (write_global_variables ds w ≡ ok (append text w))
      × HasVariables ds w.policy text
write_global_variables-HasVariables ds w =
    (_, write_global_variables-concat ds w, ("", _, sym (nil-append _)))
