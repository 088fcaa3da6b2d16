-- ===== src/Raw.antt =====
-- output/Raw.cpp: the plain declarations of the functions, in their namespaces and classes.
pub mod Prints
pub mod Statements
pub mod Shows
pub mod Balance
pub mod Complete
use ccmock.Base.{
  ℕ, zero, suc, ◌+◌, Bool, true, false, not, none, some, List, if◌then◌else◌, Action, Outcome, ok,
  exit, fault, bind, ◌>>◌, skip, for_each, raise_fault,
}
use ccmock.Ast.{
  translation_unit, namespace, cxx_record, other, Access, as_public, as_protected, as_private,
  as_none, TagKind, tag_class, tag_struct, tag_union, tag_other, FunctionDecl, Ast,
}
use ccmock.Writer.{Writer, write, indent, write_decl_name, write_function_decl}
use ccmock.Contexts.{ContextMap, Order, index_map, create_context_map}

pub record State : Type 0 where
  pub writer : Writer
  pub context_map : ContextMap
  pub current_access : Access

abbrev pub with_writer : State → Outcome Writer → Outcome State
with_writer s (ok w) = ok (record s { writer = w })
with_writer s exit = exit
with_writer s fault = fault

abbrev pub emit : Action Writer → Action State
emit m s = with_writer s (m s.writer)

unfoldable pub same_access : Access → Access → Bool
same_access as_public as_public = true
same_access as_protected as_protected = true
same_access as_private as_private = true
same_access as_none as_none = true
same_access _ _ = false

unfoldable pub write_access : Access → Action Writer
write_access as_public = write "public:\n"
write_access as_protected = write "protected:\n"
write_access as_private = write "private:\n"
write_access as_none = skip

unfoldable pub write_tag_kind : TagKind → Action Writer
write_tag_kind tag_class = write "class "
write_tag_kind tag_struct = write "struct "
write_tag_kind tag_union = write "union "
write_tag_kind tag_other = skip

-- the last case of the switch
unfoldable pub visit_function : FunctionDecl → ℕ → Action State
unfolding same_access write_access write_function_decl
visit_function d n s =
    bind
      (if not (same_access d.access s.current_access)
        then bind (emit (write_access d.access) s)
            (λ t. ok (record t { current_access = d.access }))
        else ok s)
      (emit (do indent n; write_function_decl d n; write ";\n"))

module _ (ast : Ast) (order : Order) where
  -- `for (const auto &Child : ContextMap_[Context]) body(Child)`
  unfoldable pub for_children : ℕ → (ℕ → Action State) → Action State
  unfolding index_map
  for_children context body s =
      let (children, m) = index_map context s.context_map in
      for_each (order.of_set children) body (record s { context_map = m })

  -- the case of a namespace; `again` makes the calls for the children
  unfoldable pub visit_namespace : (ℕ → ℕ → Action State) → ℕ → ℕ → Action State
  unfolding for_children write_decl_name
  visit_namespace again context n = do
    emit (do indent n; write "namespace "; write_decl_name ast context; write " {\n\n")
    for_children context (λ c. again c n)
    emit (do write "\n} /* namespace "; write_decl_name ast context; write " */\n\n")

  -- the case of a class
  unfoldable pub visit_record : (ℕ → ℕ → Action State) → ℕ → ℕ → Action State
  unfolding for_children write_tag_kind write_decl_name
  visit_record again context n = do
    emit (do
      indent n
      write_tag_kind (ast.tag_kind context)
      write_decl_name ast context
      write " {\n")
    for_children context (λ c. again c (n + 4))
    emit (write "};\n\n")
    (λ s. ok (record s { current_access = as_none }))

  -- One call of `visit`.
  unfoldable pub visit_context : (ℕ → ℕ → Action State) → ℕ → ℕ → Action State
  unfolding for_children visit_function visit_namespace visit_record
  visit_context again context n = elim (ast.kind context) [
    | translation_unit ↦ for_children context (λ c. again c n)
    | namespace ↦ visit_namespace again context n
    | cxx_record ↦ visit_record again context n
    | other ↦ skip
    | _ ↦ elim (ast.function context) [ none ↦ raise_fault | some d ↦ visit_function d n ]
  ]

  -- Contexts nest no deeper than the fuel, so the walk never runs out.
  unfoldable pub visit : ℕ → ℕ → ℕ → Action State
  unfolding visit_context
  visit zero context n = raise_fault
  visit (suc fuel) context n = visit_context (visit fuel) context n

  unfoldable pub run : List FunctionDecl → Action State
  unfolding create_context_map visit
  run functions s =
      visit (suc ast.nesting) ast.root 0
        (record s { context_map = create_context_map ast functions })
