-- ===== src/Raw/Statements.antt =====
-- output/Raw.cpp: the statements of `visit`, by the braces that they open and close.
use ccmock.Base.{
  ℕ, suc, true, false, not, some, ◌≡◌, refl, sym, ◌∙◌, inl, inr, Bool-cases, if◌then◌else◌, Action,
  ok, bind, ◌>>◌,
}
use ccmock.Ast.{Ast, Access, as_none, is_translation_unit, FunctionDecl}
use ccmock.Writer.{write, indent, write_decl_name, write_function_decl, with_name}
use ccmock.Writer.Appends.{append-empty}
use ccmock.Writer.Braces.{level, depth_behind, Puts, Puts-write, Puts-indent, Puts-seq}
use ccmock.Contexts.{ContextMap, Order, index_map, is_class_or_other}
use ccmock.Contexts.Laws.{IsNamed}
use ccmock.Contexts.Links.{has_child}
use ccmock.Contexts.Entries.{Same, IsOrder, named_context, index_map-children, index_map-keeps}
use ccmock.Raw.{
  State, emit, same_access, write_access, write_tag_kind, visit_function, for_children,
}
use ccmock.Raw.Prints.{
  IsBraced, Prints, Prints-skip, Prints-emit, Prints-seq, Prints-for_each, Puts-write_access,
  Puts-write_tag_kind,
}

-- Every function among the contexts is a `FunctionDecl`.
pub record HasFunctionDecls (ast : Ast) : Type 0 where
  pub function_of :
      (c : ℕ)
      → is_class_or_other (ast.kind c) ≡ false
      → (d : FunctionDecl) × (ast.function c ≡ some d)

module _ (ast : Ast) (named : IsNamed ast) (braced : IsBraced ast)
    (functions : HasFunctionDecls ast) (order : Order) (ordered : IsOrder order)
    (start : ContextMap) where
  Puts-write_decl_name :
      (f : ℕ → ℕ) (c : ℕ)
      → is_translation_unit (ast.kind c) ≡ false
      → Puts f f (write_decl_name ast c)
  unfolding write_decl_name with_name
  Puts-write_decl_name f c e =
      let (name, called) = named_context ast named c e in
      record {
        puts =
            λ w. (name, rw (with_name, called) refl, λ n. braced.name_balanced c name called (f n));
      }

  Prints-set_access :
      (f : ℕ → ℕ) (a : Access) → Prints (Same start) f f (λ s. ok (record s { current_access = a }))
  unfolding depth_behind
  Prints-set_access f a = record {
    prints = λ s h.
        (record s { current_access = a }, "", refl, h, sym (append-empty s.writer), λ n. refl);
  }

  pub Prints-change_access :
      (d : FunctionDecl)
      → Prints (Same start) level level (λ s.
        if not (same_access d.access s.current_access)
        then bind
            (emit (write_access d.access) s)
            (λ t. ok (record t { current_access = d.access }))
        else ok s)
  Prints-change_access d = record {
    prints = λ s h. elim (Bool-cases (same_access d.access s.current_access)) [
      | inl e ↦ rw e ((Prints-skip (Same start) level).prints s h)
      | inr e ↦ rw e (
          (Prints-seq (Same start) level level level
              (Prints-emit (Same start) (Puts-write_access d.access))
              (Prints-set_access level d.access)).prints
            s h)
    ];
  }

  pub Prints-visit_function :
      (c : ℕ) (d : FunctionDecl) (n : ℕ)
      → ast.function c ≡ some d
      → Prints (Same start) level level (visit_function d n)
  unfolding visit_function write_function_decl depth_behind
  Prints-visit_function c d n found =
      Prints-seq (Same start) level level level (Prints-change_access d) (
        Prints-emit (Same start) (
          Puts-seq (Puts-indent level n) (
            Puts-seq {f = level} {g = level}
              (record {
                puts = λ w.
                    (d.printed w.policy n, refl, braced.declaration_balanced c d w.policy n found);
              })
              (Puts-write level level ";\n" (λ k. refl)))))

  pub Prints-for_children :
      (c : ℕ) (body : ℕ → Action State)
      → ((x : ℕ) → has_child start c x ≡ true → Prints (Same start) level level (body x))
      → Prints (Same start) level level (for_children ast order c body)
  unfolding for_children
  Prints-for_children c body h = record {
    prints = λ s k.
        let children = (index_map c s.context_map).0 in
        (Prints-for_each (Same start) (order.of_set children) body (λ x e. h x (
            sym (k c x)
            ∙ index_map-children s.context_map c x (ordered.of_set_mem x children e)))).prints
          (record s { context_map = (index_map c s.context_map).1 })
          (λ q x. index_map-keeps s.context_map c q x ∙ k q x);
  }

  pub Prints-open_namespace :
      (c n : ℕ)
      → is_translation_unit (ast.kind c) ≡ false
      → Prints
          (Same start)
          level
          suc
          (emit (do indent n; write "namespace "; write_decl_name ast c; write " {\n\n"))
  unfolding depth_behind
  Prints-open_namespace c n e = Prints-emit (Same start) (
      Puts-seq (Puts-indent level n) (
        Puts-seq (Puts-write level level "namespace " (λ k. refl))
          (Puts-seq (Puts-write_decl_name level c e) (Puts-write level suc " {\n\n" (λ k. refl)))))

  pub Prints-close_namespace :
      (c : ℕ)
      → is_translation_unit (ast.kind c) ≡ false
      → Prints
          (Same start)
          suc
          level
          (emit (do write "\n} /* namespace "; write_decl_name ast c; write " */\n\n"))
  unfolding depth_behind
  Prints-close_namespace c e = Prints-emit (Same start) (
      Puts-seq (Puts-write suc level "\n} /* namespace " (λ k. refl))
        (Puts-seq (Puts-write_decl_name level c e) (Puts-write level level " */\n\n" (λ k. refl))))

  pub Prints-open_record :
      (c n : ℕ)
      → is_translation_unit (ast.kind c) ≡ false
      → Prints
          (Same start)
          level
          suc
          (emit (do indent n; write_tag_kind (ast.tag_kind c); write_decl_name ast c; write " {\n"))
  unfolding depth_behind
  Prints-open_record c n e = Prints-emit (Same start) (
      Puts-seq (Puts-indent level n) (
        Puts-seq (Puts-write_tag_kind (ast.tag_kind c))
          (Puts-seq (Puts-write_decl_name level c e) (Puts-write level suc " {\n" (λ k. refl)))))

  pub Prints-close_record :
      Prints
        (Same start)
        suc
        level
        (emit (write "};\n\n") >> (λ s. ok (record s { current_access = as_none })))
  unfolding depth_behind
  Prints-close_record =
      Prints-seq (Same start) suc level level
        (Prints-emit (Same start) (Puts-write suc level "};\n\n" (λ k. refl)))
        (Prints-set_access level as_none)
