-- ===== src/Gmock/Appends.antt =====
-- output/GMock.cpp: the names and statements that the backend writes for a context or a function
-- always succeed, on the declarations that the walk can hand over.
use mathlib.Core.List.{reverse, reverse_aux}
use ccmock.Base.{
  ℕ, zero, suc, ◌≤◌, String, true, false, Option, none, some, List, [], ◌∷◌, ◌≡◌, refl, arith,
  if◌then◌else◌, All, Action, ◌>>◌, skip, for_each,
}
use ccmock.Ast.{Ast, is_translation_unit, FunctionDecl}
use ccmock.Config.{GmockSection}
use ccmock.Writer.{Writer, write, mock_name}
use ccmock.Writer.Appends.{
  Appends, appends, Appends-write, Appends-skip, Appends-seq, Appends-indent, Appends-with_name,
}
use ccmock.Contexts.{collect_all_contexts}
use ccmock.Contexts.Laws.{IsNested, IsNamed}
use ccmock.Visitor.Selection.{has_no_parameters}
use ccmock.Gmock.Names.{
  pop_back, for_enclosing, top_context, write_config_pointer_name, write_mock_pointer_access,
  write_qualified_mock_declaration_name,
}
use ccmock.Gmock.Calls.{write_call_context, write_mock_call_pointer_access}

-- A context below the translation unit.
abbrev pub HasParent : Ast → ℕ → Type 0
HasParent ast c = (p : ℕ) × (ast.parent c ≡ some p)

-- A function that has a mock name, a context around it, and a named parameter if it is variadic.
pub record IsWritable (ast : Ast) (d : FunctionDecl) : Type 0 where
  pub called : (name : String) × (mock_name d ≡ some name)
  pub enclosed : HasParent ast d.context
  pub parameters : d.is_variadic ≡ true → has_no_parameters d ≡ false

All-reverse_aux {ℓ} :
    {A : Type ℓ} (P : A → Type 0) (xs ys : List A) → All P xs → All P ys → All P (reverse_aux xs ys)
All-reverse_aux P [] ys h k = k
All-reverse_aux P (x ∷ xs) ys h k = All-reverse_aux P xs (x ∷ ys) h.1 (h.0, k)

pub Appends-for_each_where {ℓ} :
    {A : Type ℓ} {P : A → Type 0} (xs : List A) (body : A → Action Writer)
    → ((x : A) → P x → Appends (body x))
    → All P xs
    → Appends (for_each xs body)
Appends-for_each_where [] body h k = record { runs = Appends-skip.runs }
Appends-for_each_where (x ∷ xs) body h k = record {
  runs = (Appends-seq (h x k.0) (Appends-for_each_where xs body h k.1)).runs;
}

pub Appends-write_config_pointer_name :
    (cfg : GmockSection) → Appends (write_config_pointer_name cfg)
unfolding write_config_pointer_name
Appends-write_config_pointer_name cfg = search appends

module _ (ast : Ast) (depth : ℕ → ℕ) (nested : IsNested ast depth) (named : IsNamed ast) where
  -- All contexts collected but the last, the translation unit, have a parent.
  Appends-pop_back :
      (fuel c : ℕ) (k : List ℕ → Action Writer)
      → ((cs : List ℕ) → All (HasParent ast) cs → Appends (k cs))
      → depth c ≤ fuel
      → Appends (pop_back (collect_all_contexts ast (suc fuel) (some c)) k)
  unfolding collect_all_contexts
  Appends-pop_back zero c k h enough = h [] tt
  Appends-pop_back (suc fuel) c k h enough =
      go
        (λ p e.
          Appends-pop_back fuel p (λ cs. k (c ∷ cs)) (λ cs all. h (c ∷ cs) ((p, e), all))
            (omega (arith, nested.parent_depth c p e)))
        (ast.parent c) refl
    where
      go :
          ((p : ℕ)
            → ast.parent c ≡ some p
            → Appends (pop_back (collect_all_contexts ast (suc fuel) (some p)) (λ cs. k (c ∷ cs))))
          → (o : Option ℕ) → ast.parent c ≡ o
          → Appends (pop_back (c ∷ collect_all_contexts ast (suc fuel) o) k)
      go next none e = h [] tt
      go next (some p) e = next p e

  pub Appends-for_enclosing :
      (c : ℕ) (body : ℕ → Action Writer)
      → ((x : ℕ) → HasParent ast x → Appends (body x))
      → Appends (for_enclosing ast c body)
  unfolding for_enclosing
  Appends-for_enclosing c body h =
      Appends-pop_back ast.nesting c _
        (λ cs all.
          Appends-for_each_where (reverse cs) body h (All-reverse_aux (HasParent ast) cs [] all tt))
        (nested.bounded c)

  module _ (cfg : GmockSection) where
    pub Appends-write_qualified_mock_declaration_name :
        (c : ℕ) → Appends (write_qualified_mock_declaration_name ast cfg c)
    unfolding write_qualified_mock_declaration_name
    Appends-write_qualified_mock_declaration_name c = Appends-seq (Appends-write cfg.class_name) (
        Appends-for_enclosing c _ (λ x (p, e).
          let (name, called) = named.inner_name x p e in
          Appends-with_name ast x _ called (search appends)))

    pub Appends-write_mock_pointer_access :
        (c n : ℕ) → Appends (write_mock_pointer_access ast cfg c n)
    unfolding write_mock_pointer_access
    Appends-write_mock_pointer_access c n = Appends-seq (Appends-indent n) (
        Appends-seq (Appends-write cfg.class_name) (
          Appends-seq (name_part (ast.name (top_context ast (suc ast.nesting) c)))
            (Appends-seq (Appends-write "::") (Appends-write_config_pointer_name cfg))))
      where
        name_part :
            (o : Option String)
            → Appends (elim o [ none ↦ skip | some name ↦ (do write "::"; write name; write "_") ])
        name_part none = Appends-skip
        name_part (some name) = search appends

    Appends-write_call_context : (x : ℕ) → HasParent ast x → Appends (write_call_context ast cfg x)
    unfolding write_call_context
    Appends-write_call_context x (p, e) =
        let (name, called) = named.inner_name x p e in
        Appends-with_name ast x _ called
          (search (appends, Appends-write_config_pointer_name) depth 12)

    Appends-write_call_contexts :
        (parent : ℕ) → Appends (for_enclosing ast parent (write_call_context ast cfg))
    Appends-write_call_contexts parent =
        Appends-for_enclosing parent (write_call_context ast cfg) Appends-write_call_context

    pub Appends-write_mock_call_pointer_access :
        (d : FunctionDecl)
        → HasParent ast d.context
        → Appends (write_mock_call_pointer_access ast cfg d)
    unfolding write_mock_call_pointer_access
    Appends-write_mock_call_pointer_access d (parent, e) = record {
      runs = λ w. let (s, h) = all.runs w in (s, rw (write_mock_call_pointer_access, e) h);
    }
      where
        all : Appends (do
          write "(*"
          write cfg.class_name
          if is_translation_unit (ast.kind parent)
              then (do write "::"; write_config_pointer_name cfg; write ").")
              else (do for_enclosing ast parent (write_call_context ast cfg); write "."))
        all =
            search (appends, Appends-write_config_pointer_name, Appends-write_call_contexts) depth
              12
