-- ===== src/Raw/Prints.antt =====
-- output/Raw.cpp: the statements of class `Raw`, which may index the context map, by the braces
-- that they open and close.
use ccmock.Base.{
  ℕ, true, String, some, List, [], ◌∷◌, ◌≡◌, refl, ap, ◌∙◌, sym, arith, ◌<>◌, mem_nat, Action, ok,
  bind, ◌>>◌, skip, for_each,
}
use ccmock.Ast.{
  Ast, Access, Policy, FunctionDecl, TagKind, as_public, as_protected, as_private, as_none,
  tag_class, tag_struct, tag_union, tag_other,
}
use ccmock.Writer.{Writer, append}
use ccmock.Writer.Appends.{append-append, append-empty}
use ccmock.Writer.Braces.{
  Moves, level, IsBalanced, depth_behind, Moves-append, Puts, Puts-write, Puts-skip,
}
use ccmock.Contexts.{ContextMap}
use ccmock.Raw.{State, emit, with_writer, write_access, write_tag_kind}

-- What clang prints for the name of a context and for a declaration without a body has no brace
-- that is not closed.
pub record IsBraced (ast : Ast) : Type 0 where
  pub name_balanced : (c : ℕ) (name : String) → ast.name c ≡ some name → IsBalanced name
  pub declaration_balanced :
      (c : ℕ) (d : FunctionDecl) (policy : Policy) (n : ℕ)
      → ast.function c ≡ some d
      → IsBalanced (d.printed policy n)

-- The statement succeeds, keeps what holds of the context map, and puts a text behind the buffer
-- that leads from each depth `f n` to the depth `g n`.
pub record Prints (I : ContextMap → Type 0) (f g : ℕ → ℕ) (a : Action State) : Type 0 where
  pub prints :
      (s : State)
      → I s.context_map
      → (t : State) × (text : String) × (a s ≡ ok t)
        × I t.context_map
        × (t.writer ≡ append text s.writer)
        × Moves f g text

module _ (I : ContextMap → Type 0) where
  pub Prints-skip : (f : ℕ → ℕ) → Prints I f f skip
  unfolding depth_behind
  Prints-skip f = record {
    prints = λ s h. (s, "", refl, h, sym (append-empty s.writer), λ n. refl);
  }

  pub Prints-emit : {f g : ℕ → ℕ} {m : Action Writer} → Puts f g m → Prints I f g (emit m)
  Prints-emit a = record {
    prints = λ s h.
        let (text, e, moves) = a.puts s.writer in
        (record s { writer = append text (s.writer) }, text, ap (with_writer s) e, h, refl, moves);
  }

  pub Prints-seq :
      (f g h : ℕ → ℕ) {a b : Action State} → Prints I f g a → Prints I g h b → Prints I f h (a >> b)
  Prints-seq f g h {a} {b} p q = record {
    prints = λ s k.
        let (t, x, e, k1, w, i) = p.prints s k in
        let (u, y, l, k2, v, j) = q.prints t k1 in
        (
          u,
          x <> y,
          ap (λ o. bind o b) e ∙ l,
          k2,
          v ∙ ap (append y) w ∙ append-append x y s.writer,
          Moves-append f g h x y i j,
        );
  }

  -- A statement whose braces are balanced may stand at any depth.
  pub Prints-at : (f : ℕ → ℕ) {a : Action State} → Prints I level level a → Prints I f f a
  Prints-at f p = record {
    prints = λ s k. let (t, x, e, k1, w, i) = p.prints s k in (t, x, e, k1, w, λ n. i (f n));
  }

  pub Prints-for_each :
      (xs : List ℕ) (body : ℕ → Action State)
      → ((x : ℕ) → mem_nat x xs ≡ true → Prints I level level (body x))
      → Prints I level level (for_each xs body)
  Prints-for_each [] body h = record { prints = (Prints-skip level).prints }
  Prints-for_each (x ∷ xs) body h = record {
    prints =
        (Prints-seq level level level (h x (ground arith))
          (Prints-for_each xs body (λ y k. h y (ground arith)))).prints;
  }

pub Puts-write_access : (a : Access) → Puts level level (write_access a)
unfolding write_access depth_behind
Puts-write_access as_public = Puts-write level level _ (λ n. refl)
Puts-write_access as_protected = Puts-write level level _ (λ n. refl)
Puts-write_access as_private = Puts-write level level _ (λ n. refl)
Puts-write_access as_none = Puts-skip level

pub Puts-write_tag_kind : (k : TagKind) → Puts level level (write_tag_kind k)
unfolding write_tag_kind depth_behind
Puts-write_tag_kind tag_class = Puts-write level level _ (λ n. refl)
Puts-write_tag_kind tag_struct = Puts-write level level _ (λ n. refl)
Puts-write_tag_kind tag_union = Puts-write level level _ (λ n. refl)
Puts-write_tag_kind tag_other = Puts-skip level
