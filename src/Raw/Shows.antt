-- ===== src/Raw/Shows.antt =====
-- output/Raw.cpp: statements in whose text a function is declared.
use ccmock.Base.{
  ℕ, true, String, List, ◌≡◌, sym, ap, ◌∙◌, mem_nat, ◌<>◌, <>_assoc, Action, ◌>>◌, for_each,
}
use ccmock.Ast.{Policy, FunctionDecl}
use ccmock.Writer
use ccmock.Writer.Shows.{Puts, IsLocal}
use ccmock.Contexts.{ContextMap}
use ccmock.Raw.{State}
use ccmock.Raw.Prints.{Prints}

-- The text holds a line with the declaration of the function, at some indentation.
abbrev pub IsDeclared : Policy → FunctionDecl → String → Type 0
IsDeclared policy d text =
    (n : ℕ) × (before : String) × (behind : String) × (text
      ≡ before <> (d.printed policy n <> (";\n" <> behind)))

IsDeclared-left :
    (policy : Policy) (d : FunctionDecl) (s t : String)
    → IsDeclared policy d s
    → IsDeclared policy d (s <> t)
IsDeclared-left policy d s t (n, before, behind, e) = (
  n,
  before,
  behind <> t,
  ap (λ x. x <> t) e
      ∙ <>_assoc before (d.printed policy n <> (";\n" <> behind)) t
      ∙ ap (λ x. before <> x)
          (<>_assoc (d.printed policy n) (";\n" <> behind) t
            ∙ ap (λ x. d.printed policy n <> x) (<>_assoc ";\n" behind t)),
)

IsDeclared-right :
    (policy : Policy) (d : FunctionDecl) (s t : String)
    → IsDeclared policy d t
    → IsDeclared policy d (s <> t)
IsDeclared-right policy d s t (n, before, behind, e) =
    (n, s <> before, behind, ap (λ x. s <> x) e ∙ sym (<>_assoc s before _))

pub IsDeclared-IsLocal : (d : FunctionDecl) → IsLocal (λ policy text. IsDeclared policy d text)
IsDeclared-IsLocal d = record {
  left = λ policy s t h. IsDeclared-left policy d s t h;
  right = λ policy s t h. IsDeclared-right policy d s t h;
}

-- The statement succeeds, keeps what holds of the context map, and puts a text behind the buffer
-- in which the function is declared.
abbrev pub Shows : (ContextMap → Type 0) → FunctionDecl → Action State → Type 0
Shows I d a =
    Writer.Shows.Shows (λ (s : State). s.writer) (λ s. I s.context_map)
      (λ policy text. IsDeclared policy d text) a

module _ (I : ContextMap → Type 0) where
  Prints-Puts :
      {f g : ℕ → ℕ} {a : Action State}
      → Prints I f g a
      → Puts (λ (s : State). s.writer) (λ s. I s.context_map) a
  Prints-Puts p = record {
    puts = λ s k. let (t, text, e, holds, w, moves) = p.prints s k in (t, text, e, holds, w);
  }

module _ (I : ContextMap → Type 0) (d : FunctionDecl) where
  pub Shows-then :
      {f g : ℕ → ℕ} {a b : Action State} → Shows I d a → Prints I f g b → Shows I d (a >> b)
  Shows-then p q =
      Writer.Shows.Shows-then (λ (s : State). s.writer) (λ s. I s.context_map)
        (IsDeclared-IsLocal d) p (Prints-Puts I q)

  pub then-Shows :
      {f g : ℕ → ℕ} {a b : Action State} → Prints I f g a → Shows I d b → Shows I d (a >> b)
  then-Shows p q =
      Writer.Shows.then-Shows (λ (s : State). s.writer) (λ s. I s.context_map)
        (IsDeclared-IsLocal d) (Prints-Puts I p) q

  pub Shows-for_each :
      (xs : List ℕ) (body : ℕ → Action State) (y : ℕ)
      → ((x : ℕ) → mem_nat x xs ≡ true → Prints I (λ n. n) (λ n. n) (body x))
      → Shows I d (body y)
      → mem_nat y xs ≡ true
      → Shows I d (for_each xs body)
  Shows-for_each xs body y h shown e =
      Writer.Shows.Shows-for_each (λ (s : State). s.writer) (λ s. I s.context_map)
        (IsDeclared-IsLocal d) xs body y (λ x f. Prints-Puts I (h x f)) shown e
