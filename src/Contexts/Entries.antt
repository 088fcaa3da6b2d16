-- ===== src/Contexts/Entries.antt =====
-- The context map against its links: what indexing it and running over its sets keep.
use ccmock.Base.{
  ◌==◌, Bool-cases, ℕ, ◌<◌, true, false, some, none, List, [], ◌∷◌, ◌++◌, ◌≡◌, refl, inl, inr,
  arith, Option, Option-cases, mem_nat, String,
}
use ccmock.Ast.{Ast, FunctionDecl, is_translation_unit}
use ccmock.Contexts.{ContextMap, Order, find, index_map}
use ccmock.Contexts.Laws.{IsNested, IsNamed}
use ccmock.Contexts.Links.{has_child, Link, here, outer, SomeLink}

-- No link but those of `start`.
abbrev pub Within : ContextMap → ContextMap → Type 0
Within start m = (q x : ℕ) → has_child m q x ≡ true → has_child start q x ≡ true

-- The same links.
abbrev pub Same : ContextMap → ContextMap → Type 0
Same start m = (q x : ℕ) → has_child m q x ≡ has_child start q x

-- The order of a set runs over no other elements.
pub record IsOrder (order : Order) : Type 0 where
  pub of_set_mem : (x : ℕ) (cs : List ℕ) → mem_nat x (order.of_set cs) ≡ true → mem_nat x cs ≡ true

-- A loop over a set comes to each element.
pub record IsExhaustive (order : Order) : Type 0 where
  pub mem_of_set : (x : ℕ) (cs : List ℕ) → mem_nat x cs ≡ true → mem_nat x (order.of_set cs) ≡ true

has_child-append_empty :
    (m : ContextMap) (k q x : ℕ) → has_child (m ++ (k, []) ∷ []) q x ≡ has_child m q x
has_child-append_empty [] k q x = ground arith
has_child-append_empty ((j, cs) ∷ m) k q x = ground (arith, has_child-append_empty m k q x)

find-has_child :
    (m : ContextMap) (k x : ℕ) {cs : List ℕ} → find m k ≡ some cs → mem_nat x cs ≡ has_child m k x
unfolding find
find-has_child [] k x e = ground arith
find-has_child ((j, ds) ∷ m) k x {cs} e = ground (arith, find-has_child m k x {cs = cs})

pub index_map-children :
    (m : ContextMap) (k x : ℕ) → mem_nat x (index_map k m).0 ≡ true → has_child m k x ≡ true
unfolding index_map
index_map-children m k x h = elim (Option-cases (find m k)) [
  | inl e ↦ ground (arith, e)
  | inr (cs, e) ↦ ground (arith, e, find-has_child m k x {cs = cs} e)
]

has_child-find : (m : ContextMap) (k x : ℕ) → find m k ≡ none → has_child m k x ≡ false
unfolding find
has_child-find [] k x e = refl
has_child-find ((j, cs) ∷ m) k x e = ground (arith, has_child-find m k x)

pub mem_nat-index_map :
    (m : ContextMap) (k x : ℕ) → has_child m k x ≡ true → mem_nat x (index_map k m).0 ≡ true
unfolding index_map
mem_nat-index_map m k x h = elim (Option-cases (find m k)) [
  | inl e ↦ cc (h, has_child-find m k x e)
  | inr (cs, e) ↦ ground (arith, e, find-has_child m k x {cs = cs} e)
]

pub index_map-keeps :
    (m : ContextMap) (k q x : ℕ) → has_child (index_map k m).1 q x ≡ has_child m q x
unfolding index_map
index_map-keeps m k q x = ground (arith, has_child-append_empty m k q x)

-- `c` has an entry.
abbrev pub HasEntry : ContextMap → ℕ → Type 0
HasEntry m c = (cs : List ℕ) × (find m c ≡ some cs)

-- Indexing an entry that is there changes nothing.
pub index_map-HasEntry : (m : ContextMap) (c : ℕ) → HasEntry m c → (index_map c m).1 ≡ m
unfolding index_map
index_map-HasEntry m c (cs, e) = ground (arith, e)

pub has_child-HasEntry : (m : ContextMap) (q x : ℕ) → has_child m q x ≡ true → HasEntry m q
unfolding find
has_child-HasEntry [] q x h = absurd (ground arith)
has_child-HasEntry ((j, cs) ∷ m) q x h = elim (Bool-cases (j == q)) [
  | inl e ↦ (cs, ground (arith, e))
  | inr e ↦ let (ds, f) = has_child-HasEntry m q x (ground (arith, e)) in (ds, ground (arith, e, f))
]

module _ (ast : Ast) (depth : ℕ → ℕ) (nested : IsNested ast depth) where
  Link-deeper :
      {context : ℕ} {parent : Option ℕ} {q x : ℕ}
      → Link ast context parent q x
      → ((p : ℕ) → parent ≡ some p → depth p < depth context)
      → depth q < depth x
  Link-deeper (here {parent = p} e f) h = ground (arith, e, f, h p refl, nested.primary_depth p)
  Link-deeper (outer {parent = p} link) h = Link-deeper link (nested.parent_depth (ast.primary p))

  pub SomeLink-deeper : (ds : List FunctionDecl) (q x : ℕ) → SomeLink ast ds q x → depth q < depth x
  SomeLink-deeper [] q x link = absurd link
  SomeLink-deeper (d ∷ ds) q x (inr later) = SomeLink-deeper ds q x later
  SomeLink-deeper (d ∷ ds) q x (inl link) =
      Link-deeper link
        (λ p e. omega (arith, nested.parent_depth d.context p e, nested.primary_depth d.context))

-- Every context but the translation unit has a name.
pub named_context :
    (ast : Ast)
    → IsNamed ast
    → (c : ℕ) → is_translation_unit (ast.kind c) ≡ false
    → (name : String) × (ast.name c ≡ some name)
named_context ast named c h = elim (Option-cases (ast.parent c)) [
  | inl e ↦ absurd (ground (arith, named.root_kind c e))
  | inr (p, e) ↦ named.inner_name c p e
]
