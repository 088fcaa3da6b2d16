-- ===== src/Visitor/Distinct.antt =====
-- What the generators may rely on: no declaration is handed over twice.
use ccmock.Base.{
  ℕ, String, true, false, ◌||◌, Option, List, [], ◌∷◌, ◌++◌, ◌≡◌, refl, arith, inl, inr, mem_nat,
  Bool-cases, ok,
}
use ccmock.Ast.{FunctionDecl, VarDecl}
use ccmock.Config.{Config}
use ccmock.Visitor.Blacklist.{Glob}
use ccmock.Visitor.{Visit, Visitor, run}
use ccmock.Visitor.Selection.{
  Entity, func, var, entity_id, offers, first_occurrences, functions_of, vars_of,
}
use ccmock.Visitor.Guarantees.{run-selected, selection-ok}

-- No identity occurs twice.
abbrev pub AllDistinct : List ℕ → Type 0
AllDistinct [] = Unit
AllDistinct (x ∷ xs) = (mem_nat x xs ≡ false) × AllDistinct xs

abbrev pub function_ids : List FunctionDecl → List ℕ
function_ids [] = []
function_ids (d ∷ ds) = d.id ∷ function_ids ds

abbrev pub var_ids : List VarDecl → List ℕ
var_ids [] = []
var_ids (d ∷ ds) = d.id ∷ var_ids ds

abbrev entity_ids : List Entity → List ℕ
entity_ids [] = []
entity_ids (e ∷ es) = entity_id e ∷ entity_ids es

first_occurrences-seen :
    (x : ℕ) (es : List Entity) (seen : List ℕ)
    → mem_nat x seen ≡ true
    → mem_nat x (entity_ids (first_occurrences seen es)) ≡ false
unfolding first_occurrences
first_occurrences-seen x [] seen h = refl
first_occurrences-seen x (e ∷ es) seen h = elim (Bool-cases (mem_nat (entity_id e) seen)) [
  | inl old ↦ rw (old, first_occurrences) (first_occurrences-seen x es seen h)
  | inr new ↦
      rw (new, first_occurrences) (ground (arith, first_occurrences-seen x es (entity_id e ∷ seen)))
]

first_occurrences-AllDistinct :
    (es : List Entity) (seen : List ℕ) → AllDistinct (entity_ids (first_occurrences seen es))
unfolding first_occurrences
first_occurrences-AllDistinct [] seen = tt
first_occurrences-AllDistinct (e ∷ es) seen = elim (Bool-cases (mem_nat (entity_id e) seen)) [
  | inl old ↦ rw (old, first_occurrences) (first_occurrences-AllDistinct es seen)
  | inr new ↦
      rw (new, first_occurrences)
        (
          first_occurrences-seen (entity_id e) es (entity_id e ∷ seen) (ground arith),
          first_occurrences-AllDistinct es (entity_id e ∷ seen),
        )
]

pub mem_nat-append :
    (x : ℕ) (xs ys : List ℕ) → mem_nat x (xs ++ ys) ≡ (mem_nat x xs || mem_nat x ys)
mem_nat-append x [] ys = refl
mem_nat-append x (a ∷ xs) ys = ground (arith, mem_nat-append x xs ys)

pub AllDistinct-middle :
    (x : ℕ) (xs ys : List ℕ)
    → AllDistinct (xs ++ ys)
    → mem_nat x (xs ++ ys) ≡ false
    → AllDistinct (xs ++ x ∷ ys)
AllDistinct-middle x [] ys h n = (n, h)
AllDistinct-middle x (a ∷ xs) ys h n = (
  ground (arith, mem_nat-append a xs ys, mem_nat-append a xs (x ∷ ys)),
  AllDistinct-middle x xs ys h.1 (ground arith),
)

module _ (cfg : Config) where
  abbrev collected_ids : List Entity → List ℕ
  collected_ids es = function_ids (functions_of cfg.mocking es) ++ var_ids (vars_of es)

  collected_ids-mem :
      (x : ℕ) (es : List Entity)
      → mem_nat x (entity_ids es) ≡ false
      → mem_nat x (collected_ids es) ≡ false
  unfolding functions_of vars_of
  collected_ids-mem x [] h = refl
  collected_ids-mem x (func d ∷ es) h = ground (arith, collected_ids-mem x es)
  collected_ids-mem x (var d ∷ es) h = ground (
    arith,
    collected_ids-mem x es,
    mem_nat-append x (function_ids (functions_of cfg.mocking es)) (var_ids (vars_of es)),
    mem_nat-append x (function_ids (functions_of cfg.mocking es)) (d.id ∷ var_ids (vars_of es)),
  )

  collected_ids-AllDistinct :
      (es : List Entity) → AllDistinct (entity_ids es) → AllDistinct (collected_ids es)
  unfolding functions_of vars_of
  collected_ids-AllDistinct [] h = tt
  collected_ids-AllDistinct (func d ∷ es) h =
      ground (arith, collected_ids-mem d.id es, collected_ids-AllDistinct es)
  collected_ids-AllDistinct (var d ∷ es) h =
      AllDistinct-middle d.id _ _ (collected_ids-AllDistinct es h.1) (collected_ids-mem d.id es h.0)

module _ (create : String → Option Glob) (cfg : Config) (visits : List Visit) {v : Visitor}
    (done : run create cfg visits ≡ ok v) where
  -- After a walk that ended, no declaration is in the function and variable lists twice.
  pub run-AllDistinct : AllDistinct (function_ids v.function_decls ++ var_ids v.var_decls)
  run-AllDistinct =
      let (lists, made, selected) = run-selected create cfg visits done in
      let fresh : List Entity = first_occurrences [] (offers cfg.mocking lists visits) in
      let (_, fs, vs) = selection-ok cfg fresh selected in
      rw (fs, vs)
        (collected_ids-AllDistinct cfg fresh
          (first_occurrences-AllDistinct (offers cfg.mocking lists visits) []))
