-- ===== src/Visitor/Collects.antt =====
-- The walk against its specification: what it collects is the selection, in the order of first use.
use mathlib.Core.List.{append_assoc, append-nil}
use mathlib.Core.Path.{fun_ext}
use ccmock.Base.{
  ℕ, String, ◌||◌, Option, List, [], ◌∷◌, ◌++◌, ◌≡◌, refl, sym, ap, arith, inl, inr, ◌∙◌,
  if◌then◌else◌, mem_nat, any, Bool-cases, Action, Outcome, ok, exit, fault, bind, for_each,
}
use ccmock.Config.{Config}
use ccmock.Visitor.Blacklist.{Blacklists, Glob, make_blacklist}
use ccmock.Visitor.{Visit, Visitor, initial, traverse, run}
use ccmock.Visitor.Selection.{
  Entity, func, var, offers, first_occurrences, functions_of, vars_of, is_unmockable, Collected,
  collected, selection, entity_id,
}
use ccmock.Visitor.Steps.{Tracked, tracked, admit, traverse-Does}

abbrev pub untracked : Outcome Tracked → Outcome Collected
untracked (ok t) = ok (record {
  function_decls = t.function_decls;
  var_decls = t.var_decls;
  any_variadic = t.any_variadic;
})
untracked exit = exit
untracked fault = fault

pub collected-tracked : (o : Outcome Visitor) → untracked (tracked o) ≡ collected o
collected-tracked (ok v) = refl
collected-tracked exit = refl
collected-tracked fault = refl

module _ (cfg : Config) where
  -- the selection, behind what was collected before
  abbrev extend : Tracked → List Entity → Outcome Collected
  extend t fresh =
      if any (is_unmockable cfg.mocking) fresh
      then exit
      else ok (record {
        function_decls = t.function_decls ++ functions_of cfg.mocking fresh;
        var_decls = t.var_decls ++ vars_of fresh;
        any_variadic = t.any_variadic || any (λ d. d.is_variadic) (functions_of cfg.mocking fresh);
      })

  -- One entity, with the entities that are new behind it given by the set of those seen.
  admit-extend :
      (e : Entity) (fresh : List ℕ → List Entity) (t : Tracked)
      → bind (admit cfg e t) (λ u. extend u (fresh u.visited)) ≡ (
          if mem_nat (entity_id e) t.visited
          then extend t (fresh t.visited)
          else extend t (e ∷ fresh (entity_id e ∷ t.visited)))
  unfolding functions_of vars_of
  admit-extend (func d) fresh t = ground (
    arith,
    append_assoc t.function_decls (d ∷ []) (functions_of cfg.mocking (fresh (d.id ∷ t.visited))),
  )
  admit-extend (var d) fresh t =
      ground (arith, append_assoc t.var_decls (d ∷ []) (vars_of (fresh (d.id ∷ t.visited))))

  untracked-bind :
      (o : Outcome Tracked) (k : Action Tracked)
      → untracked (bind o k) ≡ bind o (λ u. untracked (k u))
  untracked-bind (ok u) k = refl
  untracked-bind exit k = refl
  untracked-bind fault k = refl

  first_occurrences-cons :
      (e : Entity) (es : List Entity) (t : Tracked)
      → (if mem_nat (entity_id e) t.visited
          then extend t (first_occurrences t.visited es)
          else extend t (e ∷ first_occurrences (entity_id e ∷ t.visited) es))
        ≡ extend t (first_occurrences t.visited (e ∷ es))
  unfolding first_occurrences
  first_occurrences-cons e es t = elim (Bool-cases (mem_nat (entity_id e) t.visited)) [
    | inl seen ↦ rw (seen, first_occurrences)
    | inr new ↦ rw (new, first_occurrences)
  ]

  for_each-extend :
      (es : List Entity) (t : Tracked)
      → untracked (for_each es (admit cfg) t) ≡ extend t (first_occurrences t.visited es)
  for_each-extend [] t =
      unfold first_occurrences functions_of vars_of in
      ground (arith, append-nil t.function_decls, append-nil t.var_decls)
  for_each-extend (e ∷ es) t =
      untracked-bind (admit cfg e t) _
      ∙ rw (fun_ext (for_each-extend es)) (admit-extend e (λ seen. first_occurrences seen es) t)
      ∙ first_occurrences-cons e es t

  module _ (lists : Blacklists) where
    -- With given blacklists, the walk from the initial state collects the selection from the
    -- first occurrences of what the visits offer, and it exits where the selection does.
    pub traverse-selection :
        (visits : List Visit)
        → collected (traverse cfg lists visits initial)
          ≡ selection cfg.mocking (first_occurrences [] (offers cfg.mocking lists visits))
    traverse-selection visits =
        sym (collected-tracked (traverse cfg lists visits initial))
        ∙ ap untracked (traverse-Does cfg lists visits initial)
        ∙ for_each-extend (offers cfg.mocking lists visits) _

-- If every glob pattern of the configured blacklist is well formed, the visitor hands over exactly
-- the selection from the offers in the order of first use: the functions, the variables, and
-- whether a function is variadic. It exits exactly where a variadic function that ought to be
-- mocked has no parameter.
pub run-selection :
    (create : String → Option Glob) (cfg : Config) (visits : List Visit) {lists : Blacklists}
    → make_blacklist create cfg.mocking.blacklist ≡ ok lists
    → collected (run create cfg visits)
      ≡ selection cfg.mocking (first_occurrences [] (offers cfg.mocking lists visits))
unfolding run
run-selection create cfg visits {lists} h = rw h (traverse-selection cfg lists visits)
