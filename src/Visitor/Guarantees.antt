-- ===== src/Visitor/Guarantees.antt =====
-- What the generators may rely on: which declarations the walk can hand them.
use ccmock.Base.{
  ℕ, String, Bool, true, false, ◌&&◌, Option, none, some, List, [], ◌∷◌, ◌++◌, ◌≡◌, refl, sym, ap,
  arith, inl, inr, ◌∙◌, if◌then◌else◌, mem_nat, any, All, All-append, Bool-cases, Outcome, ok, exit,
  fault,
}
use ccmock.Ast.{FunctionDecl, VarDecl, CxxRecord}
use ccmock.Config.{Config}
use ccmock.Visitor.Blacklist.{Blacklists, Glob, make_blacklist}
use ccmock.Visitor.{Visit, call_expr, cxx_construct_expr, decl_ref_expr, Visitor, run}
use ccmock.Visitor.Selection.{
  Entity, func, var, entity_id, offers, offer, offer_record, offer_type, offer_var, offer_visit,
  first_occurrences, functions_of, vars_of, is_unmockable, is_candidate, is_candidate_var,
  has_no_parameters, Collected, collected, collected_of, selection,
}
use ccmock.Visitor.Collects.{run-selection}

pub selection-ok :
    (cfg : Config) (es : List Entity) {c : Collected}
    → selection cfg.mocking es ≡ ok c
    → (any (is_unmockable cfg.mocking) es ≡ false)
      × (c.function_decls ≡ functions_of cfg.mocking es)
      × (c.var_decls ≡ vars_of es)
selection-ok cfg es h = ground arith

-- What the specification says of each offered entity.
abbrev IsOffered : Config → Blacklists → Entity → Type 0
IsOffered cfg lists (func d) = is_candidate cfg.mocking lists d ≡ true
IsOffered cfg lists (var d) = (is_candidate_var lists d ≡ true) × (d.is_externally_visible ≡ true)

-- A function that may be mocked: it passes every filter, and if it is variadic then variadic
-- functions are to be mocked and it has a parameter.
pub record IsMockable (cfg : Config) (lists : Blacklists) (d : FunctionDecl) : Type 0 where
  pub candidate : is_candidate cfg.mocking lists d ≡ true
  pub variadic : d.is_variadic ≡ true → cfg.mocking.mock_variadic_functions ≡ true
  pub parameters : d.is_variadic ≡ true → has_no_parameters d ≡ false

pub record IsMockableVar (lists : Blacklists) (d : VarDecl) : Type 0 where
  pub candidate : is_candidate_var lists d ≡ true
  pub visible : d.is_externally_visible ≡ true

module _ (cfg : Config) (lists : Blacklists) where
  offer-IsOffered :
      (in_main_file : Bool) (o : Option FunctionDecl)
      → All (IsOffered cfg lists) (offer cfg.mocking lists in_main_file o)
  offer-IsOffered in_main_file none = tt
  offer-IsOffered in_main_file (some d) =
      unless (in_main_file && is_candidate cfg.mocking lists d) refl
    where
      unless :
          (b : Bool)
          → (in_main_file && is_candidate cfg.mocking lists d) ≡ b
          → All (IsOffered cfg lists) (if b then func d ∷ [] else [])
      unless true h = ground arith
      unless false h = tt

  offer_record-IsOffered :
      (in_main_file : Bool) (dtor : Option FunctionDecl) (ds : List FunctionDecl)
      → All (IsOffered cfg lists) (offer_record cfg.mocking lists in_main_file dtor ds)
  offer_record-IsOffered in_main_file dtor [] = tt
  offer_record-IsOffered in_main_file dtor (d ∷ ds) =
      All-append (IsOffered cfg lists) _ _ (ctor d.is_defined)
        (offer_record-IsOffered in_main_file dtor ds)
    where
      ctor :
          (b : Bool)
          → All (IsOffered cfg lists) (
              if b
              then []
              else offer cfg.mocking lists in_main_file (some d)
                ++ offer cfg.mocking lists in_main_file dtor)
      ctor true = tt
      ctor false =
          All-append (IsOffered cfg lists) _ _ (offer-IsOffered in_main_file (some d))
            (offer-IsOffered in_main_file dtor)

  offer_type-IsOffered :
      (in_main_file : Bool) (o : Option CxxRecord)
      → All (IsOffered cfg lists) (offer_type cfg.mocking lists in_main_file o)
  offer_type-IsOffered in_main_file none = tt
  offer_type-IsOffered in_main_file (some r) =
      offer_record-IsOffered in_main_file r.destructor r.ctors

  offer_var-IsOffered :
      (d : VarDecl)
      → d.is_externally_visible ≡ true
      → All (IsOffered cfg lists) (offer_var cfg.mocking lists d)
  offer_var-IsOffered d visible = unless (is_candidate_var lists d) refl
    where
      unless :
          (b : Bool)
          → is_candidate_var lists d ≡ b
          → All (IsOffered cfg lists) (if b then var d ∷ [] else [])
      unless true h = ((h, visible), tt)
      unless false h = tt

  offer_visit-IsOffered : (x : Visit) → All (IsOffered cfg lists) (offer_visit cfg.mocking lists x)
  offer_visit-IsOffered (call_expr in_main_file callee) = offer-IsOffered in_main_file callee
  offer_visit-IsOffered (cxx_construct_expr in_main_file ctor dtor) =
      All-append (IsOffered cfg lists) _ _ (offer-IsOffered in_main_file (some ctor))
        (offer-IsOffered in_main_file dtor)
  offer_visit-IsOffered (decl_ref_expr in_main_file none) = tt
  offer_visit-IsOffered (decl_ref_expr in_main_file (some d)) =
      unless (d.is_externally_visible && in_main_file) refl
    where
      unless :
          (b : Bool)
          → (d.is_externally_visible && in_main_file) ≡ b
          → All (IsOffered cfg lists) (
              if b
              then offer_type cfg.mocking lists in_main_file d.record_decl
                ++ offer_var cfg.mocking lists d
              else [])
      unless true h =
          All-append (IsOffered cfg lists) _ _ (offer_type-IsOffered in_main_file d.record_decl)
            (offer_var-IsOffered d (ground arith))
      unless false h = tt

  offers-IsOffered : (xs : List Visit) → All (IsOffered cfg lists) (offers cfg.mocking lists xs)
  unfolding offers
  offers-IsOffered [] = tt
  offers-IsOffered (x ∷ xs) =
      All-append (IsOffered cfg lists) _ _ (offer_visit-IsOffered x) (offers-IsOffered xs)

  first_occurrences-IsOffered :
      (es : List Entity) (seen : List ℕ)
      → All (IsOffered cfg lists) es
      → All (IsOffered cfg lists) (first_occurrences seen es)
  unfolding first_occurrences
  first_occurrences-IsOffered [] seen h = tt
  first_occurrences-IsOffered (e ∷ es) seen h = elim (Bool-cases (mem_nat (entity_id e) seen)) [
    | inl old ↦ rw (old, first_occurrences) (first_occurrences-IsOffered es seen h.1)
    | inr new ↦
        rw (new, first_occurrences) (h.0, first_occurrences-IsOffered es (entity_id e ∷ seen) h.1)
  ]

  functions_of-IsMockable :
      (es : List Entity)
      → All (IsOffered cfg lists) es
      → any (is_unmockable cfg.mocking) es ≡ false
      → All (IsMockable cfg lists) (functions_of cfg.mocking es)
  unfolding functions_of
  functions_of-IsMockable [] h n = tt
  functions_of-IsMockable (func d ∷ es) h n = ground (arith, functions_of-IsMockable es h.1)
  functions_of-IsMockable (var d ∷ es) h n = functions_of-IsMockable es h.1 n

  vars_of-IsMockableVar :
      (es : List Entity) → All (IsOffered cfg lists) es → All (IsMockableVar lists) (vars_of es)
  unfolding vars_of
  vars_of-IsMockableVar [] h = tt
  vars_of-IsMockableVar (func d ∷ es) h = vars_of-IsMockableVar es h.1
  vars_of-IsMockableVar (var d ∷ es) h =
      (record { candidate = h.0.0; visible = h.0.1 }, vars_of-IsMockableVar es h.1)

pub run-selected :
    (create : String → Option Glob) (cfg : Config) (visits : List Visit) {v : Visitor}
    → run create cfg visits ≡ ok v
    → (lists : Blacklists) × (make_blacklist create cfg.mocking.blacklist ≡ ok lists)
      × (selection cfg.mocking (first_occurrences [] (offers cfg.mocking lists visits))
          ≡ ok (collected_of v))
unfolding run
run-selected create cfg visits {v} h = go (make_blacklist create cfg.mocking.blacklist) refl
  where
    go :
        (o : Outcome Blacklists)
        → make_blacklist create cfg.mocking.blacklist ≡ o
        → (lists : Blacklists) × (make_blacklist create cfg.mocking.blacklist ≡ ok lists)
          × (selection cfg.mocking (first_occurrences [] (offers cfg.mocking lists visits))
              ≡ ok (collected_of v))
    go (ok lists) e = (lists, e, sym (run-selection create cfg visits e) ∙ ap collected h)
    go exit e = cc (rw e at h)
    go fault e = cc (rw e at h)

module _ (create : String → Option Glob) (cfg : Config) (visits : List Visit) {v : Visitor}
    (done : run create cfg visits ≡ ok v) where
  -- After a walk that ended, each function in the list passes every filter of the blacklists that
  -- the configured blacklist makes, and if it is variadic then variadic functions are to be mocked
  -- and it has a parameter; each variable is externally visible and in neither blacklist.
  pub run-IsMockable :
      (lists : Blacklists) × (make_blacklist create cfg.mocking.blacklist ≡ ok lists)
      × All (IsMockable cfg lists) v.function_decls
      × All (IsMockableVar lists) v.var_decls
  run-IsMockable =
      let (lists, made, selected) = run-selected create cfg visits done in
      let fresh : List Entity = first_occurrences [] (offers cfg.mocking lists visits) in
      let (none_bad, fs, vs) = selection-ok cfg fresh selected in
      let offered : All (IsOffered cfg lists) fresh =
        first_occurrences-IsOffered cfg lists (offers cfg.mocking lists visits) []
          (offers-IsOffered cfg lists visits) in
      (
        lists,
        made,
        rw fs (functions_of-IsMockable cfg lists fresh offered none_bad),
        rw vs (vars_of-IsMockableVar cfg lists fresh offered),
      )
