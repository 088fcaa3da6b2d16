-- ===== src/Visitor/Steps.antt =====
-- Each visit does to the lists what its offers do, one by one: messages and `Buffer_` aside.
use mathlib.Core.Path.{fun_ext}
use ccmock.Base.{
  mem_str, ℕ, String, Bool, true, false, not, ◌&&◌, ◌||◌, Option, none, some, List, [], ◌∷◌, ◌++◌,
  ◌≡◌, refl, ap, sym, bind_unit, bind_assoc, arith, ◌∙◌, if◌then◌else◌, mem_nat, Action, Outcome,
  ok, exit, fault, bind, for_each,
}
use ccmock.Ast.{FunctionDecl, VarDecl, CxxRecord}
use ccmock.Config.{Config}
use ccmock.Console.{Item}
use ccmock.Visitor.Blacklist.{Blacklists, Glob, find_glob, internal_blacklist}
use ccmock.Visitor.{
  Visit, call_expr, cxx_construct_expr, decl_ref_expr, Visitor, add_function, add_var, report,
  is_visited, dispatch_new, dispatch_named, dispatch_builtin, dispatch, dispatch_record, visit_var,
  do_visit, traverse, dispatch_type,
}
use ccmock.Visitor.Selection.{
  Entity, func, var, any_glob, allows_builtin, offer, offer_record, offer_type, offer_var,
  offer_visit, offers,
}

-- The members that decide what is collected.
pub record Tracked : Type 0 where
  pub visited : List ℕ
  pub function_decls : List FunctionDecl
  pub var_decls : List VarDecl
  pub any_variadic : Bool

abbrev pub track : Visitor → Tracked
track v = record {
  visited = v.visited;
  function_decls = v.function_decls;
  var_decls = v.var_decls;
  any_variadic = v.any_variadic;
}

abbrev pub tracked : Outcome Visitor → Outcome Tracked
tracked (ok v) = ok (track v)
tracked exit = exit
tracked fault = fault

abbrev pub push_function : FunctionDecl → Tracked → Tracked
push_function d t = record t {
  any_variadic = if d.is_variadic && not t.any_variadic then true else t.any_variadic;
  function_decls = t.function_decls ++ d ∷ [];
}

abbrev pub mark : ℕ → Tracked → Tracked
mark id t = record t { visited = id ∷ t.visited }

-- a function that is new
abbrev pub admit_new : Config → FunctionDecl → Action Tracked
admit_new cfg d t =
    if d.is_variadic
    then (if not cfg.mocking.mock_variadic_functions
        then ok t
        else elim d.parameters [ [] ↦ exit | p ∷ ps ↦ ok (push_function d t) ])
    else ok (push_function d t)

-- What one offered entity does.
abbrev pub admit : Config → Entity → Action Tracked
admit cfg (func d) t = if mem_nat d.id t.visited then ok t else admit_new cfg d (mark d.id t)
admit cfg (var d) t =
    if mem_nat d.id t.visited
    then ok t
    else ok (record t { visited = d.id ∷ t.visited; var_decls = t.var_decls ++ d ∷ [] })

for_each-append {ℓ κ} :
    {S : Type ℓ} {A : Type κ} (xs ys : List A) (body : A → Action S) (s : S)
    → for_each (xs ++ ys) body s ≡ bind (for_each xs body s) (for_each ys body)
for_each-append [] ys body s = refl
for_each-append (x ∷ xs) ys body s =
    rw (fun_ext (for_each-append xs ys body)) (sym (bind_assoc (body x s) _ _))

module _ (cfg : Config) where
  -- `m` does what the entities do in turn.
  abbrev pub Does : Action Visitor → List Entity → Type 0
  Does m es = (v : Visitor) → tracked (m v) ≡ for_each es (admit cfg) (track v)

  bind-Does_lem :
      (o : Outcome Visitor) (k : Action Visitor) (es : List Entity)
      → Does k es
      → tracked (bind o k) ≡ bind (tracked o) (for_each es (admit cfg))
  bind-Does_lem (ok v) k es h = h v
  bind-Does_lem exit k es h = refl
  bind-Does_lem fault k es h = refl

  bind-Does :
      (m k : Action Visitor) (es fs : List Entity)
      → Does m es
      → Does k fs
      → Does (λ v. bind (m v) k) (es ++ fs)
  bind-Does m k es fs hm hk v = bind-Does_lem (m v) k fs hk ∙ rw (hm v) (rw (for_each-append es fs))

  unless-Does :
      (test : Bool) (m : Action Visitor) (es : List Entity)
      → Does m es
      → Does (λ v. if not test then m v else ok v) (if test then [] else es)
  unless-Does true m es h v = refl
  unless-Does false m es h v = h v

  find_glob-any :
      (name : String) (globs : List (String × Glob))
      → (o : Option String) → find_glob name globs ≡ o
      → any_glob name globs ≡ (elim o [ none ↦ false | some p ↦ true ])
  unfolding find_glob
  find_glob-any name [] o h = ground arith
  find_glob-any name ((pattern, glob) ∷ rest) o h = ground (arith, find_glob-any name rest o)

  -- Messages change nothing that decides.
  track-report : (items : List Item) (v : Visitor) → track (report cfg items v) ≡ track v
  unfolding report
  track-report items v = ground arith

  module _ (lists : Blacklists) where
    dispatch_new-admit :
        (d : FunctionDecl) (v : Visitor)
        → tracked (dispatch_new cfg lists d v) ≡ admit_new cfg d (track v)
    unfolding dispatch_new add_function
    dispatch_new-admit d v = ground arith

    dispatch_named-admit :
        (d : FunctionDecl) (v : Visitor)
        → v.buffer ≡ d.qualified_name
        → tracked (dispatch_named cfg lists d v) ≡ (
            if mem_str d.qualified_name lists.names || any_glob d.qualified_name lists.globs
            then ok (track v)
            else admit cfg (func d) (track v))
    unfolding dispatch_named is_visited report
    dispatch_named-admit d v h = ground (
      arith,
      find_glob-any v.buffer lists.globs (find_glob v.buffer lists.globs) refl,
      dispatch_new-admit d (record v { visited = d.id ∷ v.visited }),
    )

    dispatch_builtin-Does :
        (d : FunctionDecl) (v : Visitor)
        → tracked (dispatch_builtin cfg lists d v) ≡ (
            if allows_builtin cfg.mocking d
              && (not (mem_str d.qualified_name lists.names)
                  && not (any_glob d.qualified_name lists.globs))
            then admit cfg (func d) (track v)
            else ok (track v))
    unfolding dispatch_builtin report
    dispatch_builtin-Does d v =
        ground (arith, dispatch_named-admit d (record v { buffer = d.qualified_name }) refl)

    pub dispatch-Does :
        (in_main_file : Bool) (o : Option FunctionDecl)
        → Does (dispatch cfg lists in_main_file o) (offer cfg.mocking lists in_main_file o)
    unfolding dispatch
    dispatch-Does in_main_file none v = refl
    dispatch-Does in_main_file (some d) v = ground (arith, dispatch_builtin-Does d v)

    -- one round of the loop over the constructors
    ctor-Does :
        (in_main_file : Bool) (r : CxxRecord) (d : FunctionDecl)
        → Does
            (λ v.
              if not d.is_defined
              then bind
                  (dispatch cfg lists in_main_file (some d) v)
                  (dispatch cfg lists in_main_file r.destructor)
              else ok v)
            (if d.is_defined
              then []
              else offer cfg.mocking lists in_main_file (some d)
                ++ offer cfg.mocking lists in_main_file r.destructor)
    ctor-Does in_main_file r d = unless-Does d.is_defined _ _ (
        bind-Does _ _ _ _ (dispatch-Does in_main_file (some d))
          (dispatch-Does in_main_file r.destructor))

    dispatch_record-Does :
        (in_main_file : Bool) (r : CxxRecord) (ds : List FunctionDecl)
        → Does
            (dispatch_record cfg lists in_main_file r ds)
            (offer_record cfg.mocking lists in_main_file r.destructor ds)
    unfolding dispatch_record
    dispatch_record-Does in_main_file r [] v = refl
    dispatch_record-Does in_main_file r (d ∷ ds) v =
        bind-Does _ _ _ _ (ctor-Does in_main_file r d) (dispatch_record-Does in_main_file r ds) v

    dispatch_type-Does :
        (in_main_file : Bool) (o : Option CxxRecord)
        → Does
            (dispatch_type cfg lists in_main_file o)
            (offer_type cfg.mocking lists in_main_file o)
    dispatch_type-Does in_main_file none v = refl
    dispatch_type-Does in_main_file (some r) v = dispatch_record-Does in_main_file r r.ctors v

    -- the variable with its two tests, whatever they say
    visit_new_var-admit :
        (d : VarDecl) (w : Visitor)
        → tracked (let (seen, w') = is_visited d.id w in if seen then ok w' else ok (add_var d w'))
          ≡ admit cfg (var d) (track w)
    unfolding is_visited add_var
    visit_new_var-admit d w = ground arith

    visit_tested_var-Does :
        (d : VarDecl) (internal listed : Bool) (said also : List Item) (w : Visitor)
        → tracked (
            if internal
            then ok (report cfg said w)
            else if listed
            then ok (report cfg also w)
            else let (seen, w') = is_visited d.id w in if seen then ok w' else ok (add_var d w'))
          ≡ for_each (if not internal && not listed then var d ∷ [] else []) (admit cfg) (track w)
    visit_tested_var-Does d true listed said also w = ap ok (track-report said w)
    visit_tested_var-Does d false true said also w = ap ok (track-report also w)
    visit_tested_var-Does d false false said also w =
        visit_new_var-admit d w ∙ sym (bind_unit (admit cfg (var d) (track w)))

    pub visit_var-Does :
        (d : VarDecl) → Does (visit_var cfg lists d) (offer_var cfg.mocking lists d)
    unfolding visit_var
    visit_var-Does d v =
        visit_tested_var-Does d (mem_str d.qualified_name internal_blacklist)
          (mem_str d.qualified_name lists.names) _ _ (record v { buffer = d.qualified_name })

    do_visit-Does : (x : Visit) → Does (do_visit cfg lists x) (offer_visit cfg.mocking lists x)
    unfolding do_visit
    do_visit-Does (call_expr in_main_file callee) v = dispatch-Does in_main_file callee v
    do_visit-Does (cxx_construct_expr in_main_file ctor dtor) v =
        bind-Does _ _ _ _ (dispatch-Does in_main_file (some ctor)) (dispatch-Does in_main_file dtor)
          v
    do_visit-Does (decl_ref_expr in_main_file none) v = refl
    do_visit-Does (decl_ref_expr in_main_file (some d)) v = ground (
      arith,
      bind-Does _ _ _ _ (dispatch_type-Does in_main_file d.record_decl) (visit_var-Does d) v,
    )

    pub traverse-Does :
        (xs : List Visit) → Does (traverse cfg lists xs) (offers cfg.mocking lists xs)
    unfolding traverse offers
    traverse-Does [] v = refl
    traverse-Does (x ∷ xs) v = bind-Does _ _ _ _ (do_visit-Does x) (traverse-Does xs) v
