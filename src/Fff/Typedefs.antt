-- ===== src/Fff/Typedefs.antt =====
-- output/FFF.cpp, `writeTypedefs`: the typedef map against what the mocks look up in it.
use ccmock.Base.{
  ℕ, suc, String, Bool, true, false, not, ◌&&◌, none, some, List, [], ◌∷◌, ◌++◌, ◌≡◌, sym, arith,
  inl, inr, All, Option-cases, Action, ok, bind-ok, when, for_each, for_each_from,
}
use ccmock.Ast.{FunctionDecl, ParmVarDecl}
use ccmock.Writer.{Writer, write, points_to_function}
use ccmock.Fff.{
  TypedefMap, State, emit, find_typedef, create_typedef_name, write_typedef,
  write_function_typedefs, write_typedefs,
}

-- The type needs a typedef to be a macro argument: a pointer to a function that has no name yet.
abbrev pub needs_typedef : ParmVarDecl → Bool
needs_typedef p = points_to_function p.type && not p.type.is_typedef_name_type

-- The type has a typedef, if it needs one.
abbrev pub HasTypedef : TypedefMap → ParmVarDecl → Type 0
HasTypedef m p =
    needs_typedef p ≡ true → (name : String) × (find_typedef m p.type.type_ptr ≡ some name)

-- What is found in one map is found in the other.
abbrev Grows : TypedefMap → TypedefMap → Type 0
Grows m n = (k : ℕ) (name : String) → find_typedef m k ≡ some name → find_typedef n k ≡ some name

find_typedef-append :
    (m : TypedefMap) (j k : ℕ) (name found : String)
    → find_typedef m k ≡ some found
    → find_typedef (m ++ (j, name) ∷ []) k ≡ some found
unfolding find_typedef
find_typedef-append [] j k name found h = ground arith
find_typedef-append ((i, n) ∷ m) j k name found h =
    ground (arith, find_typedef-append m j k name found)

find_typedef-new :
    (m : TypedefMap) (k : ℕ) (name : String)
    → find_typedef m k ≡ none
    → find_typedef (m ++ (k, name) ∷ []) k ≡ some name
unfolding find_typedef
find_typedef-new [] k name h = ground arith
find_typedef-new ((i, n) ∷ m) k name h = ground (arith, find_typedef-new m k name)

emit-typedef_map :
    (m : Action Writer) (s : State) {t : State} → emit m s ≡ ok t → t.typedef_map ≡ s.typedef_map
emit-typedef_map m s h = ground arith

write_typedef-HasTypedef :
    (d : FunctionDecl) (i : ℕ) (p : ParmVarDecl) (s : State) {t : State}
    → write_typedef d i p s ≡ ok t
    → HasTypedef t.typedef_map p × Grows s.typedef_map t.typedef_map
unfolding write_typedef
write_typedef-HasTypedef d i p s {t} h =
    elim (Option-cases (find_typedef s.typedef_map p.type.type_ptr)) [
      | inr (name, e) ↦ (λ n. (name, ground (arith, e)), λ k found f. ground (arith, e, f))
      | inl e ↦ (
        λ n. (
          create_typedef_name d i,
          ground (arith, find_typedef-new s.typedef_map p.type.type_ptr (create_typedef_name d i)),
        ),
        λ k found f. ground (
          arith,
          e,
          f,
          find_typedef-append s.typedef_map p.type.type_ptr k (create_typedef_name d i) found,
        ),
      )
    ]

write_parameter_typedefs-HasTypedef :
    (d : FunctionDecl) (i : ℕ) (ps : List ParmVarDecl) (s : State) {t : State}
    → for_each_from i ps (write_typedef d) s ≡ ok t
    → All (HasTypedef t.typedef_map) ps × Grows s.typedef_map t.typedef_map
write_parameter_typedefs-HasTypedef d i [] s h = (tt, λ k name f. ground arith)
write_parameter_typedefs-HasTypedef d i (p ∷ ps) s h =
    let (u, e, h1) = bind-ok (write_typedef d i p s) _ h in
    let (has, grows) = write_typedef-HasTypedef d i p s e in
    let (rest, more) = write_parameter_typedefs-HasTypedef d (suc i) ps u h1 in
    (
      (λ n. let (name, f) = has n in (name, more p.type.type_ptr name f), rest),
      λ k name f. more k name (grows k name f),
    )

All-Grows :
    (ps : List ParmVarDecl) (m n : TypedefMap)
    → Grows m n
    → All (HasTypedef m) ps
    → All (HasTypedef n) ps
All-Grows [] m n g h = tt
All-Grows (p ∷ ps) m n g h =
    (λ e. let (name, f) = h.0 e in (name, g p.type.type_ptr name f), All-Grows ps m n g h.1)

functions-HasTypedef :
    (functions : List FunctionDecl) (s : State) {t : State}
    → for_each functions write_function_typedefs s ≡ ok t
    → All (λ d. All (HasTypedef t.typedef_map) d.parameters) functions
      × Grows s.typedef_map t.typedef_map
unfolding write_function_typedefs
functions-HasTypedef [] s h = (tt, λ k name f. ground arith)
functions-HasTypedef (d ∷ ds) s {t} h =
    let (u, e, h1) = bind-ok (write_function_typedefs d s) _ h in
    let (has, grows) = write_parameter_typedefs-HasTypedef d 0 d.parameters s e in
    let (rest, more) = functions-HasTypedef ds u h1 in
    (
      (All-Grows d.parameters u.typedef_map t.typedef_map more has, rest),
      λ k name f. more k name (grows k name f),
    )

-- Behind the typedefs, the map has a name for every parameter of every function that points to a
-- function and whose type is no typedef yet, so that no mock is given such a type in full; and no
-- name that the map had before is lost or changed.
pub write_typedefs-HasTypedef :
    (functions : List FunctionDecl) (s : State) {t : State}
    → write_typedefs functions s ≡ ok t
    → All (λ d. All (HasTypedef t.typedef_map) d.parameters) functions
      × ((k : ℕ) (name : String)
          → find_typedef s.typedef_map k ≡ some name
          → find_typedef t.typedef_map k ≡ some name)
unfolding write_typedefs
write_typedefs-HasTypedef functions s {t} h =
    let (u, e, h1) = bind-ok (for_each functions write_function_typedefs s) _ h in
    rw (sym (last u h1)) (functions-HasTypedef functions s e)
  where
    last :
        (u : State)
        → when (elim u.typedef_map [ [] ↦ false | e ∷ m ↦ true ]) (emit (write "\n")) u ≡ ok t
        → u.typedef_map ≡ t.typedef_map
    last u k = ground arith
