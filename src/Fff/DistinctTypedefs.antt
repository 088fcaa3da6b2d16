-- ===== src/Fff/DistinctTypedefs.antt =====
-- output/FFF.cpp, `writeTypedefs`: no type gets two typedefs.
use mathlib.Core.List.{append-nil}
use mathlib.Core.Path.{subst}
use ccmock.Base.{
  ℕ, suc, String, true, false, not, ◌&&◌, ◌∙◌, none, List, [], ◌∷◌, ◌++◌, ◌≡◌, refl, sym, ap, arith,
  inl, inr, mem_nat, Bool-cases, Option-cases, ok, bind-ok, when, for_each, for_each_from,
}
use ccmock.Ast.{FunctionDecl, ParmVarDecl}
use ccmock.Writer.{write, points_to_function}
use ccmock.Visitor.Distinct.{AllDistinct, AllDistinct-middle}
use ccmock.Fff.{
  TypedefMap, State, emit, find_typedef, create_typedef_name, write_typedef,
  write_function_typedefs, write_typedefs,
}

-- the types that have a typedef
abbrev pub typedef_types : TypedefMap → List ℕ
typedef_types [] = []
typedef_types ((k, name) ∷ m) = k ∷ typedef_types m

abbrev IsDistinct : State → Type 0
IsDistinct s = AllDistinct (typedef_types s.typedef_map)

typedef_types-append :
    (m : TypedefMap) (k : ℕ) (name : String)
    → typedef_types (m ++ (k, name) ∷ []) ≡ typedef_types m ++ k ∷ []
typedef_types-append [] k name = refl
typedef_types-append ((j, n) ∷ m) k name = ap (◌∷◌ j) (typedef_types-append m k name)

find_typedef-mem_nat :
    (m : TypedefMap) (k : ℕ) → find_typedef m k ≡ none → mem_nat k (typedef_types m) ≡ false
unfolding find_typedef
find_typedef-mem_nat [] k h = refl
find_typedef-mem_nat ((j, n) ∷ m) k h = ground (arith, find_typedef-mem_nat m k)

append_nil-AllDistinct :
    (xs : List ℕ) (x : ℕ) → AllDistinct xs → mem_nat x xs ≡ false → AllDistinct (xs ++ x ∷ [])
append_nil-AllDistinct xs x h n = AllDistinct-middle x xs [] (rw append-nil h) (rw append-nil n)

write_typedef-IsDistinct :
    (d : FunctionDecl) (i : ℕ) (p : ParmVarDecl) (s : State) {t : State}
    → IsDistinct s
    → write_typedef d i p s ≡ ok t
    → IsDistinct t
unfolding write_typedef
write_typedef-IsDistinct d i p s {t} distinct h =
    elim (Option-cases (find_typedef s.typedef_map p.type.type_ptr)) [
      | inr (name, e) ↦ subst (λ m. AllDistinct (typedef_types m)) (ground (arith, e)) distinct
      | inl e ↦ elim (Bool-cases (points_to_function p.type && not p.type.is_typedef_name_type)) [
        | inr named ↦ subst (λ m. AllDistinct (typedef_types m)) (ground (arith, e)) distinct
        | inl needs ↦
            let name = create_typedef_name d i in
            let k = p.type.type_ptr in
            let longer : s.typedef_map ++ (k, name) ∷ [] ≡ t.typedef_map = ground (arith, e) in
            subst AllDistinct
              (sym (typedef_types-append s.typedef_map k name) ∙ ap typedef_types longer)
              (append_nil-AllDistinct (typedef_types s.typedef_map) k distinct
                (find_typedef-mem_nat s.typedef_map k e))
      ]
    ]

write_parameter_typedefs-IsDistinct :
    (d : FunctionDecl) (i : ℕ) (ps : List ParmVarDecl) (s : State) {t : State}
    → IsDistinct s
    → for_each_from i ps (write_typedef d) s ≡ ok t
    → IsDistinct t
write_parameter_typedefs-IsDistinct d i [] s {t} distinct h =
    subst (λ m. AllDistinct (typedef_types m)) (ground arith) distinct
write_parameter_typedefs-IsDistinct d i (p ∷ ps) s distinct h =
    let (u, e, k) = bind-ok (write_typedef d i p s) _ h in
    write_parameter_typedefs-IsDistinct d (suc i) ps u (write_typedef-IsDistinct d i p s distinct e)
      k

functions-IsDistinct :
    (functions : List FunctionDecl) (s : State) {t : State}
    → IsDistinct s
    → for_each functions write_function_typedefs s ≡ ok t
    → IsDistinct t
unfolding write_function_typedefs
functions-IsDistinct [] s distinct h =
    subst (λ m. AllDistinct (typedef_types m)) (ground arith) distinct
functions-IsDistinct (d ∷ ds) s distinct h =
    let (u, e, k) = bind-ok (write_function_typedefs d s) _ h in
    functions-IsDistinct ds u (write_parameter_typedefs-IsDistinct d 0 d.parameters s distinct e) k

-- No type gets two typedefs: from a map with one name for each type, the typedefs of any functions
-- lead to such a map.
pub write_typedefs-AllDistinct :
    (functions : List FunctionDecl) (s : State) {t : State}
    → AllDistinct (typedef_types s.typedef_map)
    → write_typedefs functions s ≡ ok t
    → AllDistinct (typedef_types t.typedef_map)
unfolding write_typedefs
write_typedefs-AllDistinct functions s {t} distinct h =
    let (u, e, k) = bind-ok (for_each functions write_function_typedefs s) _ h in
    subst (λ m. AllDistinct (typedef_types m)) (last u k)
      (functions-IsDistinct functions s distinct e)
  where
    last :
        (u : State)
        → when (elim u.typedef_map [ [] ↦ false | e ∷ m ↦ true ]) (emit (write "\n")) u ≡ ok t
        → u.typedef_map ≡ t.typedef_map
    last u k = ground arith
