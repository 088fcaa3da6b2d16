-- ===== src/CompilationDatabase/Selects.antt =====
-- The adapter gives the command at the configured index, and that alone.
use ccmock.Base.{
  ℕ, zero, suc, String, true, false, Option, none, some, List, [], ◌∷◌, ◌≡◌, refl, arith, length,
  get_elem?, leb, ap, ok,
}
use ccmock.CompilationDatabase.{
  CompileCommand, Adapter, Database, select_command, get_compile_commands,
}

abbrev pub singleton? {ℓ} : {A : Type ℓ} → Option A → List A
singleton? none = []
singleton? (some x) = x ∷ []

get_elem?-ge : (xs : List CompileCommand) (i : ℕ) → leb (length xs) i ≡ true → get_elem? xs i ≡ none
get_elem?-ge [] i h = refl
get_elem?-ge (x ∷ xs) zero h = absurd (ground arith)
get_elem?-ge (x ∷ xs) (suc i) h = get_elem?-ge xs i (ground arith)

get_elem?-lt :
    (xs : List CompileCommand) (i : ℕ)
    → leb (length xs) i ≡ false
    → (x : CompileCommand) × (get_elem? xs i ≡ some x)
get_elem?-lt [] i h = absurd (ground arith)
get_elem?-lt (x ∷ xs) zero h = (x, refl)
get_elem?-lt (x ∷ xs) (suc i) h = get_elem?-lt xs i (ground arith)

select_command-get_elem? :
    (index : ℕ) (vec : List CompileCommand)
    → select_command index vec ≡ singleton? (get_elem? vec index)
unfolding select_command
select_command-get_elem? index [] = ground arith
select_command-get_elem? zero (x ∷ xs) = ground arith
select_command-get_elem? (suc i) (x ∷ xs) = ground (arith, get_elem?-ge xs i, get_elem?-lt xs i)

-- For a loaded database, the adapter returns the file's command at the index, and nothing where
-- the file has no such command.
pub get_compile_commands-get_elem? :
    (a : Adapter) (d : Database) (path : String)
    → a.database ≡ some d
    → get_compile_commands a path ≡ ok (singleton? (get_elem? (d.commands_of path) a.index))
unfolding get_compile_commands
get_compile_commands-get_elem? a d path h =
    rw h (ap ok (select_command-get_elem? a.index (d.commands_of path)))
