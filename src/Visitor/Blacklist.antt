-- ===== src/Visitor/Blacklist.antt =====
-- The blacklists of `ASTVisitor` (output/OutputGenerator.cpp) and util/Glob.hpp. What a glob
-- pattern matches is llvm's: `create` gives the matcher, or nothing for a malformed pattern.
use Prim.Native.Char.{code}
use ccmock.Base.{
  ℕ, String, Bool, false, not, ◌||◌, Option, none, some, List, [], ◌∷◌, ◌++◌, ◌==◌, if◌then◌else◌,
  ok, exit, Outcome,
}

abbrev pub Glob : Type 0
Glob = String → Bool

abbrev pub internal_blacklist : List String
internal_blacklist =
    "environ" ∷ "stdin" ∷ "stdout" ∷ "stderr" ∷ "std::cin" ∷ "std::wcin" ∷ "std::cout"
    ∷ "std::wcout" ∷ "std::cerr" ∷ "std::wcerr" ∷ []

abbrev is_special : ℕ → Bool
is_special c = c == b'?' || (c == b'*' || c == b'[')

unfoldable pub is_pattern : String → Bool
is_pattern String.[] = false
is_pattern (String.◌∷◌ c s) = is_special (code c) || is_pattern s

pub record Blacklists : Type 0 where
  pub names : List String
  pub globs : List (String × Glob)

-- the loop of the constructor
unfoldable pub fill_blacklist :
    (String → Option Glob) → List String → Blacklists → Outcome Blacklists
fill_blacklist create [] b = ok b
fill_blacklist create (name ∷ rest) b =
    let continue = fill_blacklist create rest in
    if not (is_pattern name)
    then continue (record b { names = b.names ++ name ∷ [] })
    else elim (create name) [
      | none ↦ exit
      | some glob ↦ continue (record b { globs = b.globs ++ (name, glob) ∷ [] })
    ]

unfoldable pub make_blacklist : (String → Option Glob) → List String → Outcome Blacklists
unfolding fill_blacklist
make_blacklist create entries = fill_blacklist create entries (record { names = []; globs = [] })

-- the first pattern that matches, as the loop over `GlobBlacklist_` finds it
unfoldable pub find_glob : String → List (String × Glob) → Option String
find_glob name [] = none
find_glob name ((pattern, glob) ∷ rest) = if glob name then some pattern else find_glob name rest
