-- ===== src/Main/Adjusts.antt =====
-- What the argument adjusters make of the compiler's arguments.
use mathlib.Core.List.{append-nil}
use ccmock.Base.{
  ◌^◌, ◌≤◌, ◌<◌, String, not, List, [], ◌∷◌, ◌++◌, ◌≡◌, refl, sym, ap, ◌∙◌, arith, mem_str, leb,
  if◌then◌else◌, length, keep, Outcome, ok, fault, eq_iff,
}
use ccmock.Config.{Config}
use ccmock.Main.Adjusters.{
  extra, remove, add_extra_arguments, distinct, remove_arguments, adjust_all,
}
use ccmock.Main.{adjusters_of, optional_adjuster}

mem_str-distinct : (k : String) (xs : List String) → mem_str k (distinct xs) ≡ mem_str k xs
unfolding distinct
mem_str-distinct k [] = refl
mem_str-distinct k (x ∷ xs) =
    ground (arith, mem_str-distinct k xs, mem_str-distinct x xs, eq_iff x k)

length-distinct : (xs : List String) → length (distinct xs) ≤ length xs
unfolding distinct
length-distinct [] = omega arith
length-distinct (x ∷ xs) = ground (arith, length-distinct xs)

keep-distinct :
    (rs args : List String)
    → keep (λ arg. not (mem_str arg (distinct rs))) args ≡ keep (λ arg. not (mem_str arg rs)) args
keep-distinct rs [] = refl
keep-distinct rs (a ∷ rest) = ground (arith, mem_str-distinct a rs, keep-distinct rs rest)

-- For lists shorter than 2^58, which is more than a vector of strings can hold: the adjuster drops
-- every argument that is listed and keeps the others in their order, if there are at least as many
-- arguments as distinct entries; otherwise the size that it reserves wraps around, and it throws.
pub remove_arguments-keep :
    (remove_args args : List String)
    → length remove_args < 2 ^ 58
    → length args < 2 ^ 58
    → remove_arguments remove_args args ≡ (
        if leb (length (distinct remove_args)) (length args)
        then ok (keep (λ arg. not (mem_str arg remove_args)) args)
        else fault)
unfolding remove_arguments
remove_arguments-keep remove_args args r a =
    ground (arith, length-distinct remove_args, keep-distinct remove_args args)

keep-nothing_listed : (args : List String) → keep (λ arg. not (mem_str arg [])) args ≡ args
keep-nothing_listed [] = refl
keep-nothing_listed (a ∷ rest) = ap (◌∷◌ a) (keep-nothing_listed rest)

-- the arguments that are left, if the adjuster does not throw
abbrev kept : List String → List String → Outcome (List String)
kept remove_args args =
    if leb (length (distinct remove_args)) (length args)
    then ok (keep (λ arg. not (mem_str arg remove_args)) args)
    else fault

adjust_remove-kept :
    (remove_args args : List String)
    → length remove_args < 2 ^ 58
    → length args < 2 ^ 58
    → adjust_all (optional_adjuster remove remove_args) args ≡ kept remove_args args
unfolding adjust_all distinct
adjust_remove-kept [] args r a = rw keep-nothing_listed (ground arith)
adjust_remove-kept (x ∷ xs) args r a = ground (arith, remove_arguments-keep (x ∷ xs) args r a)

adjust_all-kept :
    (extra_args remove_args args : List String)
    → length remove_args < 2 ^ 58
    → length (args ++ extra_args) < 2 ^ 58
    → adjust_all (optional_adjuster extra extra_args ++ optional_adjuster remove remove_args) args
      ≡ kept remove_args (args ++ extra_args)
unfolding adjust_all add_extra_arguments
adjust_all-kept [] remove_args args r a =
    adjust_remove-kept remove_args args r (rw append-nil at a)
    ∙ ap (kept remove_args) (sym (append-nil args))
adjust_all-kept (x ∷ xs) remove_args args r a =
    adjust_remove-kept remove_args (args ++ (x ∷ xs)) r a

-- For lists shorter than 2^58: the compiler gets its arguments and the extra ones behind them,
-- without those that are to be removed, extra ones included; the adjustment throws exactly where
-- the distinct arguments to remove outnumber all arguments.
pub adjust_all-adjusters_of :
    (c : Config) (args : List String)
    → length c.clang.remove_arguments < 2 ^ 58
    → length (args ++ c.clang.extra_arguments) < 2 ^ 58
    → adjust_all (adjusters_of c) args ≡ (
        if leb
          (length (distinct c.clang.remove_arguments))
          (length (args ++ c.clang.extra_arguments))
        then ok (
            keep
              (λ arg. not (mem_str arg c.clang.remove_arguments))
              (args ++ c.clang.extra_arguments))
        else fault)
adjust_all-adjusters_of c args r a =
    adjust_all-kept c.clang.extra_arguments c.clang.remove_arguments args r a
