-- ===== src/Main/Adjusters.antt =====
-- main.cpp: `ExtraArgumentsAdjuster` and `RemoveArgumentsAdjuster`, which edit the arguments of the
-- compiler.
use ccmock.Base.{
  mem_str, ℕ, ◌+◌, ◌-◌, ◌%◌, ◌^◌, ◌/◌, String, not, List, [], ◌∷◌, ◌++◌, ltb, if◌then◌else◌, length,
  keep, Outcome, ok, fault, bind,
}

pub data Adjuster : Type 0 where
  extra remove : List String → Adjuster

unfoldable pub add_extra_arguments : List String → List String → List String
add_extra_arguments extra_args args = args ++ extra_args

-- `RemoveArgs_.insert`: the keys of a `StringMap` are distinct.
unfoldable pub distinct : List String → List String
distinct [] = []
distinct (x ∷ xs) = let rest = distinct xs in if mem_str x rest then rest else x ∷ rest

-- `std::vector<std::string>::max_size()`: `PTRDIFF_MAX` bytes, 32 to a string
abbrev pub max_size : ℕ
max_size = (2 ^ 63 - 1) / 32

-- `size_t` subtraction wraps around.
abbrev pub sub_size : ℕ → ℕ → ℕ
sub_size a b = (a + 2 ^ 64 - b) % 2 ^ 64

-- `reserve` throws `std::length_error` above `max_size()`, which nothing catches: a fault.
unfoldable pub remove_arguments : List String → List String → Outcome (List String)
unfolding distinct
remove_arguments remove_args args =
    let keys = distinct remove_args in
    if ltb max_size (sub_size (length args) (length keys))
    then fault
    else ok (keep (λ arg. not (mem_str arg keys)) args)

unfoldable pub adjust : Adjuster → List String → Outcome (List String)
unfolding add_extra_arguments remove_arguments
adjust (extra extra_args) args = ok (add_extra_arguments extra_args args)
adjust (remove remove_args) args = remove_arguments remove_args args

-- The tool runs the appended adjusters in turn.
unfoldable pub adjust_all : List Adjuster → List String → Outcome (List String)
unfolding adjust
adjust_all [] args = ok args
adjust_all (a ∷ as') args = bind (adjust a args) (adjust_all as')
