-- ===== src/Base/Text.antt =====
-- Texts: the bytes that the program writes, as native strings.
use Prim.Native.Nat.{ℕ, zero, suc, ◌/◌, ◌%◌}
use Prim.Native.Char.{code}
use Prim.Native.String.{String, ◌++◌}
use mathlib.Core.Path.{◌≡◌, refl, ap}
use mathlib.Core.Bool.{Bool, true, false}
use mathlib.Core.Option.{Option, none, some}
use text.Mathlib.TextLemmas.{cons-append, append_assoc, append-nil, append_cancel_left}
use ccmock.Base.Tests.{ltb, ◌==◌, if◌then◌else◌}

-- `+` of `std::string`, and `<<` of a stream.
infixr 65 ◌<>◌
abbrev pub ◌<>◌ : String → String → String
a <> b = a ++ b

pub <>_assoc : (a b c : String) → (a <> b) <> c ≡ a <> (b <> c)
<>_assoc a b c = append_assoc a b c

pub <>-empty : (a : String) → a <> "" ≡ a
<>-empty a = append-nil a

pub <>-cancel : (a b c : String) → a <> b ≡ a <> c → b ≡ c
<>-cancel a b c h = append_cancel_left a b c h

-- `str.empty()`
abbrev pub is_empty : String → Bool
is_empty String.[] = true
is_empty (String.◌∷◌ c s) = false

pub is_empty-append : (b s : String) → is_empty b ≡ false → is_empty (b <> s) ≡ false
is_empty-append String.[] s h = cc
is_empty-append (String.◌∷◌ c b) s h = ap is_empty (cons-append c b s)

-- `str.back()`, with `none` on the empty text, where the C++ is undefined.
unfoldable pub back? : String → Option ℕ
back? String.[] = none
back? (String.◌∷◌ c String.[]) = some (code c)
back? (String.◌∷◌ c (String.◌∷◌ d s)) = back? (String.◌∷◌ d s)

-- `OS.indent(n)`: n spaces
unfoldable pub spaces : ℕ → String
spaces zero = ""
spaces (suc n) = " " ++ spaces n

unfoldable pub digit : ℕ → String
digit d =
    if d == 0
    then "0"
    else if d == 1
    then "1"
    else if d == 2
    then "2"
    else if d == 3
    then "3"
    else if d == 4
    then "4"
    else if d == 5
    then "5"
    else if d == 6
    then "6"
    else if d == 7
    then "7"
    else if d == 8
    then "8"
    else "9"

unfoldable pub decimal_onto : ℕ → ℕ → String → String
decimal_onto zero n s = s
decimal_onto (suc f) n s =
    let more = decimal_onto f (n / 10) (digit (n % 10) ++ s) in
    if ltb n 10 then digit n ++ s else more

-- `OS << n` on an unsigned number. A number has no more digits than its value, and one.
unfoldable pub decimal : ℕ → String
unfolding decimal_onto digit
decimal n = decimal_onto (suc n) n ""

decimal_runs : (decimal 0 ≡ "0") × (decimal 9 ≡ "9") × (decimal 1024 ≡ "1024")
unfolding decimal
decimal_runs = (refl, refl, refl)
