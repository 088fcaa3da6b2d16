-- ===== src/Gmock/Arguments.antt =====
-- output/GMock.cpp: the argument of `va_start` in a variadic mock function.
use ccmock.Base.{some, List, [], ◌∷◌, ◌++◌, ◌≡◌, refl, arith, last?, length, length-append}
use ccmock.Ast.{ParmVarDecl}
use ccmock.Writer.{Writer}
use ccmock.Gmock.Calls.{write_argument, write_last_argument}

last?-append : (ps : List ParmVarDecl) (p : ParmVarDecl) → last? (ps ++ p ∷ []) ≡ some p
last?-append [] p = refl
last?-append (q ∷ []) p = refl
last?-append (q ∷ r ∷ ps) p = last?-append (r ∷ ps) p

-- In a variadic mock function, `va_start` names the very argument that the call passes last of the
-- named ones.
pub write_last_argument-write_argument :
    (ps : List ParmVarDecl) (p : ParmVarDecl) (w : Writer)
    → write_last_argument (ps ++ p ∷ []) w ≡ write_argument (length ps) p w
unfolding write_last_argument write_argument
write_last_argument-write_argument ps p w =
    ground (arith, last?-append ps p, length-append ps (p ∷ []))
