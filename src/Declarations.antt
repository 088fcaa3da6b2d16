-- ===== src/Declarations.antt =====
-- util/Decl.hpp and util/Decl.cpp: the variables that ccmock makes itself, and the tests on
-- functions and namespaces that nothing calls.
use ccmock.Base.{ℕ, String, Bool, true, false, not, ◌&&◌, Option, none, some, is_empty}
use ccmock.Ast.{Ast, DeclKind, namespace, FunctionDecl, Method, QualType}

-- What ccmock uses of the variable: its name, and what `Decl::print` writes for it.
pub record FakeVarDecl : Type 0 where
  pub name : String
  pub printed : ℕ → String

-- `fakeVarDecl`: a variable of that type and name in the translation unit, without storage class.
abbrev pub fake_var_decl : QualType → String → FakeVarDecl
fake_var_decl type name = record { name = name; printed = type.declared name }

abbrev is_method : Option Method → Bool
is_method none = false
is_method (some m) = true

-- `is_global` is clang's `FunctionDecl::isGlobal`.
is_global_function : (FunctionDecl → Bool) → FunctionDecl → Bool
is_global_function is_global d = not (is_method d.method) && is_global d

abbrev is_nameless : Option String → Bool
is_nameless none = true
is_nameless (some s) = is_empty s

abbrev is_namespace_kind : DeclKind → Bool
is_namespace_kind namespace = true
is_namespace_kind _ = false

-- Both overloads: a namespace that has no name; any other context is none.
is_global_namespace : Ast → ℕ → Bool
is_global_namespace ast context =
    is_namespace_kind (ast.kind context) && is_nameless (ast.name context)
