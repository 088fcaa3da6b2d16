-- ===== src/Base/Methods.antt =====
-- Methods that mutate an object and may stop the program.
use Prim.Native.Nat.{ℕ, suc}
use mathlib.Core.Path.{◌≡◌, refl}
use mathlib.Core.List.{List, [], ◌∷◌}
use mathlib.Core.Bool.{Bool}
use ccmock.Base.Tests.{if◌then◌else◌}

-- `exit` is `std::exit(EXIT_FAILURE)`; `fault` is `llvm_unreachable`, a failed `cast` or an access
-- out of bounds, after which the C++ has no defined meaning.
pub data Outcome {ℓ} (A : Type ℓ) : Type ℓ where
  ok : A → Outcome A
  exit : Outcome A
  fault : Outcome A

abbrev pub Action {ℓ} : Type ℓ → Type ℓ
Action S = S → Outcome S

module _ {ℓ κ} {A : Type ℓ} {B : Type κ} where
  abbrev pub bind : Outcome A → (A → Outcome B) → Outcome B
  bind (ok a) f = f a
  bind exit f = exit
  bind fault f = fault

  -- a chain that ends has ended in its first part
  pub bind-ok :
      (o : Outcome A) (f : A → Outcome B) {b : B}
      → bind o f ≡ ok b
      → (a : A) × (o ≡ ok a) × (f a ≡ ok b)
  bind-ok (ok a) f h = (a, refl, h)
  bind-ok exit f h = cc
  bind-ok fault f h = cc

pub ok-inj {ℓ} : {A : Type ℓ} {a b : A} → ok a ≡ ok b → a ≡ b
ok-inj h = cc

pub bind_unit {ℓ} : {S : Type ℓ} (o : Outcome S) → bind o ok ≡ o
bind_unit (ok s) = refl
bind_unit exit = refl
bind_unit fault = refl

pub bind_assoc {ℓ κ μ} :
    {A : Type ℓ} {B : Type κ} {C : Type μ} (o : Outcome A) (f : A → Outcome B) (g : B → Outcome C)
    → bind (bind o f) g ≡ bind o (λ a. bind (f a) g)
bind_assoc (ok a) f g = refl
bind_assoc exit f g = refl
bind_assoc fault f g = refl

module _ {ℓ} {S : Type ℓ} where
  infixl 5 ◌>>◌
  abbrev pub ◌>>◌ : Action S → Action S → Action S
  ◌>>◌ m k s = bind (m s) k

  -- a statement that does nothing
  abbrev pub skip : Action S
  skip s = ok s

  abbrev pub raise_fault : Action S
  raise_fault s = fault

  -- `if (test) action`
  abbrev pub when : Bool → Action S → Action S
  when test m s = if test then m s else ok s

  -- `for (const auto &x : list) body(x)`
  abbrev pub for_each {κ} : {A : Type κ} → List A → (A → Action S) → Action S
  for_each [] body s = ok s
  for_each (x ∷ xs) body s = bind (body x s) (for_each xs body)

  -- `for (i = ...; i < size; ++i) body(i, list[i])`, from position `i`
  abbrev pub for_each_from {κ} : {A : Type κ} → ℕ → List A → (ℕ → A → Action S) → Action S
  for_each_from i [] body s = ok s
  for_each_from i (x ∷ xs) body s = bind (body i x s) (for_each_from (suc i) xs body)
