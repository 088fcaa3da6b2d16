-- ===== src/Writer/Shows.antt =====
-- output/OutputWriter.hpp: statements of a generator, whose state holds a writer, by the text that
-- they put behind the buffer.
use mathlib.Core.Path.{subst}
use ccmock.Base.{
  ℕ, true, String, List, [], ◌∷◌, ◌≡◌, sym, refl, ap, ◌∙◌, arith, inl, inr, Bool-cases, mem_nat,
  ◌==◌, ==_iff, ◌<>◌, All, Action, ok, bind, ◌>>◌, skip, for_each,
}
use ccmock.Ast.{Policy}
use ccmock.Writer.{Writer, append}
use ccmock.Writer.Appends.{append-append, append-empty}

-- What a text says under a printing policy, and still says as part of a longer text.
pub record IsLocal (Says : Policy → String → Type 0) : Type 0 where
  pub left : (policy : Policy) (s t : String) → Says policy s → Says policy (s <> t)
  pub right : (policy : Policy) (s t : String) → Says policy t → Says policy (s <> t)

-- The statement succeeds, keeps what holds of the state, and puts a text behind the buffer.
pub record Puts {S : Type 0} (writer : S → Writer) (Holds : S → Type 0) (a : Action S)
    : Type 0 where
  pub puts :
      (s : S)
      → Holds s
      → (t : S) × (text : String) × (a s ≡ ok t) × Holds t × (writer t ≡ append text (writer s))

-- The same, where the text says something.
pub record Shows {S : Type 0} (writer : S → Writer) (Holds : S → Type 0)
    (Says : Policy → String → Type 0) (a : Action S) : Type 0 where
  pub shows :
      (s : S)
      → Holds s
      → (t : S) × (text : String) × (a s ≡ ok t)
        × Holds t
        × (writer t ≡ append text (writer s))
        × Says (writer s).policy text

module _ {S : Type 0} (writer : S → Writer) (Holds : S → Type 0) where
  pub Puts-skip : Puts writer Holds skip
  Puts-skip = record { puts = λ s k. (s, "", refl, k, sym (append-empty (writer s))) }

  pub Puts-seq :
      {a b : Action S} → Puts writer Holds a → Puts writer Holds b → Puts writer Holds (a >> b)
  Puts-seq {b = b} p q = record {
    puts = λ s k.
        let (t, x, e, k1, w) = p.puts s k in
        let (u, y, l, k2, v) = q.puts t k1 in
        (
          u,
          x <> y,
          ap (λ o. bind o b) e ∙ l,
          k2,
          v ∙ ap (append y) w ∙ append-append x y (writer s),
        );
  }

  pub Puts-for_each :
      (xs : List ℕ) (body : ℕ → Action S)
      → ((x : ℕ) → mem_nat x xs ≡ true → Puts writer Holds (body x))
      → Puts writer Holds (for_each xs body)
  Puts-for_each [] body h = record { puts = Puts-skip.puts }
  Puts-for_each (x ∷ xs) body h = record {
    puts = (Puts-seq (h x (ground arith)) (Puts-for_each xs body (λ y e. h y (ground arith)))).puts;
  }

  module _ {Says : Policy → String → Type 0} (local : IsLocal Says) where
    pub Shows-then :
        {a b : Action S}
        → Shows writer Holds Says a
        → Puts writer Holds b
        → Shows writer Holds Says (a >> b)
    Shows-then {b = b} p q = record {
      shows = λ s k.
          let (t, x, e, k1, w, i) = p.shows s k in
          let (u, y, l, k2, v) = q.puts t k1 in
          (
            u,
            x <> y,
            ap (λ o. bind o b) e ∙ l,
            k2,
            v ∙ ap (append y) w ∙ append-append x y (writer s),
            local.left (writer s).policy x y i,
          );
    }

    pub then-Shows :
        {a b : Action S}
        → Puts writer Holds a
        → Shows writer Holds Says b
        → Shows writer Holds Says (a >> b)
    then-Shows {b = b} p q = record {
      shows = λ s k.
          let (t, x, e, k1, w) = p.puts s k in
          let (u, y, l, k2, v, j) = q.shows t k1 in
          (
            u,
            x <> y,
            ap (λ o. bind o b) e ∙ l,
            k2,
            v ∙ ap (append y) w ∙ append-append x y (writer s),
            local.right (writer s).policy x y (subst (λ (z : Writer). Says z.policy y) w j),
          );
    }

    pub Shows-for_each :
        (xs : List ℕ) (body : ℕ → Action S) (y : ℕ)
        → ((x : ℕ) → mem_nat x xs ≡ true → Puts writer Holds (body x))
        → Shows writer Holds Says (body y)
        → mem_nat y xs ≡ true
        → Shows writer Holds Says (for_each xs body)
    Shows-for_each [] body y h shown e = absurd (cc)
    Shows-for_each (x ∷ xs) body y h shown e = elim (Bool-cases (x == y)) [
      | inl here ↦ record {
        shows =
            (Shows-then
              (subst (λ z. Shows writer Holds Says (body z)) (sym ((==_iff x y).0 here)) shown)
              (Puts-for_each xs body (λ z f. h z (ground arith)))).shows;
      }
      | inr later ↦ record {
        shows =
            (then-Shows (h x (ground arith)) (
              Shows-for_each xs body y (λ z f. h z (ground arith)) shown
                (ground (arith, later)))).shows;
      }
    ]

-- What is said of each item of a list is local, if what is said of one item is.
module _ {κ} {A : Type κ} (Says : A → Policy → String → Type 0)
    (local : (x : A) → IsLocal (Says x)) where
  All-left :
      (policy : Policy) (s t : String) (xs : List A)
      → All (λ x. Says x policy s) xs
      → All (λ x. Says x policy (s <> t)) xs
  All-left policy s t [] h = tt
  All-left policy s t (x ∷ xs) h = ((local x).left policy s t h.0, All-left policy s t xs h.1)

  All-right :
      (policy : Policy) (s t : String) (xs : List A)
      → All (λ x. Says x policy t) xs
      → All (λ x. Says x policy (s <> t)) xs
  All-right policy s t [] h = tt
  All-right policy s t (x ∷ xs) h = ((local x).right policy s t h.0, All-right policy s t xs h.1)

  pub All-IsLocal : (xs : List A) → IsLocal (λ policy text. All (λ x. Says x policy text) xs)
  All-IsLocal xs = record {
    left = λ policy s t h. All-left policy s t xs h;
    right = λ policy s t h. All-right policy s t xs h;
  }

  -- A loop says of each item what its body says of it.
  pub for_each-Says :
      (body : A → Action Writer) (Fits : A → Type 0)
      → ((x : A)
          → Fits x
          → (w : Writer) → (text : String) × (body x w ≡ ok (append text w)) × Says x w.policy text)
      → (xs : List A) → All Fits xs
      → (w : Writer)
      → (text : String) × (for_each xs body w ≡ ok (append text w))
        × All (λ x. Says x w.policy text) xs
  for_each-Says body Fits writes [] h w = ("", ap ok (sym (append-empty w)), tt)
  for_each-Says body Fits writes (x ∷ xs) h w =
      let (s, e, says) = writes x h.0 w in
      let (t, f, all) = for_each-Says body Fits writes xs h.1 (append s w) in
      (
        s <> t,
        ap (λ o. bind o (for_each xs body)) e ∙ f ∙ ap ok (append-append s t w),
        ((local x).left w.policy s t says, All-right w.policy s t xs all),
      )
