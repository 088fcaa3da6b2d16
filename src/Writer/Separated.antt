-- ===== src/Writer/Separated.antt =====
-- output/OutputWriter.cpp and output/GMock.cpp: loops that write ", " before each item but the
-- first one.
use ccmock.Base.{
  ℕ, suc, String, not, ◌==◌, arith, List, [], ◌∷◌, ◌≡◌, ap, ◌∙◌, ◌<>◌, sym, Action, ok, bind, ◌>>◌,
  when, for_each_from,
}
use ccmock.Writer.{Writer, append, write}
use ccmock.Writer.Appends.{append-append, append-empty}

-- The texts, each behind a separator.
abbrev pub followed : List String → String
followed [] = ""
followed (t ∷ ts) = ", " <> (t <> followed ts)

-- The texts with separators between them.
abbrev pub join : List String → String
join [] = ""
join (t ∷ ts) = t <> followed ts

-- One text for each item, in order; `Text` says which one.
abbrev pub Texts {κ} : {A : Type κ} → (ℕ → A → String → Type 0) → ℕ → List A → List String → Type 0
Texts Text i [] [] = Unit
Texts Text i [] (t ∷ ts) = ⊥
Texts Text i (x ∷ xs) [] = ⊥
Texts Text i (x ∷ xs) (t ∷ ts) = Text i x t × Texts Text (suc i) xs ts

abbrev pub separate : ℕ → Action Writer
separate i = when (not (i == 0)) (write ", ")

separate-suc : (i : ℕ) (w : Writer) → separate (suc i) w ≡ ok (append ", " w)
separate-suc i w = ground arith

-- `body` writes such a text wherever `Holds`, which holds again behind the text and a separator.
module _ {κ} {A : Type κ} (body : ℕ → A → Action Writer) (Text : ℕ → A → String → Type 0)
    (Holds : Writer → Type 0)
    (keeps : (t : String) (w : Writer) → Holds w → Holds (append ", " (append t w)))
    (writes : (i : ℕ) (x : A) (w : Writer)
      → Holds w
      → (t : String) × (body i x w ≡ ok (append t w)) × Text i x t) where
  for_each_from-followed :
      (i : ℕ) (xs : List A) (w : Writer)
      → Holds (append ", " w)
      → (ts : List String) × (for_each_from (suc i) xs (λ j x. separate j >> body j x) w
          ≡ ok (append (followed ts) w))
        × Texts Text (suc i) xs ts
  for_each_from-followed i [] w h = ([], ap ok (sym (append-empty w)), tt)
  for_each_from-followed i (x ∷ xs) w h =
      let behind = append ", " w in
      let (t, e, says) = writes (suc i) x behind h in
      let (ts, f, all) = for_each_from-followed (suc i) xs (append t behind) (keeps t behind h) in
      (
        t ∷ ts,
        ap
              (λ o.
                bind (bind o (body (suc i) x))
                  (for_each_from (suc (suc i)) xs (λ j x. separate j >> body j x)))
              (separate-suc i w)
            ∙ ap (λ o. bind o (for_each_from (suc (suc i)) xs (λ j x. separate j >> body j x))) e
            ∙ f
            ∙ ap ok
                (append-append t (followed ts) behind ∙ append-append ", " (t <> followed ts) w),
        (says, all),
      )

  pub for_each_from-join :
      (xs : List A) (w : Writer)
      → Holds w
      → (ts : List String) × (for_each_from 0 xs (λ j x. separate j >> body j x) w
          ≡ ok (append (join ts) w))
        × Texts Text 0 xs ts
  for_each_from-join [] w h = ([], ap ok (sym (append-empty w)), tt)
  for_each_from-join (x ∷ xs) w h =
      let (t, e, says) = writes 0 x w h in
      let (ts, f, all) = for_each_from-followed 0 xs (append t w) (keeps t w h) in
      (
        t ∷ ts,
        ap (λ o. bind o (for_each_from 1 xs (λ j x. separate j >> body j x))) e
            ∙ f
            ∙ ap ok (append-append t (followed ts) w),
        (says, all),
      )
