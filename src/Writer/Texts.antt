-- ===== src/Writer/Texts.antt =====
-- output/OutputWriter.hpp: the exact text that a statement puts behind the buffer.
use text.Mathlib.TextLemmas.{nil-append}
use ccmock.Base.{
  All, String, Bool, true, false, ◌≡◌, refl, sym, ap, ◌∙◌, ◌<>◌, <>_assoc, if◌then◌else◌, Action,
  ok, bind, ◌>>◌, when, skip, for_each, for_each_from, ℕ, suc, List, [], ◌∷◌,
}
use ccmock.Ast.{Policy, FunctionDecl, QualType}
use ccmock.Writer.{Writer, append, write, write_return_type, write_type}
use ccmock.Writer.Shows.{IsLocal, All-IsLocal}
use ccmock.Writer.Appends.{append-append, append-empty}

-- The statement puts this text behind the buffer, as the printing policy has it.
pub record Writes (m : Action Writer) (text : Policy → String) : Type 0 where
  pub writes : (w : Writer) → m w ≡ ok (append (text w.policy) w)

pub Writes-write : (s : String) → Writes (write s) (λ policy. s)
Writes-write s = record { writes = λ w. refl }

pub Writes-seq :
    {m k : Action Writer} {s t : Policy → String}
    → Writes m s
    → Writes k t
    → Writes (m >> k) (λ policy. s policy <> t policy)
Writes-seq {k = k} {s} {t} a b = record {
  writes = λ w.
      ap (λ o. bind o k) (a.writes w)
      ∙ b.writes (append (s w.policy) w)
      ∙ ap ok (append-append (s w.policy) (t w.policy) w);
}

pub Writes-if :
    (b : Bool) {m k : Action Writer} {s t : Policy → String}
    → Writes m s
    → Writes k t
    → Writes (if b then m else k) (λ policy. if b then s policy else t policy)
Writes-if true a c = a
Writes-if false a c = c

pub Writes-when :
    (b : Bool) {m : Action Writer} {s : Policy → String}
    → Writes m s
    → Writes (when b m) (λ policy. if b then s policy else "")
Writes-when true a = record { writes = a.writes }
Writes-when false a = record { writes = λ w. ap ok (sym (append-empty w)) }

pub Writes-write_type :
    (type : QualType) (placeholder : String)
    → Writes (write_type type placeholder) (λ policy. type.printed policy placeholder)
unfolding write_type
Writes-write_type type placeholder = record { writes = λ w. refl }

pub Writes-skip : Writes skip (λ policy. "")
Writes-skip = record { writes = λ w. ap ok (sym (append-empty w)) }

-- the texts of the items, from a position on
abbrev pub concat_from {κ} : {A : Type κ} → ℕ → List A → (ℕ → A → String) → String
concat_from i [] text = ""
concat_from i (x ∷ xs) text = text i x <> concat_from (suc i) xs text

pub Writes-for_each_from {κ} :
    {A : Type κ} (i : ℕ) (xs : List A) {body : ℕ → A → Action Writer}
    {text : Policy → ℕ → A → String}
    → ((j : ℕ) (x : A) → Writes (body j x) (λ policy. text policy j x))
    → Writes (for_each_from i xs body) (λ policy. concat_from i xs (text policy))
Writes-for_each_from i [] h = record { writes = Writes-skip.writes }
Writes-for_each_from i (x ∷ xs) h = record {
  writes = (Writes-seq (h i x) (Writes-for_each_from (suc i) xs h)).writes;
}

-- the texts of the items, in order
abbrev pub concat {κ} : {A : Type κ} → List A → (A → String) → String
concat [] text = ""
concat (x ∷ xs) text = text x <> concat xs text

pub Writes-for_each {κ} :
    {A : Type κ} (xs : List A) {body : A → Action Writer} {text : Policy → A → String}
    → ((x : A) → Writes (body x) (λ policy. text policy x))
    → Writes (for_each xs body) (λ policy. concat xs (text policy))
Writes-for_each [] h = record { writes = Writes-skip.writes }
Writes-for_each (x ∷ xs) h = record { writes = (Writes-seq (h x) (Writes-for_each xs h)).writes }

pub Writes-write_return_type :
    (d : FunctionDecl) → Writes (write_return_type d) (λ policy. d.return_type.printed policy "")
unfolding write_return_type write_type
Writes-write_return_type d = record { writes = λ w. refl }

-- The statement puts this text behind the buffer of this writer.
pub record At (w : Writer) (m : Action Writer) (text : String) : Type 0 where
  pub at : m w ≡ ok (append text w)

pub At-Writes :
    {w : Writer} {m : Action Writer} {text : Policy → String}
    → Writes m text
    → At w m (text w.policy)
At-Writes {w} a = record { at = a.writes w }

pub At-write : (s : String) {w : Writer} → At w (write s) s
At-write s = record { at = refl }

pub At-seq :
    {w : Writer} {m k : Action Writer} {s t : String}
    → At w m s
    → At (append s w) k t
    → At w (m >> k) (s <> t)
At-seq {w} {k = k} {s} {t} a b = record {
  at = ap (λ o. bind o k) a.at ∙ b.at ∙ ap ok (append-append s t w);
}

-- The text holds this part.
abbrev pub Holds : String → String → Type 0
Holds part text = (before : String) × (behind : String) × (text ≡ before <> (part <> behind))

pub Holds-left : (part s t : String) → Holds part s → Holds part (s <> t)
Holds-left part s t (before, behind, e) = (
  before,
  behind <> t,
  ap (λ x. x <> t) e
      ∙ <>_assoc before (part <> behind) t
      ∙ ap (λ x. before <> x) (<>_assoc part behind t),
)

pub Holds-right : (part s t : String) → Holds part t → Holds part (s <> t)
Holds-right part s t (before, behind, e) =
    (s <> before, behind, ap (λ x. s <> x) e ∙ sym (<>_assoc s before (part <> behind)))

pub at_front : (a r t : String) {u : String} → r <> t ≡ u → (a <> r) <> t ≡ a <> u
at_front a r t e = <>_assoc a r t ∙ ap (λ x. a <> x) e

pub Holds-IsLocal : (part : Policy → String) → IsLocal (λ policy text. Holds (part policy) text)
Holds-IsLocal part = record {
  left = λ policy s t h. Holds-left (part policy) s t h;
  right = λ policy s t h. Holds-right (part policy) s t h;
}

-- A policy, where the text does not depend on it.
abbrev any_policy : Policy
any_policy = record {
  suppress_tag_keyword = false;
  bool_keyword = false;
  use_void_for_zero_params = false;
}

-- The texts of the items, put one behind the other, hold the text of each item.
pub concat-Holds {κ} :
    {A : Type κ} (text : A → String) (xs : List A) → All (λ x. Holds (text x) (concat xs text)) xs
concat-Holds text [] = tt
concat-Holds text (x ∷ xs) = (
  ("", concat xs text, sym (nil-append _)),
  (All-IsLocal (λ y policy t. Holds (text y) t) (λ y. Holds-IsLocal (λ policy. text y)) xs).right
      any_policy (text x) (concat xs text) (concat-Holds text xs),
)
