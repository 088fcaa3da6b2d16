-- ===== src/Writer/Gaps.antt =====
-- `writeFunctionParameterList` of output/OutputWriter.cpp: the gap between a type and the name that
-- is put behind it.
use Prim.Native.Char.{Char}
use text.Mathlib.TextLemmas.{cons-append, nil-append}
use ccmock.Base.{
  String, Bool, false, ◌||◌, none, some, ◌==◌, inl, inr, Bool-cases, ◌≡◌, refl, ap, ◌∙◌, ◌<>◌,
  <>-empty, back?, sym, is_empty, is_empty-append, if◌then◌else◌, arith, ok,
}
use ccmock.Writer.{Writer, append, pad}
use ccmock.Writer.Appends.{append-empty}
use ccmock.Writer.Parameters.{back?-some}

-- The gap between a type and the name behind it: none if the text ends with `&` or `*`.
abbrev is_tight : String → Bool
is_tight s = elim (back? s) [ none ↦ false | some c ↦ c == b'&' || c == b'*' ]

abbrev pub gap_behind : String → String
gap_behind printed' = if is_tight printed' then "" else " "

-- A buffer behind which a parameter is written: it ends with a parenthesis or a separator.
pub record IsOpen (w : Writer) : Type 0 where
  pub filled : is_empty w.buffer ≡ false
  pub loose : is_tight w.buffer ≡ false

back?-append : (c : Char) (s b : String) → back? (b <> String.◌∷◌ c s) ≡ back? (String.◌∷◌ c s)
unfolding back?
back?-append c s String.[] = ap back? (nil-append (String.◌∷◌ c s))
back?-append c s (String.◌∷◌ d String.[]) =
    ap back? (cons-append d "" (String.◌∷◌ c s) ∙ ap (String.◌∷◌ d) (nil-append (String.◌∷◌ c s)))
back?-append c s (String.◌∷◌ d (String.◌∷◌ e b)) =
    ap back? (
      cons-append d (String.◌∷◌ e b) (String.◌∷◌ c s)
      ∙ ap (String.◌∷◌ d) (cons-append e b (String.◌∷◌ c s)))
    ∙ sym (ap back? (cons-append e b (String.◌∷◌ c s)))
    ∙ back?-append c s (String.◌∷◌ e b)

IsOpen-append :
    (s : String) (w : Writer) → is_empty s ≡ false → is_tight s ≡ false → IsOpen (append s w)
IsOpen-append String.[] w h tight = absurd (ground arith)
IsOpen-append (String.◌∷◌ c s) w h loose = record {
  filled = filled w.buffer;
  loose = rw (is_tight, back?-append c s w.buffer) loose;
}
  where
    filled : (b : String) → is_empty (b <> String.◌∷◌ c s) ≡ false
    filled String.[] = ap is_empty (nil-append (String.◌∷◌ c s))
    filled (String.◌∷◌ d b) = ap is_empty (cons-append d b (String.◌∷◌ c s))

pub IsOpen-parenthesis : (w : Writer) → IsOpen (append "(" w)
unfolding back?
IsOpen-parenthesis w = IsOpen-append "(" w refl refl

pub IsOpen-separator : (w : Writer) → IsOpen (append ", " w)
unfolding back?
IsOpen-separator w = IsOpen-append ", " w refl refl

-- Behind such a buffer, the gap depends on the printed type alone.
is_tight-append : (s : String) (w : Writer) → IsOpen w → is_tight (w.buffer <> s) ≡ is_tight s
unfolding back?
is_tight-append String.[] w open' = ap is_tight (<>-empty w.buffer) ∙ open'.loose
is_tight-append (String.◌∷◌ c s) w open' =
    ap (λ o. elim o [ none ↦ false | some c ↦ c == b'&' || c == b'*' ]) (back?-append c s w.buffer)

pad_lem : (w : Writer) → is_empty w.buffer ≡ false → pad w ≡ ok (append (gap_behind w.buffer) w)
unfolding pad
pad_lem w h =
    let (c, e) = back?-some w.buffer h in
    elim (Bool-cases (c == b'&')) [
      | inl and ↦ rw (pad, is_tight, e, and) (ap ok (sym (append-empty w)))
      | inr other ↦ elim (Bool-cases (c == b'*')) [
        | inl star ↦ rw (pad, is_tight, e, other, star) (ap ok (sym (append-empty w)))
        | inr plain ↦ rw (pad, is_tight, e, other, plain) refl
      ]
    ]

pub pad_printed :
    (s : String) (w : Writer)
    → IsOpen w
    → pad (append s w) ≡ ok (append (gap_behind s) (append s w))
pad_printed s w open' =
    pad_lem (append s w) (is_empty-append w.buffer s open'.filled)
    ∙ ap (λ b. ok (append (if b then "" else " ") (append s w))) (is_tight-append s w open')
