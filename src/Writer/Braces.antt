-- ===== src/Writer/Braces.antt =====
-- output/OutputWriter.hpp: statements by the braces that they open and close.
use Prim.Native.Char.{code}
use text.Mathlib.TextLemmas.{cons-append, nil-append}
use ccmock.Base.{
  ℕ, zero, suc, String, ◌==◌, Option, none, some, ◌≡◌, refl, sym, ap, ◌∙◌, if◌then◌else◌, ◌<>◌,
  spaces, Action, ok, bind, ◌>>◌, skip,
}
use ccmock.Writer.{Writer, append, write, indent}
use ccmock.Writer.Appends.{append-append, append-empty}

-- The depth behind a character; `none` where a brace closes that was not opened.
abbrev depth_step : ℕ → ℕ → Option ℕ
depth_step c n =
    if c == b'{'
    then some (suc n)
    else if c == b'}'
    then elim n [ zero ↦ none | suc m ↦ some m ]
    else some n

abbrev onwards : Option ℕ → (ℕ → Option ℕ) → Option ℕ
onwards none f = none
onwards (some n) f = f n

-- How many braces are open behind the text, if `n` are open before it.
unfoldable pub depth_behind : String → ℕ → Option ℕ
depth_behind String.[] n = some n
depth_behind (String.◌∷◌ c s) n = onwards (depth_step (code c) n) (depth_behind s)

-- The text leads from each depth `f n` to the depth `g n`.
abbrev pub Moves : (ℕ → ℕ) → (ℕ → ℕ) → String → Type 0
Moves f g s = (n : ℕ) → depth_behind s (f n) ≡ some (g n)

abbrev pub level : ℕ → ℕ
level n = n

-- Each brace that the text opens is closed in it, and none besides.
abbrev pub IsBalanced : String → Type 0
IsBalanced = Moves level level

onwards-append :
    (s t : String) (o : Option ℕ) {m : ℕ}
    → ((n : ℕ) → depth_behind s n ≡ some m → depth_behind (s <> t) n ≡ depth_behind t m)
    → onwards o (depth_behind s) ≡ some m
    → onwards o (depth_behind (s <> t)) ≡ depth_behind t m
onwards-append s t none h e = cc
onwards-append s t (some n) h e = h n e

depth_behind-append :
    (s t : String) (n : ℕ) {m : ℕ}
    → depth_behind s n ≡ some m
    → depth_behind (s <> t) n ≡ depth_behind t m
unfolding depth_behind
depth_behind-append String.[] t n {m} h =
    let e : n ≡ m = cc in ap (λ x. depth_behind x n) (nil-append t) ∙ ap (depth_behind t) e
depth_behind-append (String.◌∷◌ c s) t n {m} h =
    ap (λ x. depth_behind x n) (cons-append c s t)
    ∙ onwards-append s t (depth_step (code c) n) (λ k e. depth_behind-append s t k e) h

pub Moves-append : (f g h : ℕ → ℕ) (s t : String) → Moves f g s → Moves g h t → Moves f h (s <> t)
Moves-append f g h s t a b n = depth_behind-append s t (f n) (a n) ∙ b n

pub Moves-spaces : (f : ℕ → ℕ) (n : ℕ) → Moves f f (spaces n)
unfolding spaces depth_behind
Moves-spaces f zero m = refl
Moves-spaces f (suc n) m = depth_behind-append " " (spaces n) (f m) refl ∙ Moves-spaces f n m

-- The statement succeeds, and does nothing but put such a text behind the buffer.
pub record Puts (f g : ℕ → ℕ) (m : Action Writer) : Type 0 where
  pub puts : (w : Writer) → (s : String) × (m w ≡ ok (append s w)) × Moves f g s

pub Puts-write : (f g : ℕ → ℕ) (s : String) → Moves f g s → Puts f g (write s)
Puts-write f g s h = record { puts = λ w. (s, refl, h) }

pub Puts-skip : (f : ℕ → ℕ) → Puts f f skip
unfolding depth_behind
Puts-skip f = record { puts = λ w. ("", ap ok (sym (append-empty w)), λ n. refl) }

pub Puts-indent : (f : ℕ → ℕ) (n : ℕ) → Puts f f (indent n)
Puts-indent f n = Puts-write f f (spaces n) (Moves-spaces f n)

pub Puts-seq : {f g h : ℕ → ℕ} {m k : Action Writer} → Puts f g m → Puts g h k → Puts f h (m >> k)
Puts-seq {f} {g} {h} {m} {k} a b = record {
  puts = λ w.
      let (s, e, i) = a.puts w in
      let (t, l, j) = b.puts (append s w) in
      (s <> t, ap (λ o. bind o k) e ∙ l ∙ ap ok (append-append s t w), Moves-append f g h s t i j);
}
