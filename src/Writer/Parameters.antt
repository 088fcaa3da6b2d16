-- ===== src/Writer/Parameters.antt =====
-- `writeFunctionParameterList` of output/OutputWriter.cpp always succeeds, though it looks back at
-- the last character of the buffer.
use Prim.Native.Char.{code}
use text.Mathlib.TextLemmas.{cons-append, nil-append}
use ccmock.Base.{
  ℕ, suc, String, Bool, true, false, not, ◌&&◌, ◌==◌, some, List, [], ◌∷◌, ◌≡◌, refl, ap, ◌∙◌,
  arith, inl, inr, Bool-cases, if◌then◌else◌, ◌<>◌, is_empty, is_empty-append, back?, Action, ok,
  bind, ◌>>◌, when, for_each_from,
}
use ccmock.Ast.{FunctionDecl, ParmVarDecl}
use ccmock.Writer.{
  Writer, append, write, write_var_decl, pad, points_to_function, write_unnamed_parameter,
  write_parameter, write_function_parameter_list,
}
use ccmock.Writer.Appends.{
  Appends, appends, Appends-skip, Appends-write_type, append-append, append-empty,
}

-- As far as there is something in the buffer.
pub record AppendsBehind (m : Action Writer) : Type 0 where
  pub runs_behind :
      (w : Writer) → is_empty w.buffer ≡ false → (s : String) × (m w ≡ ok (append s w))

Behind-Appends : {m : Action Writer} → Appends m → AppendsBehind m
Behind-Appends a = record { runs_behind = λ w h. a.runs w }

Behind-seq : {m k : Action Writer} → AppendsBehind m → AppendsBehind k → AppendsBehind (m >> k)
Behind-seq {m} {k} a b = record {
  runs_behind = λ w h.
      let (s, e) = a.runs_behind w h in
      let (t, f) = b.runs_behind (append s w) (is_empty-append w.buffer s h) in
      (s <> t, ap (λ o. bind o k) e ∙ f ∙ ap ok (append-append s t w));
}

Behind-if :
    (b : Bool) {m k : Action Writer}
    → AppendsBehind m
    → AppendsBehind k
    → AppendsBehind (if b then m else k)
Behind-if true a c = a
Behind-if false a c = c

-- Behind a text that is not empty, all that needs some text in the buffer succeeds.
Appends-behind :
    (s : String) {m : Action Writer} → is_empty s ≡ false → AppendsBehind m → Appends (write s >> m)
Appends-behind s {m} h a = record {
  runs = λ w.
      let (t, f) = a.runs_behind (append s w) (is_empty-prepend w.buffer) in
      (s <> t, f ∙ ap ok (append-append s t w));
}
  where
    is_empty-prepend : (b : String) → is_empty (b <> s) ≡ false
    is_empty-prepend String.[] = ap is_empty (nil-append s) ∙ h
    is_empty-prepend (String.◌∷◌ c b) = ap is_empty (cons-append c b s)

pub back?-some : (s : String) → is_empty s ≡ false → (c : ℕ) × (back? s ≡ some c)
unfolding back?
back?-some String.[] h = absurd (ground arith)
back?-some (String.◌∷◌ c String.[]) h = (code c, refl)
back?-some (String.◌∷◌ c (String.◌∷◌ d s)) h = back?-some (String.◌∷◌ d s) refl

Behind-pad : AppendsBehind pad
unfolding pad
Behind-pad = record {
  runs_behind = λ w h.
      let (c, e) = back?-some w.buffer h in
      elim (Bool-cases (not (c == b'&') && not (c == b'*'))) [
        | inl spaced ↦ (" ", ground (arith, e))
        | inr tight ↦ ("", ground (arith, e, append-empty w))
      ];
}

Behind-for_each_from {κ} :
    {A : Type κ} (i : ℕ) (xs : List A) {body : ℕ → A → Action Writer}
    → ((j : ℕ) (x : A) → AppendsBehind (body j x))
    → AppendsBehind (for_each_from i xs body)
Behind-for_each_from i [] h = record { runs_behind = λ w k. Appends-skip.runs w }
Behind-for_each_from i (x ∷ xs) h = record {
  runs_behind = (Behind-seq (h i x) (Behind-for_each_from (suc i) xs h)).runs_behind;
}

Behind-write_parameter :
    (parameter_names : Bool) (i : ℕ) (p : ParmVarDecl)
    → AppendsBehind (write_parameter parameter_names i p)
unfolding write_parameter write_unnamed_parameter write_var_decl
Behind-write_parameter parameter_names i p = Behind-seq (Behind-Appends (search appends)) (
    Behind-if (not parameter_names) (Behind-Appends (Appends-write_type p.type "")) (
      Behind-if (not (is_empty p.name)) (Behind-Appends (search appends)) (
        Behind-if (not (points_to_function p.type))
          (Behind-seq (Behind-Appends (Appends-write_type p.type ""))
            (Behind-seq Behind-pad (Behind-Appends (search appends))))
          (Behind-Appends (search appends)))))

-- The parameter list always succeeds: its opening parenthesis is what an unnamed parameter's
-- padding looks back at, should the type print as nothing.
pub Appends-write_function_parameter_list :
    (d : FunctionDecl) (parameter_names var_arg_list : Bool)
    → Appends (write_function_parameter_list d parameter_names var_arg_list)
unfolding write_function_parameter_list
Appends-write_function_parameter_list d parameter_names var_arg_list = go d.parameters refl
  where
    go :
        (ps : List ParmVarDecl)
        → d.parameters ≡ ps
        → Appends (write_function_parameter_list d parameter_names var_arg_list)
    go [] e = record {
      runs = λ w. elim (Bool-cases w.policy.use_void_for_zero_params) [
        | inl void' ↦ ("(void)", ground (arith, e))
        | inr plain ↦ ("()", ground (arith, e))
      ];
    }
    go (p ∷ ps) e = record {
      runs = λ w. let (s, h) = (all ps p).runs w in (s, rw (write_function_parameter_list, e) h);
    }
      where
        all :
            (qs : List ParmVarDecl) (q : ParmVarDecl)
            → Appends (do
              write "("
              for_each_from 0 (q ∷ qs) (write_parameter parameter_names)
              when d.is_variadic (if var_arg_list then write ", va_list" else write ", ...")
              write ")")
        all qs q = Appends-behind "(" refl (
            Behind-seq (Behind-for_each_from 0 (q ∷ qs) (Behind-write_parameter parameter_names))
              (Behind-Appends (search appends)))
