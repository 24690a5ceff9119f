-- ===== src/Trace/Counters/Sums.antt =====
-- What `CalculateComponentValue` of source/trace/src/counters/rgp_spm_database_parse.cpp makes of sums of
-- values.
use radeon_developer_panel.Common.{
  ◌≡◌, ◌≢◌, refl, ap, ◌∙◌, sym, false, List, [], ◌∷◌, ◌++◌, Option, some, ◌>>=◌, Bytes, same_bytes,
  ◌==◌, get_elem?, All, Option-cases, inl, inr,
}
use mathlib.Core.List.{append_assoc, append-nil}
use radeon_developer_panel.Trace.Counters.Formula.{
  formula_tokens, stoull, plus, formula_step, evaluate, calculate_component_value,
}

-- A sum of values, each given by the text of its index.
pub data Sum : Type 0 where
  index : Bytes → Sum
  both : Sum → Sum → Sum

abbrev pub postfix : Sum → List Bytes
postfix (index t) = t ∷ []
postfix (both a b) = postfix a ++ postfix b ++ plus ∷ []

-- With commas between the tokens.
abbrev pub join : List Bytes → Bytes
join [] = []
join (t ∷ []) = t
join (t ∷ u ∷ ts) = t ++ b',' ∷ join (u ∷ ts)

abbrev pub IsToken : Bytes → Type 0
IsToken t = (t ≢ []) × All (λ c. (c == b',') ≡ false) t

abbrev pub IsSum : Sum → Type 0
IsSum (index t) = IsToken t × (same_bytes t plus ≡ false)
IsSum (both a b) = IsSum a × IsSum b

formula_tokens-last : (t : Bytes) → IsToken t → formula_tokens t ≡ t ∷ []
unfolding formula_tokens
formula_tokens-last [] h = absurd (h.0 refl)
formula_tokens-last (c ∷ []) h = rw h.1.0 refl
formula_tokens-last (c ∷ d ∷ t) h = rw (h.1.0, formula_tokens-last (d ∷ t) ((λ e. cc), h.1.1)) refl

formula_tokens-comma :
    (t s : Bytes)
    → All (λ c. (c == b',') ≡ false) t
    → formula_tokens (t ++ b',' ∷ s) ≡ t ∷ formula_tokens s
unfolding formula_tokens
formula_tokens-comma [] s h = refl
formula_tokens-comma (c ∷ t) s h = rw (h.0, formula_tokens-comma t s h.1) refl

formula_tokens-join : (ts : List Bytes) → All IsToken ts → formula_tokens (join ts) ≡ ts
unfolding formula_tokens
formula_tokens-join [] h = refl
formula_tokens-join (t ∷ []) h = formula_tokens-last t h.0
formula_tokens-join (t ∷ u ∷ ts) h =
    formula_tokens-comma t (join (u ∷ ts)) h.0.1
    ∙ ap (λ us. t ∷ us) (formula_tokens-join (u ∷ ts) h.1)

All-append : (ts us : List Bytes) → All IsToken ts → All IsToken us → All IsToken (ts ++ us)
All-append [] us h k = k
All-append (t ∷ ts) us h k = (h.0, All-append ts us h.1 k)

postfix-IsToken : (e : Sum) → IsSum e → All IsToken (postfix e)
postfix-IsToken (index t) h = (h.0, tt)
postfix-IsToken (both a b) h =
    All-append (postfix a ++ postfix b) (plus ∷ [])
      (All-append (postfix a) (postfix b) (postfix-IsToken a h.0) (postfix-IsToken b h.1))
      (((λ e. cc), (refl, tt)), tt)

module _ {D : Type 0} (add : D → D → D) (values : List D) where
  -- The sum, where every index is that of a value. What is on the right comes first in an addition.
  abbrev pub total : Sum → Option D
  total (index t) = stoull t >>= λ i. get_elem? values i
  total (both a b) = total a >>= λ x. total b >>= λ y. some (add y x)

  evaluate-postfix :
      (e : Sum) (rest : List Bytes) (stack : List D) (v : D)
      → IsSum e
      → total e ≡ some v
      → evaluate add values (postfix e ++ rest) stack ≡ evaluate add values rest (v ∷ stack)
  unfolding evaluate formula_step same_bytes
  evaluate-postfix (index t) rest stack v h e = elim (Option-cases (stoull t)) [
    | inl n ↦ cc (rw n at e)
    | inr (i, n) ↦ rw (h.1, n, (rw n at e)) refl
  ]
  evaluate-postfix (both a b) rest stack v h e = elim (Option-cases (total a)) [
    | inl n ↦ cc (rw n at e)
    | inr (x, n) ↦ elim (Option-cases (total b)) [
      | inl m ↦ cc (rw (n, m) at e)
      | inr (y, m) ↦
          ap (λ ts. evaluate add values ts stack)
            (append_assoc (postfix a ++ postfix b) (plus ∷ []) rest
              ∙ append_assoc (postfix a) (postfix b) (plus ∷ rest))
          ∙ evaluate-postfix a (postfix b ++ (plus ∷ rest)) stack x h.0 n
          ∙ evaluate-postfix b (plus ∷ rest) (x ∷ stack) y h.1 m
          ∙ ap (λ w. evaluate add values rest (w ∷ stack)) (cc (rw (n, m) at e))
    ]
  ]

  calculate-single :
      (zero_value : D) (formula : Bytes) (v : D)
      → evaluate add values (formula_tokens formula) [] ≡ some (some (v ∷ []))
      → calculate_component_value add zero_value formula values ≡ some v
  unfolding calculate_component_value formula_tokens evaluate
  calculate-single zero_value [] v h = cc
  calculate-single zero_value (c ∷ s) v h = rw h refl

  -- The formula of a sum of values, with its tokens in postfix, comes to the sum.
  pub calculate_component_value-join :
      (zero_value : D) (e : Sum) (v : D)
      → IsSum e
      → total e ≡ some v
      → calculate_component_value add zero_value (join (postfix e)) values ≡ some v
  unfolding evaluate
  calculate_component_value-join zero_value e v h s =
      calculate-single zero_value (join (postfix e)) v (
        ap (λ ts. evaluate add values ts [])
          (formula_tokens-join (postfix e) (postfix-IsToken e h) ∙ sym (append-nil (postfix e)))
        ∙ evaluate-postfix e [] [] v h s)
