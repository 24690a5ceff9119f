-- ===== src/Trace/Examples/Counters.antt =====
-- The theorems on source/trace/src/counters/rgp_spm_database_parse.cpp at concrete inputs.
use radeon_developer_panel.Common.{ℕ, ◌+◌, ◌≡◌, refl, [], ◌∷◌, some, codes, same_bytes}
use radeon_developer_panel.Trace.Counters.Formula.{
  formula_tokens, stoull, formula_step, calculate_component_value,
}
use radeon_developer_panel.Trace.Counters.Sums.{
  Sum, index, both, postfix, join, calculate_component_value-join,
}

abbrev sum_of : ℕ → ℕ → ℕ
sum_of a b = a + b

-- `0,2,+,1,+`
abbrev some_sum : Sum
some_sum = both (both (index (codes "0")) (index (codes "2"))) (index (codes "1"))

calculate_component_value-join_example :
    calculate_component_value sum_of 0 (join (postfix some_sum)) (20 ∷ 30 ∷ 40 ∷ []) ≡ some 90
unfolding stoull same_bytes
calculate_component_value-join_example =
    calculate_component_value-join sum_of (20 ∷ 30 ∷ 40 ∷ []) 0 some_sum 90
      (
        ((((λ e. cc), (refl, tt)), refl), (((λ e. cc), (refl, tt)), refl)),
        (((λ e. cc), (refl, tt)), refl),
      )
      refl

text_of_sum :
    calculate_component_value sum_of 0 (codes " 1x,+7,+") (1 ∷ 2 ∷ 3 ∷ 4 ∷ 5 ∷ 6 ∷ 7 ∷ 8 ∷ [])
    ≡ some 10
unfolding calculate_component_value formula_tokens stoull formula_step same_bytes
text_of_sum = refl
