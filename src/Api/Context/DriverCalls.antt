-- ===== src/Api/Context/DriverCalls.antt =====
-- What the calls of `SetFeature` that source/api/capture_context.cpp makes ask for.
use radeon_developer_panel.Common.{
  has_id, ℕ, ◌≡◌, ◌≢◌, ◌⊎◌, refl, ap, Bool, true, false, ◌&&◌, List, [], ◌∷◌, some, arith,
  if◌then◌else◌, inl, inr, Bool-cases, Option-cases, ◌==◌, ==_iff, sym, ◌∙◌,
}
use radeon_developer_panel.Api.Context.Feature
use radeon_developer_panel.Api.Context.Params.{
  FeatureEnableParams, Adapter, Driver, DriverFeature, SetFeature,
}
use radeon_developer_panel.Api.Context.Adapter.{configure_rgp, configure_rgd, configure_rra}
use radeon_developer_panel.Api.Context.Features.{enable_adapter, driver_feature, set_driver_feature}

abbrev same_driver_feature : DriverFeature → DriverFeature → Bool
same_driver_feature DriverFeature.tracing DriverFeature.tracing = true
same_driver_feature DriverFeature.crash_analysis DriverFeature.crash_analysis = true
same_driver_feature DriverFeature.shader_instrumentation DriverFeature.shader_instrumentation = true
same_driver_feature _ _ = false

-- What the last call for a feature of the driver asked for; the last call stands first.
abbrev pub is_asked : DriverFeature → List SetFeature → Bool
is_asked d [] = false
is_asked d (c ∷ calls) = if same_driver_feature c.feature d then c.is_enable else is_asked d calls

same_refl : (d : DriverFeature) → same_driver_feature d d ≡ true
same_refl DriverFeature.tracing = refl
same_refl DriverFeature.crash_analysis = refl
same_refl DriverFeature.shader_instrumentation = refl

same→eq : (c d : DriverFeature) → same_driver_feature c d ≡ true → c ≡ d
same→eq DriverFeature.tracing DriverFeature.tracing h = refl
same→eq DriverFeature.crash_analysis DriverFeature.crash_analysis h = refl
same→eq DriverFeature.shader_instrumentation DriverFeature.shader_instrumentation h = refl
same→eq DriverFeature.tracing DriverFeature.crash_analysis h = cc
same→eq DriverFeature.tracing DriverFeature.shader_instrumentation h = cc
same→eq DriverFeature.crash_analysis DriverFeature.tracing h = cc
same→eq DriverFeature.crash_analysis DriverFeature.shader_instrumentation h = cc
same→eq DriverFeature.shader_instrumentation DriverFeature.tracing h = cc
same→eq DriverFeature.shader_instrumentation DriverFeature.crash_analysis h = cc

pub enable_adapter-is_asked :
    (driver : Driver) (params : FeatureEnableParams) (a : Adapter) (calls : List SetFeature) (f : ℕ)
    (d : DriverFeature)
    → driver_feature f ≡ some d
    → is_asked d (enable_adapter driver params a calls).2 ≡ is_asked d calls
unfolding enable_adapter configure_rgp configure_rgd configure_rra driver_feature
enable_adapter-is_asked driver params a calls f DriverFeature.tracing h = ground arith
enable_adapter-is_asked driver params a calls f DriverFeature.crash_analysis h = ground arith
enable_adapter-is_asked driver params a calls f DriverFeature.shader_instrumentation h =
    ground arith

pub set_driver_feature-sets :
    (driver : Driver) (f : ℕ) (d : DriverFeature) (calls : List SetFeature)
    → driver_feature f ≡ some d
    → (set_driver_feature driver true f calls).0 ≡ true
    → is_asked d (set_driver_feature driver true f calls).1 ≡ true
unfolding set_driver_feature
set_driver_feature-sets driver f d calls h s = elim (Bool-cases driver.has_utils) [
  | inl u ↦ rw (u, h, same_refl d) refl
  | inr u ↦ cc (rw u at s)
]

pub set_driver_feature-keeps :
    (driver : Driver) (f : ℕ) (d : DriverFeature) (calls : List SetFeature)
    → is_asked d calls ≡ true
    → is_asked d (set_driver_feature driver true f calls).1 ≡ true
unfolding set_driver_feature
set_driver_feature-keeps driver f d calls h = elim (Bool-cases driver.has_utils) [
  | inr u ↦ rw u h
  | inl u ↦ elim (Option-cases (driver_feature f)) [
    | inl n ↦ rw (u, n) h
    | inr (e, n) ↦ elim (Bool-cases (same_driver_feature e d)) [
      | inl s ↦ rw (u, n, s) refl
      | inr s ↦ rw (u, n, s) h
    ]
  ]
]

pub set_driver_feature-other :
    (driver : Driver) (f : ℕ) (d : DriverFeature) (calls : List SetFeature)
    → driver_feature f ≢ some d
    → is_asked d (set_driver_feature driver false f calls).1 ≡ is_asked d calls
unfolding set_driver_feature
set_driver_feature-other driver f d calls h = elim (Bool-cases driver.has_utils) [
  | inr u ↦ rw u refl
  | inl u ↦ elim (Option-cases (driver_feature f)) [
    | inl n ↦ rw (u, n) refl
    | inr (e, n) ↦ elim (Bool-cases (same_driver_feature e d)) [
      | inl s ↦ absurd (h (n ∙ ap (λ x. some x) (same→eq e d s)))
      | inr s ↦ rw (u, n, s) refl
    ]
  ]
]

pub driver_feature-tracing :
    (f : ℕ)
    → driver_feature f ≡ some DriverFeature.tracing
    → (f ≡ Feature.profiling) ⊎ (f ≡ Feature.raytracing)
unfolding driver_feature
driver_feature-tracing f h = elim (Bool-cases (f == 1)) [
  | inl e ↦ inl ((==_iff f 1).0 e)
  | inr e ↦ elim (Bool-cases (f == 3)) [
    | inl k ↦ inr ((==_iff f 3).0 k)
    | inr k ↦ elim (Bool-cases (f == 4)) [
      | inl l ↦ cc (rw (e, k, l) at h)
      | inr l ↦ cc (rw (e, k, l) at h)
    ]
  ]
]

pub driver_feature-crash_analysis :
    (f : ℕ) → driver_feature f ≡ some DriverFeature.crash_analysis → f ≡ Feature.crash_analysis
unfolding driver_feature
driver_feature-crash_analysis f h = ground arith

pub driver_feature-instrumentation :
    (f : ℕ) → driver_feature f ≢ some DriverFeature.shader_instrumentation
unfolding driver_feature
driver_feature-instrumentation f h = ground arith

pub driver_feature-shared :
    (gs : List ℕ) (f g : ℕ) (d : DriverFeature)
    → (has_id gs Feature.profiling && has_id gs Feature.raytracing) ≡ false
    → has_id gs f ≡ true
    → has_id gs g ≡ true
    → driver_feature f ≡ some d
    → driver_feature g ≡ some d
    → f ≡ g
driver_feature-shared gs f g DriverFeature.tracing a h k e x = elim (driver_feature-tracing f e) [
  | inl p ↦ elim (driver_feature-tracing g x) [
    | inl q ↦ p ∙ sym q
    | inr q ↦ cc (rw (rw p at h, rw q at k) at a)
  ]
  | inr p ↦ elim (driver_feature-tracing g x) [
    | inl q ↦ cc (rw (rw q at k, rw p at h) at a)
    | inr q ↦ p ∙ sym q
  ]
]
driver_feature-shared gs f g DriverFeature.crash_analysis a h k e x =
    driver_feature-crash_analysis f e ∙ sym (driver_feature-crash_analysis g x)
driver_feature-shared gs f g DriverFeature.shader_instrumentation a h k e x =
    absurd (driver_feature-instrumentation f e)
