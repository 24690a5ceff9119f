-- ===== src/Api/Context/Asked.antt =====
-- That the driver's features are asked for as the enabled features need them, over any sequence of calls of
-- `EnableFeature` and `DisableFeature` (source/api/capture_context.cpp).
use radeon_developer_panel.Common.{
  refl, inl, inr, List, [], ◌∷◌, has_id, insert_id, erase_id, has_id-count_id, count_id-erase_id, ℕ,
  ◌≡◌, ◌≢◌, ap, true, false, ◌&&◌, ◌||◌, not, Option, none, some, arith, Bool-cases, ◌∙◌,
}
use radeon_developer_panel.Api.Context.Feature
use radeon_developer_panel.Api.Context.Params.{FeatureEnableParams, Adapter, Driver, DriverFeature}
use radeon_developer_panel.Api.Context.Features.{
  Context, find_adapter, enable_adapter, driver_feature, finish_enable, enable_found,
  enable_feature, disable_found, disable_feature, is_locked,
}
use radeon_developer_panel.Api.Context.Exclusive.{
  IsExclusive, Call, enable, disable, clients_changed, call, call_all, call-IsExclusive,
}
use radeon_developer_panel.Api.Context.DriverCalls.{
  is_asked, enable_adapter-is_asked, set_driver_feature-sets, set_driver_feature-keeps,
  set_driver_feature-other, driver_feature-shared, driver_feature-tracing,
  driver_feature-crash_analysis, driver_feature-instrumentation,
}

-- The driver's feature of every enabled feature that needs one is set.
abbrev IsMet : Context → Type 0
IsMet context =
    (f : ℕ) (d : DriverFeature)
    → has_id context.enabled_features f ≡ true
    → driver_feature f ≡ some d
    → is_asked d context.driver_calls ≡ true

abbrev pub IsApart : Context → Type 0
IsApart context =
    (has_id context.enabled_features Feature.profiling
      && has_id context.enabled_features Feature.raytracing)
    ≡ false

finish_enable-IsMet :
    (driver : Driver) (params : FeatureEnableParams) (context : Context) (a : Adapter)
    → IsMet context
    → IsMet
        (finish_enable driver params.feature context
          (enable_adapter driver params a context.driver_calls)).1
unfolding finish_enable insert_id
finish_enable-IsMet driver params context a h g d i n =
    let r = enable_adapter driver params a context.driver_calls in
    let same = enable_adapter-is_asked driver params a context.driver_calls g d n in
    let f = params.feature in
    ground (
      arith,
      h g d,
      n,
      same,
      set_driver_feature-sets driver f d r.2,
      set_driver_feature-keeps driver f d r.2,
      λ (x : f ≡ g). ap driver_feature x,
    )

enable_found-IsMet :
    (driver : Driver) (params : FeatureEnableParams) (context : Context) (o : Option Adapter)
    → IsMet context
    → IsMet (enable_found driver params context o).1
unfolding enable_found
enable_found-IsMet driver params context none h g d i n = h g d i n
enable_found-IsMet driver params context (some a) h g d i n =
    ground (arith, h g d, n, finish_enable-IsMet driver params context a h g d)

has_id-erase_id :
    (f g : ℕ) (gs : List ℕ)
    → IsExclusive gs
    → has_id (erase_id f gs) g ≡ true
    → (has_id gs g ≡ true) × (f ≢ g)
has_id-erase_id f g gs x h =
    let c = count_id-erase_id gs f g in
    let a = has_id-count_id gs g in
    let b = has_id-count_id (erase_id f gs) g in
    let one = (x g).0 in (ground (arith, h, c, a, b), λ e. ground (arith, e, h, c, b, one))

disable_found-IsMet :
    (driver : Driver) (f : ℕ) (context : Context) (o : Option Adapter)
    → IsExclusive context.enabled_features
    → IsApart context
    → IsMet context
    → IsMet (disable_found driver f context o).1
unfolding disable_found
disable_found-IsMet driver f context none x a h g d i n = h g d i n
disable_found-IsMet driver f context (some adapter) x a h g d i n =
    let calls = context.driver_calls in
    elim (Bool-cases (is_locked context || not (has_id context.enabled_features f))) [
      | inl e ↦ rw e (h g d (rw e at i) n)
      | inr e ↦
          let was : has_id context.enabled_features f ≡ true = ground (arith, e) in
          let (k, differs) = has_id-erase_id f g context.enabled_features x (rw e at i) in
          let other =
            set_driver_feature-other driver f d calls
              (λ s. differs (driver_feature-shared context.enabled_features f g d a was k s n)) in
          rw e (other ∙ h g d k n)
    ]

call-IsMet :
    (driver : Driver) (c : Call) (context : Context)
    → IsExclusive context.enabled_features
    → IsApart context
    → IsMet context
    → IsMet (call driver c context)
unfolding enable_feature disable_feature enable_found
call-IsMet driver (enable none) context x a h = h
call-IsMet driver (enable (some params)) context x a h =
    enable_found-IsMet driver params context (find_adapter context.adapters params.feature) h
call-IsMet driver (disable f) context x a h =
    disable_found-IsMet driver f context (find_adapter context.adapters f) x a h
call-IsMet driver (clients_changed m) context x a h = h

-- Profiling and raytracing are at no time enabled together.
abbrev pub StaysApart : Driver → List Call → Context → Type 0
StaysApart driver [] context = IsApart context
StaysApart driver (c ∷ cs) context = IsApart context × StaysApart driver cs (call driver c context)

run-IsMet :
    (driver : Driver) (cs : List Call) (context : Context)
    → IsExclusive context.enabled_features
    → StaysApart driver cs context
    → IsMet context
    → IsMet (call_all driver cs context)
run-IsMet driver [] context x a h = h
run-IsMet driver (c ∷ cs) context x a h =
    run-IsMet driver cs (call driver c context) (call-IsExclusive driver c context x) a.1
      (call-IsMet driver c context x a.0 h)

-- While profiling or raytracing is enabled, the last call of the driver for its tracing asked to enable it, and
-- while crash analysis is enabled, so did the last call for the driver's crash analysis.
abbrev pub IsAsked : Context → Type 0
IsAsked context =
    (has_id context.enabled_features Feature.profiling ≡ true
      → is_asked DriverFeature.tracing context.driver_calls ≡ true)
    × (has_id context.enabled_features Feature.raytracing ≡ true
        → is_asked DriverFeature.tracing context.driver_calls ≡ true)
    × (has_id context.enabled_features Feature.crash_analysis ≡ true
        → is_asked DriverFeature.crash_analysis context.driver_calls ≡ true)

IsAsked→IsMet : (context : Context) → IsAsked context → IsMet context
IsAsked→IsMet context h f DriverFeature.tracing i n = elim (driver_feature-tracing f n) [
  | inl e ↦ h.0 (rw e at i)
  | inr e ↦ h.1 (rw e at i)
]
IsAsked→IsMet context h f DriverFeature.crash_analysis i n =
    h.2 (rw (driver_feature-crash_analysis f n) at i)
IsAsked→IsMet context h f DriverFeature.shader_instrumentation i n =
    absurd (driver_feature-instrumentation f n)

IsMet→IsAsked : (context : Context) → IsMet context → IsAsked context
unfolding driver_feature
IsMet→IsAsked context h = (
  (λ i. h Feature.profiling DriverFeature.tracing i refl),
  (λ i. h Feature.raytracing DriverFeature.tracing i refl),
  (λ i. h Feature.crash_analysis DriverFeature.crash_analysis i refl),
)

-- Over any sequence of calls, whatever the driver answers and the clients do: if profiling and raytracing,
-- which share a feature of the driver, are never enabled together, and no feature is listed twice and crash
-- analysis is enabled alone before, then after the calls the driver's tracing was last asked for while
-- profiling or raytracing is enabled, and its crash analysis while crash analysis is, if this was so before.
pub call_all-IsAsked :
    (driver : Driver) (cs : List Call) (context : Context)
    → IsExclusive context.enabled_features
    → StaysApart driver cs context
    → IsAsked context
    → IsAsked (call_all driver cs context)
call_all-IsAsked driver cs context x a h =
    IsMet→IsAsked (call_all driver cs context)
      (run-IsMet driver cs context x a (IsAsked→IsMet context h))
