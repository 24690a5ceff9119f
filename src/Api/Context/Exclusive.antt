-- ===== src/Api/Context/Exclusive.antt =====
-- What any sequence of calls of `EnableFeature` and `DisableFeature` (source/api/capture_context.cpp)
-- keeps: crash analysis is enabled alone, and an enabled feature's adapter is enabled.
use radeon_developer_panel.Common.{
  has_id, insert_id, erase_id, count_id, has_id-count_id, count_id-erase_id, ℕ, ◌≤◌, ◌≡◌, true,
  false, List, [], ◌∷◌, Option, none, some, arith,
}
use radeon_developer_panel.Api.Client.Manager.{ClientManager}
use radeon_developer_panel.Api.Context.Feature
use radeon_developer_panel.Api.Context.Params.{FeatureEnableParams, Adapter, Driver}
use radeon_developer_panel.Api.Context.Adapter.{Configured}
use radeon_developer_panel.Api.Context.Features.{
  Context, find_adapter, enable_adapter, finish_enable, enable_found, enable_feature, disable_found,
  disable_feature, is_incompatible,
}

pub data Call : Type 0 where
  enable : Option FeatureEnableParams → Call
  disable : ℕ → Call
  clients_changed : ClientManager → Call

abbrev pub call : Driver → Call → Context → Context
call driver (enable params) context = (enable_feature driver params context).1
call driver (disable feature) context = (disable_feature driver feature context).1
call driver (clients_changed m) context = record context { client_manager = m }

abbrev pub call_all : Driver → List Call → Context → Context
call_all driver [] context = context
call_all driver (c ∷ cs) context = call_all driver cs (call driver c context)

-- No feature is listed twice, and crash analysis stands alone.
abbrev pub IsExclusive : List ℕ → Type 0
IsExclusive gs =
    (f : ℕ)
    → (count_id gs f ≤ 1)
      × (has_id gs Feature.crash_analysis ≡ true → has_id gs f ≡ true → f ≡ Feature.crash_analysis)

erase_id-IsExclusive : (g : ℕ) (gs : List ℕ) → IsExclusive gs → IsExclusive (erase_id g gs)
erase_id-IsExclusive g gs h f =
    let c = Feature.crash_analysis in
    ground (
      arith,
      (h f).0,
      (h f).1,
      (h c).0,
      count_id-erase_id gs g f,
      count_id-erase_id gs g c,
      has_id-count_id gs f,
      has_id-count_id gs c,
      has_id-count_id (erase_id g gs) f,
      has_id-count_id (erase_id g gs) c,
    )

insert_id-IsExclusive :
    (g : ℕ) (gs : List ℕ)
    → has_id gs g ≡ false
    → is_incompatible g gs ≡ false
    → IsExclusive gs
    → IsExclusive (insert_id g gs)
unfolding insert_id is_incompatible
insert_id-IsExclusive g [] e k h f = ground arith
insert_id-IsExclusive g (x ∷ gs) e k h f =
    ground (arith, (h f).0, has_id-count_id (x ∷ gs) g, has_id-count_id (x ∷ gs) f)

finish_enable-IsExclusive :
    (driver : Driver) (f : ℕ) (context : Context) (r : Configured)
    → has_id context.enabled_features f ≡ false
    → is_incompatible f context.enabled_features ≡ false
    → IsExclusive context.enabled_features
    → IsExclusive (finish_enable driver f context r).1.enabled_features
unfolding finish_enable
finish_enable-IsExclusive driver f context r e k h g =
    ground (arith, h g, insert_id-IsExclusive f context.enabled_features e k h g)

enable_found-IsExclusive :
    (driver : Driver) (params : FeatureEnableParams) (context : Context) (o : Option Adapter)
    → IsExclusive context.enabled_features
    → IsExclusive (enable_found driver params context o).1.enabled_features
unfolding enable_found
enable_found-IsExclusive driver params context none h g = h g
enable_found-IsExclusive driver params context (some a) h g =
    let r = enable_adapter driver params a context.driver_calls in
    let gs = context.enabled_features in
    ground (
      arith,
      h g,
      λ (e : has_id gs params.feature ≡ false) (k : is_incompatible params.feature gs ≡ false).
          finish_enable-IsExclusive driver params.feature context r e k h g,
    )

disable_found-IsExclusive :
    (driver : Driver) (f : ℕ) (context : Context) (o : Option Adapter)
    → IsExclusive context.enabled_features
    → IsExclusive (disable_found driver f context o).1.enabled_features
unfolding disable_found
disable_found-IsExclusive driver f context none h g = h g
disable_found-IsExclusive driver f context (some a) h g =
    ground (arith, h g, erase_id-IsExclusive f context.enabled_features h g)

pub call-IsExclusive :
    (driver : Driver) (c : Call) (context : Context)
    → IsExclusive context.enabled_features
    → IsExclusive (call driver c context).enabled_features
unfolding enable_feature disable_feature
call-IsExclusive driver (enable none) context h = h
call-IsExclusive driver (enable (some params)) context h =
    enable_found-IsExclusive driver params context (find_adapter context.adapters params.feature) h
call-IsExclusive driver (disable f) context h =
    disable_found-IsExclusive driver f context (find_adapter context.adapters f) h
call-IsExclusive driver (clients_changed m) context h = h

-- Over any sequence of calls, whatever the driver answers and the clients do: if no feature is
-- listed twice and crash analysis is enabled alone before, the same holds after.
pub call_all-IsExclusive :
    (driver : Driver) (cs : List Call) (context : Context)
    → IsExclusive context.enabled_features
    → IsExclusive (call_all driver cs context).enabled_features
call_all-IsExclusive driver [] context h = h
call_all-IsExclusive driver (c ∷ cs) context h =
    call_all-IsExclusive driver cs (call driver c context) (call-IsExclusive driver c context h)
