-- ===== src/Api/Context/Live.antt =====
-- The adapter of every enabled feature is enabled, over any sequence of calls of `EnableFeature` and
-- `DisableFeature` (source/api/capture_context.cpp).
use radeon_developer_panel.Common.{
  has_id, insert_id, erase_id, has_id-count_id, count_id-erase_id, ℕ, ◌≡◌, refl, ap, true, false,
  List, [], ◌∷◌, Option, none, some, arith,
}
use radeon_developer_panel.Api.Context.Params.{FeatureEnableParams, Adapter, Driver}
use radeon_developer_panel.Api.Context.Adapter.{Configured}
use radeon_developer_panel.Api.Context.Features.{
  Context, find_adapter, set_enabled, enable_adapter, finish_enable, enable_found, enable_feature,
  disable_found, disable_feature,
}
use radeon_developer_panel.Api.Context.Exclusive.{
  IsExclusive, Call, enable, disable, clients_changed, call, call_all, call-IsExclusive,
}
use radeon_developer_panel.Api.Context.Rollback.{
  is_live, is_live-put_adapter, enable_adapter-is_enabled,
}

-- Every enabled feature has an adapter that is enabled.
abbrev pub IsLive : Context → Type 0
IsLive context =
    (f : ℕ) → has_id context.enabled_features f ≡ true → is_live context.adapters f ≡ true

finish_enable-IsLive :
    (driver : Driver) (f : ℕ) (context : Context) (old : Adapter) (r : Configured)
    → find_adapter context.adapters f ≡ some old
    → has_id context.enabled_features f ≡ false
    → r.1.is_enabled ≡ true
    → IsLive context
    → IsLive (finish_enable driver f context r).1
unfolding finish_enable set_enabled insert_id
finish_enable-IsLive driver f context old r e k l h g i =
    let same : f ≡ g → has_id context.enabled_features f ≡ has_id context.enabled_features g =
      λ x. ap (has_id context.enabled_features) x in
    ground (
      arith,
      h g,
      same,
      is_live-put_adapter context.adapters f g r.1 old e,
      is_live-put_adapter context.adapters f g (set_enabled false r.1) old e,
    )

enable_found-IsLive :
    (driver : Driver) (params : FeatureEnableParams) (context : Context) (o : Option Adapter)
    → find_adapter context.adapters params.feature ≡ o
    → IsLive context
    → IsLive (enable_found driver params context o).1
unfolding enable_found
enable_found-IsLive driver params context none e h g i = h g i
enable_found-IsLive driver params context (some a) e h g i =
    let r = enable_adapter driver params a context.driver_calls in
    ground (
      arith,
      h g,
      λ (k : has_id context.enabled_features params.feature ≡ false).
          finish_enable-IsLive driver params.feature context a r e k
            (enable_adapter-is_enabled driver params a context.driver_calls) h g,
    )

disable_found-IsLive :
    (driver : Driver) (f : ℕ) (context : Context) (o : Option Adapter)
    → find_adapter context.adapters f ≡ o
    → IsExclusive context.enabled_features
    → IsLive context
    → IsLive (disable_found driver f context o).1
unfolding disable_found
disable_found-IsLive driver f context none e x h g i = h g i
disable_found-IsLive driver f context (some a) e x h g i = ground (
  arith,
  h g,
  (x g).0,
  has_id-count_id context.enabled_features g,
  has_id-count_id (erase_id f context.enabled_features) g,
  count_id-erase_id context.enabled_features f g,
  is_live-put_adapter context.adapters f g (set_enabled false a) a e,
)

call-IsLive :
    (driver : Driver) (c : Call) (context : Context)
    → IsExclusive context.enabled_features
    → IsLive context
    → IsLive (call driver c context)
unfolding enable_feature disable_feature
call-IsLive driver (enable none) context x h = h
call-IsLive driver (enable (some params)) context x h =
    enable_found-IsLive driver params context (find_adapter context.adapters params.feature) refl h
call-IsLive driver (disable f) context x h =
    disable_found-IsLive driver f context (find_adapter context.adapters f) refl x h
call-IsLive driver (clients_changed m) context x h = h

-- Over any sequence of calls, whatever the driver answers and the clients do: if every enabled
-- feature's adapter is enabled before, no feature is listed twice and crash analysis is enabled
-- alone, then every enabled feature's adapter is enabled after.
pub call_all-IsLive :
    (driver : Driver) (cs : List Call) (context : Context)
    → IsExclusive context.enabled_features
    → IsLive context
    → IsLive (call_all driver cs context)
call_all-IsLive driver [] context x h = h
call_all-IsLive driver (c ∷ cs) context x h =
    call_all-IsLive driver cs (call driver c context) (call-IsExclusive driver c context x)
      (call-IsLive driver c context x h)
