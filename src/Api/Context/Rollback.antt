-- ===== src/Api/Context/Rollback.antt =====
-- Enabling and disabling one feature (source/api/capture_context.cpp): the adapters of the enabled
-- features, the calls that change nothing, and disabling what was just enabled.
use radeon_developer_panel.Common.{
  has_id, insert_id, erase_id, ℕ, ◌≡◌, refl, ap, Bool, true, false, List, [], ◌∷◌, Option, none,
  some, ◌==◌, if◌then◌else◌, arith,
}
use radeon_developer_panel.Api.Context.Params.{FeatureEnableParams, Adapter, SetFeature, Driver}
use radeon_developer_panel.Api.Context.Adapter.{
  Configured, configure_rgp, configure_rgd, configure_rra,
}
use radeon_developer_panel.Api.Result.{is_success}
use radeon_developer_panel.Api.Context.Features.{
  Context, find_adapter, put_adapter, set_enabled, enable_adapter, finish_enable, enable_found,
  enable_feature, disable_found, disable_feature, is_locked,
}

abbrev pub is_live_adapter : Option Adapter → Bool
is_live_adapter none = false
is_live_adapter (some a) = a.is_enabled

-- The feature has an adapter, and it is enabled.
abbrev pub is_live : List (ℕ × Adapter) → ℕ → Bool
is_live adapters f = is_live_adapter (find_adapter adapters f)

pub find_adapter-put_adapter :
    (adapters : List (ℕ × Adapter)) (g f : ℕ) (a old : Adapter)
    → find_adapter adapters g ≡ some old
    → find_adapter (put_adapter adapters g a) f
      ≡ (if g == f then some a else find_adapter adapters f)
unfolding find_adapter put_adapter
find_adapter-put_adapter [] g f a old h = cc
find_adapter-put_adapter (x ∷ more) g f a old h =
    ground (arith, find_adapter-put_adapter more g f a old)

pub is_live-put_adapter :
    (adapters : List (ℕ × Adapter)) (g f : ℕ) (a old : Adapter)
    → find_adapter adapters g ≡ some old
    → is_live (put_adapter adapters g a) f ≡ (if g == f then a.is_enabled else is_live adapters f)
is_live-put_adapter adapters g f a old h =
    ground (arith, ap is_live_adapter (find_adapter-put_adapter adapters g f a old h))

has_id-insert_id_head : (g : ℕ) (gs : List ℕ) → has_id gs g ≡ false → insert_id g gs ≡ g ∷ gs
unfolding insert_id
has_id-insert_id_head g gs h = ground arith

pub enable_adapter-is_enabled :
    (driver : Driver) (params : FeatureEnableParams) (a : Adapter) (calls : List SetFeature)
    → (enable_adapter driver params a calls).1.is_enabled ≡ true
unfolding enable_adapter configure_rgp configure_rgd configure_rra
enable_adapter-is_enabled driver params a calls = ground arith

enable_found-unchanged :
    (driver : Driver) (params : FeatureEnableParams) (context : Context) (o : Option Adapter)
    → is_locked context ≡ true
    → ((enable_found driver params context o).1 ≡ context)
      × (is_success (enable_found driver params context o).0 ≡ false)
unfolding enable_found
enable_found-unchanged driver params context none h = (refl, refl)
enable_found-unchanged driver params context (some a) h = rw h (refl, refl)

disable_found-unchanged :
    (driver : Driver) (f : ℕ) (context : Context) (o : Option Adapter)
    → is_locked context ≡ true
    → ((disable_found driver f context o).1 ≡ context)
      × (is_success (disable_found driver f context o).0 ≡ false)
unfolding disable_found
disable_found-unchanged driver f context none h = (refl, refl)
disable_found-unchanged driver f context (some a) h = rw h (refl, refl)

-- While a process is connected, no call of `EnableFeature` succeeds or changes anything.
pub enable_feature-is_locked :
    (driver : Driver) (params : Option FeatureEnableParams) (context : Context)
    → is_locked context ≡ true
    → ((enable_feature driver params context).1 ≡ context)
      × (is_success (enable_feature driver params context).0 ≡ false)
unfolding enable_feature
enable_feature-is_locked driver none context h = (refl, refl)
enable_feature-is_locked driver (some params) context h =
    enable_found-unchanged driver params context (find_adapter context.adapters params.feature) h

-- While a process is connected, no call of `DisableFeature` succeeds or changes anything.
pub disable_feature-is_locked :
    (driver : Driver) (f : ℕ) (context : Context)
    → is_locked context ≡ true
    → ((disable_feature driver f context).1 ≡ context)
      × (is_success (disable_feature driver f context).0 ≡ false)
unfolding disable_feature
disable_feature-is_locked driver f context h =
    disable_found-unchanged driver f context (find_adapter context.adapters f) h

finish_enable-success :
    (driver : Driver) (f : ℕ) (context : Context) (old : Adapter) (r : Configured)
    → find_adapter context.adapters f ≡ some old
    → has_id context.enabled_features f ≡ false
    → r.1.is_enabled ≡ true
    → is_success (finish_enable driver f context r).0 ≡ true
    → ((finish_enable driver f context r).1.enabled_features ≡ f ∷ context.enabled_features)
      × (is_live (finish_enable driver f context r).1.adapters f ≡ true)
      × ((finish_enable driver f context r).1.client_manager ≡ context.client_manager)
unfolding finish_enable
finish_enable-success driver f context old r h e k s = ground (
  arith,
  is_live-put_adapter context.adapters f f r.1 old h,
  has_id-insert_id_head f context.enabled_features e,
)

disable_found-after :
    (driver : Driver) (f : ℕ) (context : Context) (gs : List ℕ) (o : Option Adapter)
    → find_adapter context.adapters f ≡ o
    → is_live_adapter o ≡ true
    → context.enabled_features ≡ f ∷ gs
    → is_locked context ≡ false
    → (is_success (disable_found driver f context o).0 ≡ true)
      × ((disable_found driver f context o).1.enabled_features ≡ gs)
      × (is_live (disable_found driver f context o).1.adapters f ≡ false)
unfolding disable_found erase_id set_enabled
disable_found-after driver f context gs none h l e k = cc
disable_found-after driver f context gs (some a) h l e k =
    ground (arith, is_live-put_adapter context.adapters f f (set_enabled false a) a h)

enable_found-success :
    (driver : Driver) (params : FeatureEnableParams) (context : Context) (o : Option Adapter)
    → find_adapter context.adapters params.feature ≡ o
    → is_success (enable_found driver params context o).0 ≡ true
    → let after = (enable_found driver params context o).1 in
      (after.enabled_features ≡ params.feature ∷ context.enabled_features)
      × (is_live after.adapters params.feature ≡ true)
      × (is_locked after ≡ false)
unfolding enable_found is_locked
enable_found-success driver params context none h s = cc
enable_found-success driver params context (some a) h s =
    let r = enable_adapter driver params a context.driver_calls in
    ground (
      arith,
      λ (e : has_id context.enabled_features params.feature ≡ false)
            (k : is_success (finish_enable driver params.feature context r).0 ≡ true).
          finish_enable-success driver params.feature context a r h e
            (enable_adapter-is_enabled driver params a context.driver_calls) k,
    )

-- A call of `EnableFeature` that succeeds adds the feature and enables its adapter; a call of
-- `DisableFeature` that follows succeeds, disables the adapter again and leaves the features that
-- were enabled before both.
pub disable_feature-enable_feature :
    (driver : Driver) (params : FeatureEnableParams) (context : Context)
    → is_success (enable_feature driver (some params) context).0 ≡ true
    → let f = params.feature in
      let between = (enable_feature driver (some params) context).1 in
      let after = (disable_feature driver f between).1 in
      (between.enabled_features ≡ f ∷ context.enabled_features)
      × (is_live between.adapters f ≡ true)
      × (is_success (disable_feature driver f between).0 ≡ true)
      × (is_live after.adapters f ≡ false)
      × (after.enabled_features ≡ context.enabled_features)
unfolding enable_feature disable_feature
disable_feature-enable_feature driver params context s =
    let f = params.feature in
    let o = find_adapter context.adapters f in
    let between = (enable_found driver params context o).1 in
    let e = enable_found-success driver params context o refl s in
    let d =
      disable_found-after driver f between context.enabled_features
        (find_adapter between.adapters f) refl e.1 e.0 e.2 in
    (e.0, e.1, d.0, d.2, d.1)

enable_found-failure :
    (driver : Driver) (params : FeatureEnableParams) (context : Context) (o : Option Adapter)
    → is_success (enable_found driver params context o).0 ≡ false
    → (enable_found driver params context o).1.enabled_features ≡ context.enabled_features
unfolding enable_found finish_enable
enable_found-failure driver params context none h = refl
enable_found-failure driver params context (some a) h = ground arith

-- A call of `EnableFeature` that does not succeed leaves the features that are enabled.
pub enable_feature-failure :
    (driver : Driver) (params : FeatureEnableParams) (context : Context)
    → is_success (enable_feature driver (some params) context).0 ≡ false
    → (enable_feature driver (some params) context).1.enabled_features ≡ context.enabled_features
unfolding enable_feature
enable_feature-failure driver params context h =
    enable_found-failure driver params context (find_adapter context.adapters params.feature) h
