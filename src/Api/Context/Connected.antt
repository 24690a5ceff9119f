-- ===== src/Api/Context/Connected.antt =====
-- The features of a context (source/api/capture_context.cpp) while the client manager
-- (source/api/client_manager.cpp) has connections.
use radeon_developer_panel.Common.{
  ℕ, ◌≡◌, ◌≢◌, List, [], Option, true, false, All, sym, ap, ◌∙◌, arith,
}
use radeon_developer_panel.Api.Result.{is_success}
use radeon_developer_panel.Api.Client.Single.{
  Event, HasProcess, serve_all, new_system, serve_all-is_idle,
}
use radeon_developer_panel.Api.Client.Manager.{Client}
use radeon_developer_panel.Api.Context.Params.{FeatureEnableParams, Driver}
use radeon_developer_panel.Api.Context.Features.{
  Context, enable_feature, disable_feature, is_locked,
}
use radeon_developer_panel.Api.Context.Rollback.{
  enable_feature-is_locked, disable_feature-is_locked,
}

is_locked-connected :
    (client : Client) (es : List Event) (context : Context)
    → All HasProcess es
    → context.client_manager ≡ (serve_all client es new_system).0
    → context.client_manager.current_umd_connections ≢ []
    → is_locked context ≡ true
unfolding is_locked
is_locked-connected client es context p e n =
    let idle = serve_all-is_idle client es p in
    let busy : context.client_manager.current_process.process_id ≢ 0 = λ z. n (
      ap (λ m. m.current_umd_connections) e
      ∙ idle.0 (sym (ap (λ m. m.current_process.process_id) e) ∙ z)) in
    ground (arith, busy)

-- As long as a connection is left of the clients that the client manager has let in, none of them
-- process 0, no call of `EnableFeature` or `DisableFeature` succeeds or changes anything.
pub enable_feature-connected :
    (driver : Driver) (params : Option FeatureEnableParams) (f : ℕ) (client : Client)
    (es : List Event) (context : Context)
    → All HasProcess es
    → context.client_manager ≡ (serve_all client es new_system).0
    → context.client_manager.current_umd_connections ≢ []
    → ((enable_feature driver params context).1 ≡ context)
      × (is_success (enable_feature driver params context).0 ≡ false)
      × ((disable_feature driver f context).1 ≡ context)
      × (is_success (disable_feature driver f context).0 ≡ false)
enable_feature-connected driver params f client es context p e n =
    let locked = is_locked-connected client es context p e n in
    let a = enable_feature-is_locked driver params context locked in
    let b = disable_feature-is_locked driver f context locked in (a.0, a.1, b.0, b.1)
