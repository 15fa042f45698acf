-- ===== src/SharedMemory/Routes.antt =====
-- What the configuration loses in the shared memory.
use x_server.Prelude.{ℕ, ◌≤◌, ◌≡◌, refl, ap₂, List, [], ◌∷◌, map, arith, length, take_all, All}
use x_server.Routes.{Route}
use x_server.Config.Settings.{Config}
use x_server.SharedMemory.{SharedConfig, share_route, update_shared_config, get_shared_config}

-- The texts of a route fit the copies; path_prefix has room for 511 bytes in the configuration.
pub record Fits (r : Route) : Type 0 where
  pub path_prefix : length r.path_prefix ≤ 255
  pub target_host : length r.target_host ≤ 255
  pub local_path : length r.local_path ≤ 511
  pub charset : length r.charset ≤ 31

share_route_same : (r : Route) → Fits r → share_route r ≡ r
unfolding share_route
share_route_same r f = ground (
  arith,
  take_all 255 r.path_prefix f.path_prefix,
  take_all 255 r.target_host f.target_host,
  take_all 511 r.local_path f.local_path,
  take_all 31 r.charset f.charset,
)

share_routes_same : (rs : List Route) → All Fits rs → map share_route rs ≡ rs
share_routes_same [] a = refl
share_routes_same (r ∷ rs) (f, a) =
    ap₂ (λ x xs. x ∷ xs) (share_route_same r f) (share_routes_same rs a)

-- A configuration whose routes have prefixes of at most 255 bytes, and other texts that fit their
-- buffers, is read back from the shared memory as it was put there.
pub shared_config_roundtrip :
    (s : SharedConfig) (now : ℕ) (config : Config)
    → All Fits config.routes
    → get_shared_config (update_shared_config s now config) ≡ config
unfolding update_shared_config
shared_config_roundtrip s now config a = ground (arith, share_routes_same config.routes a)
