-- ===== src/Assignment/Tests.antt =====
-- One user and two nodes, and the theorem of this part at them.
use constrainable.Base.{
  ◌≤◌, ◌⊎◌, ℕ, ◌<◌, ◌≡◌, refl, inl, inr, String, some, none, [], ◌∷◌, Elem, str_eq, if◌then◌else◌,
}
use constrainable.Server.{MediaNodeInfo}
use constrainable.Assignment.{allocate}
use constrainable.Assignment.Quota.{allocate-under_quota}

abbrev east : MediaNodeInfo
east = record {
  node_id = "east";
  socket_id = "c1";
  identifier = "east";
  public_origin = "";
  public_rtmp_port = 1935;
  public_probe_udp_port = 0;
  public_srs_udp_port = 0;
  hostname = "h1";
  version = "1";
  connected_at = 1000;
  active_streams = 0;
  srs_flv_base = "http://east:38081";
}

abbrev west : MediaNodeInfo
west = record east { node_id = "west"; socket_id = "c2"; identifier = "west" }

abbrev users_of : String → ℕ
users_of node = if str_eq node "east" then 10 else 3

picks_west : allocate (λ n. 10) users_of (λ n. none) (east ∷ west ∷ []) ≡ some "west"
unfolding allocate
picks_west = refl

allocate-under_quota_example :
    (p : MediaNodeInfo) × Elem p (east ∷ west ∷ [])
    × (allocate (λ n. 10) users_of (λ n. none) (east ∷ west ∷ []) ≡ some p.node_id)
    × ((users_of p.node_id < 10) ⊎ (10 ≤ users_of "west"))
allocate-under_quota_example =
    allocate-under_quota (λ n. 10) users_of (λ n. none) (east ∷ west ∷ []) west (inr (inl refl))
