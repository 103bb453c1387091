-- ===== src/Accounts/Nodes.antt =====
-- The node of a user: `recordVisit` and `assignmentView` of app/server/services/node-assignment.ts, and
-- app/server/api/nodes/select.post.ts. A latency is a whole number of milliseconds: what the source
-- rounds, with 0 for a negative number or none.
use constrainable.Base.{
  ℕ, String, Bool, true, not, ◌&&◌, Option, some, none, List, [], ◌∷◌, any, min, is_empty, is_some,
  ◌==◌, str_eq, trim, Result, ok, http_error, if◌then◌else◌,
}
use constrainable.Schema.{User, NodeLatency}
use constrainable.Database.Users
use constrainable.Server.{MediaNodeInfo, AuditLevel, AuditCategory, node_self_selected}
use constrainable.Registry.{get_node, list_nodes, rtmp_authority}
use constrainable.Invites.{Auth}
use constrainable.Accounts.{Site, users_of, on_site, with_users, allocate_for}
use constrainable.Server.Audit.{audit}

pub record AssignmentView : Type 0 where
  pub assigned : Option String
  pub assigned_rtmp_authority : String
  pub origin : String
  pub rtmp_port : ℕ
  pub probe_udp_port : ℕ
  pub srs_udp_port : ℕ

-- The node of an id; the empty text is none.
node_of : Option String → Site → Option MediaNodeInfo
node_of none site = none
node_of (some n) site = if is_empty n then none else get_node n site.hub.registry

unfoldable pub assignment_view : ℕ → Site → AssignmentView
unfolding node_of
assignment_view user site =
    let assigned : Option String = elim (Users.find_by_id user (users_of site)) [
      | none ↦ none
      | some u ↦ u.node_id
    ] in
    elim (node_of assigned site) [
      | none ↦ record {
        assigned = assigned;
        assigned_rtmp_authority = "";
        origin = "";
        rtmp_port = 1935;
        probe_udp_port = 0;
        srs_udp_port = 0;
      }
      | some n ↦ record {
        assigned = assigned;
        assigned_rtmp_authority = rtmp_authority n;
        origin = n.public_origin;
        rtmp_port = n.public_rtmp_port;
        probe_udp_port = n.public_probe_udp_port;
        srs_udp_port = n.public_srs_udp_port;
      }
    ]

-- NodeLatenciesRepository.upsert
upsert_latency : ℕ → String → ℕ → List NodeLatency → List NodeLatency
upsert_latency user node ms [] = record { user_id = user; node_id = node; latency_ms = ms } ∷ []
upsert_latency user node ms (l ∷ ls) =
    if (l.user_id == user) && str_eq l.node_id node
    then record l { latency_ms = ms } ∷ ls
    else l ∷ upsert_latency user node ms ls

-- The latencies to nodes that are registered, each at most a minute.
unfoldable pub record_latencies :
    List MediaNodeInfo → ℕ → List (String × ℕ) → List NodeLatency → List NodeLatency
unfolding upsert_latency
record_latencies nodes user [] ls = ls
record_latencies nodes user ((node, ms) ∷ rest) ls = record_latencies nodes user rest (
    if any (λ n. str_eq n.node_id node) nodes
    then upsert_latency user node (min 60000 ms) ls
    else ls)

abbrev pub has_no_node : User → Bool
has_no_node u = elim u.node_id [ none ↦ true | some n ↦ is_empty n ]

-- The one assignment that a user without a node gets.
unfoldable pub backfill : User → Site → Option String × Site
backfill u site = elim (allocate_for u.id site) [
  | none ↦ (u.node_id, site)
  | some node ↦
      if is_empty node
      then (u.node_id, site)
      else (some node, on_site (with_users (Users.update_node u.id (some node))) site)
]

unfoldable pub record_visit : ℕ → List (String × ℕ) → Site → Option String × Site
unfolding record_latencies backfill
record_visit user latencies site =
    let site' = record site {
      latencies = record_latencies (list_nodes site.hub.registry) user latencies site.latencies;
    } in
    elim (Users.find_by_id user (users_of site)) [
      | none ↦ (none, site')
      | some u ↦ if has_no_node u then backfill u site' else (u.node_id, site')
    ]

unfoldable pub select_node : Option Auth → String → Site → Result String × Site
select_node none input site = (http_error 403 "login required", site)
select_node (some a) input site =
    let node = trim input in
    if is_empty node
    then (http_error 400 "nodeId is required", site)
    else if not (is_some (get_node node site.hub.registry))
    then (http_error 400 "node is not currently online", site)
    else elim (Users.find_by_id a.user_id (users_of site)) [
      | none ↦ (http_error 404 "user not found", site)
      | some u ↦ (
        ok node,
        on_site
            (λ s.
              audit
                (record {
                  level = AuditLevel.info;
                  category = AuditCategory.publish;
                  message = node_self_selected u.email node;
                  actor = some u.email;
                  event_id = none;
                  stream_name = some u.email;
                })
                (with_users (Users.update_node a.user_id (some node)) s))
            site,
      )
    ]
