-- ===== src/Registry.antt =====
-- app/server/services/media-node-registry.ts: the media nodes that are connected, in memory.
pub mod Connections
mod Tests
use Prim.Native.Char.{code}
use Prim.Native.String.{char_at}
use constrainable.Base.{
  [], ◌∷◌, sort_by, ltb, ℕ, ◌+◌, ◌-◌, String, Bool, ◌&&◌, ◌||◌, Option, some, none, List, is_empty,
  leb, ◌==◌, or_else, str_eq, str_append, to_lower_case, map_get, map_set, map_delete,
  if◌then◌else◌, decimal,
}
use constrainable.Schema.{PublishSession}
use constrainable.Database.Sessions
use constrainable.Server.{MediaNodeInfo}

pub record Registry : Type 0 where
  -- nodeId → info
  pub nodes : List (String × MediaNodeInfo)
  -- connection id → nodeId
  pub socket_to_node : List (String × String)

-- What a node reports; a count of 0 or a missing text takes the default below.
pub record NodeReport : Type 0 where
  pub identifier : String
  pub hostname : String
  pub version : String
  pub srs_flv_base : String
  pub public_origin : String
  pub public_rtmp_port : ℕ
  pub public_probe_udp_port : Option ℕ
  pub public_srs_udp_port : Option ℕ

-- `rtmpAuthority`
pub rtmp_authority : MediaNodeInfo → String
unfolding decimal
rtmp_authority n =
    if is_empty n.public_origin
    then ""
    else if n.public_rtmp_port == 1935
    then n.public_origin
    else str_append n.public_origin (str_append ":" (decimal n.public_rtmp_port))

-- .replace(/:1935$/, '')
normalize_rtmp_authority : String → String
normalize_rtmp_authority String.[] = String.[]
normalize_rtmp_authority (String.◌∷◌ c s) =
    let rest = normalize_rtmp_authority s in
    if str_eq (String.◌∷◌ c s) ":1935" then String.[] else String.◌∷◌ c rest

-- `obsServerUrl` of app/shared/rtmp.ts
pub obs_server_url : String → String
unfolding normalize_rtmp_authority
obs_server_url authority =
    str_append "rtmp://" (str_append (normalize_rtmp_authority authority) "/live")

strip_prefix : String → String → Option String
strip_prefix String.[] s = some s
strip_prefix (String.◌∷◌ p ps) String.[] = none
strip_prefix (String.◌∷◌ p ps) (String.◌∷◌ c s) =
    if code p == code c then strip_prefix ps s else none

-- .replace(/^https?:\/\//, '')
strip_scheme : String → String
unfolding strip_prefix
strip_scheme s = or_else (strip_prefix "https://" s) (or_else (strip_prefix "http://" s) s)

-- .replace(/[:/].*$/, ''), of a text of one line
host_part : String → String
host_part String.[] = String.[]
host_part (String.◌∷◌ c s) =
    if code c == b':' || code c == b'/' then String.[] else String.◌∷◌ c (host_part s)

-- [a-z0-9-] without regard to case
abbrev is_id_char : ℕ → Bool
is_id_char c =
    (leb b'a' c && leb c b'z')
    || (leb b'A' c && leb c b'Z')
    || (leb b'0' c && leb c b'9')
    || c == b'-'

dashed : String → String
dashed String.[] = String.[]
dashed (String.◌∷◌ c s) = String.◌∷◌ (if is_id_char (code c) then c else char_at "-" 0) (dashed s)

pub derive_node_id : String → String
unfolding strip_scheme host_part dashed to_lower_case
derive_node_id origin = to_lower_case (dashed (host_part (strip_scheme origin)))

-- identifier || hostname
pub node_id_of : NodeReport → String
unfolding derive_node_id
node_id_of info =
    derive_node_id (if is_empty info.identifier then info.hostname else info.identifier)

streams_of : Option MediaNodeInfo → ℕ
streams_of none = 0
streams_of (some n) = n.active_streams

pub node_entry : ℕ → String → NodeReport → Option MediaNodeInfo → MediaNodeInfo
unfolding node_id_of streams_of
node_entry now peer info existing = record {
  node_id = node_id_of info;
  socket_id = peer;
  identifier = info.identifier;
  public_origin = info.public_origin;
  public_rtmp_port = if info.public_rtmp_port == 0 then 1935 else info.public_rtmp_port;
  public_probe_udp_port = or_else info.public_probe_udp_port 0;
  public_srs_udp_port = or_else info.public_srs_udp_port 0;
  hostname = info.hostname;
  version = info.version;
  connected_at = now;
  active_streams = streams_of existing;
  srs_flv_base =
      if is_empty info.srs_flv_base
      then str_append "http://" (str_append info.identifier ":38081")
      else info.srs_flv_base;
}

pub register : ℕ → String → NodeReport → Registry → String × Registry
unfolding node_entry map_get map_set
register now peer info r =
    let node = node_id_of info in
    (
      node,
      record {
        nodes = map_set node (node_entry now peer info (map_get node r.nodes)) r.nodes;
        socket_to_node = map_set peer node r.socket_to_node;
      },
    )

-- The entry of the node goes only if it is of this connection. An empty nodeId is as good as none.
pub drop_node : String → String → Registry → Registry
unfolding map_get map_delete
drop_node socket node r =
    let s = map_delete socket r.socket_to_node in
    elim (map_get node r.nodes) [
      | none ↦ record r { socket_to_node = s }
      | some n ↦ record {
        nodes = if str_eq n.socket_id socket then map_delete node r.nodes else r.nodes;
        socket_to_node = s;
      }
    ]

pub disconnect : String → Registry → Option String × Registry
unfolding drop_node map_get
disconnect socket r = elim (map_get socket r.socket_to_node) [
  | none ↦ (none, r)
  | some node ↦ if is_empty node then (none, r) else (some node, drop_node socket node r)
]

-- The change `up - down` of the count, which stops at 0.
pub adjust_stream_count : String → ℕ → ℕ → Registry → Registry
unfolding map_get map_set
adjust_stream_count node up down r = elim (map_get node r.nodes) [
  | none ↦ r
  | some n ↦ record r {
    nodes = map_set node (record n { active_streams = n.active_streams + up - down }) r.nodes;
  }
]

pub get_node : String → Registry → Option MediaNodeInfo
unfolding map_get
get_node node r = map_get node r.nodes

infos : List (String × MediaNodeInfo) → List MediaNodeInfo
infos [] = []
infos ((k, n) ∷ m) = n ∷ infos m

-- By the time of the connection. Nodes of one time stand with the last set first; the source has
-- them in the order of their first registration.
pub list_nodes : Registry → List MediaNodeInfo
unfolding infos
list_nodes r = sort_by (λ a b. ltb a.connected_at b.connected_at) (infos r.nodes)

-- The node that hosts the newest open session of a stream.
pub get_hosting_node : String → List PublishSession → Registry → Option MediaNodeInfo
unfolding get_node Sessions.find_active_by_stream
get_hosting_node stream ss r = elim (Sessions.find_active_by_stream stream ss) [
  | none ↦ none
  | some s ↦ elim s.node_id [ none ↦ none | some n ↦ if is_empty n then none else get_node n r ]
]

-- `fallback` is `env.srsFlvBase`.
pub resolve_flv_base : String → String → List PublishSession → Registry → String
unfolding get_hosting_node
resolve_flv_base fallback stream ss r = elim (get_hosting_node stream ss r) [
  | none ↦ fallback
  | some n ↦ n.srs_flv_base
]
