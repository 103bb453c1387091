-- ===== src/Registry/Connections.antt =====
-- Which connection keeps a node in the registry.
use constrainable.Base.{
  ℕ, ◌≡◌, ◌≢◌, refl, sym, ap, ◌∙◌, inl, inr, String, true, false, Option, some, none, Option-cases,
  Bool-cases, is_empty, str_eq, eq_iff, map_get, map_delete, map_get-delete, map_get-set_self,
  map_get-delete_self,
}
use constrainable.Server.{MediaNodeInfo}
use constrainable.Registry.{
  Registry, NodeReport, node_id_of, node_entry, register, drop_node, disconnect,
}

-- The node is in the registry, by this connection.
abbrev pub IsConnected : String → String → Registry → Type 0
IsConnected node socket r =
    (n : MediaNodeInfo) × (map_get node r.nodes ≡ some n) × (n.socket_id ≡ socket)

-- The registration of a node connects it, by the new connection.
register-IsConnected :
    (now : ℕ) (peer : String) (info : NodeReport) (r : Registry)
    → IsConnected (node_id_of info) peer (register now peer info r).1
unfolding register node_entry
register-IsConnected now peer info r =
    let node = node_id_of info in
    (node_entry now peer info (map_get node r.nodes), map_get-set_self node _ r.nodes, refl)

drop_node-other :
    (node peer socket other : String) (r : Registry)
    → IsConnected node peer r
    → socket ≢ peer
    → IsConnected node peer (drop_node socket other r)
unfolding drop_node
drop_node-other node peer socket other r (n, here, mine) ne =
    elim (Option-cases (map_get other r.nodes)) [
      | inl e ↦ rw (e, drop_node) (n, here, mine)
      | inr (m, e) ↦ elim (Bool-cases (str_eq m.socket_id socket)) [
        | inr no_match ↦ rw (e, drop_node) (rw no_match (n, here, mine))
        | inl hit ↦ rw (e, drop_node) (rw hit (n, kept m e hit, mine))
      ]
    ]
  where
    differs :
        (m : MediaNodeInfo)
        → map_get other r.nodes ≡ some m
        → str_eq m.socket_id socket ≡ true
        → other ≢ node
    differs m e hit same =
        let one : some m ≡ some n = sym e ∙ ap (λ k. map_get k r.nodes) same ∙ here in
        ne (
          sym ((eq_iff m.socket_id socket).0 hit)
          ∙ ap (λ (o : Option MediaNodeInfo). elim o [ none ↦ peer | some x ↦ x.socket_id ]) one
          ∙ mine)

    kept :
        (m : MediaNodeInfo)
        → map_get other r.nodes ≡ some m
        → str_eq m.socket_id socket ≡ true
        → map_get node (map_delete other r.nodes) ≡ some n
    kept m e hit = elim (Bool-cases (str_eq other node)) [
      | inl same ↦ absurd (differs m e hit ((eq_iff other node).0 same))
      | inr apart ↦ map_get-delete other node r.nodes ∙ rw apart here
    ]

disconnect-other :
    (node peer socket : String) (r : Registry)
    → IsConnected node peer r
    → socket ≢ peer
    → IsConnected node peer (disconnect socket r).1
unfolding disconnect
disconnect-other node peer socket r c ne = elim (Option-cases (map_get socket r.socket_to_node)) [
  | inl e ↦ rw (e, disconnect) c
  | inr (other, e) ↦ elim (Bool-cases (is_empty other)) [
    | inl blank ↦ rw (e, disconnect) (rw blank c)
    | inr named ↦ rw (e, disconnect) (rw named (drop_node-other node peer socket other r c ne))
  ]
]

not_empty : (s : String) → s ≢ "" → is_empty s ≡ false
not_empty String.[] h = absurd (h refl)
not_empty (String.◌∷◌ c s) h = refl

disconnect-own :
    (node peer : String) (r : Registry)
    → IsConnected node peer r
    → map_get peer r.socket_to_node ≡ some node
    → node ≢ ""
    → map_get node (disconnect peer r).1.nodes ≡ none
unfolding disconnect drop_node
disconnect-own node peer r (n, here, mine) known named =
    let own : str_eq n.socket_id peer ≡ true = (eq_iff n.socket_id peer).1 mine in
    rw (known, disconnect)
      (rw (not_empty node named) (rw (here, drop_node) (rw own (map_get-delete_self node r.nodes))))

-- When a node comes back on a new connection before the old one is closed, the close of the old one
-- leaves it in the registry; the close of the connection itself takes the node out.
pub register-disconnect :
    (now : ℕ) (old peer : String) (info : NodeReport) (r : Registry)
    → node_id_of info ≢ ""
    → old ≢ peer
    → let r' = (register now peer info r).1 in
      IsConnected (node_id_of info) peer (disconnect old r').1
      × (map_get (node_id_of info) (disconnect peer r').1.nodes ≡ none)
unfolding register
register-disconnect now old peer info r named ne =
    let r' = (register now peer info r).1 in
    let node = node_id_of info in
    let c = register-IsConnected now peer info r in
    (
      disconnect-other node peer old r' c ne,
      disconnect-own node peer r' c (map_get-set_self peer node r.socket_to_node) named,
    )
