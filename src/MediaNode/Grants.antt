-- ===== src/MediaNode/Grants.antt =====
-- Which publishers a media node is told to accept.
use constrainable.Base.{
  ◌⊎◌, inl, inr, ℕ, String, Bool, ◌≡◌, refl, sym, ap, ◌∙◌, Option, some, none, str_append,
  Option-cases, is_empty, true, Bool-cases, arith, eq_iff, ◌++◌, ◌∷◌, [],
}
use constrainable.Schema.{User, Limits, Event, PublishSession}
use constrainable.Database.{Database}
use constrainable.Database.Sessions
use constrainable.Database.Users
use constrainable.Access.{Allowed, AuthResult, allow, given_token, authorize_publish}
use constrainable.Access.Soundness.{Admission, authorize_publish_sound}
use constrainable.Access.Reasons.{
  AuthResult-cases, users-authorize_publish, sessions-authorize_publish,
}
use constrainable.MediaNode.{Hub, on_server, emit_nodes_changed, log}
use constrainable.MediaNode.Starts.{
  PublishStartPayload, Grant, PublishAck, granted, refused, wrong_lock, remote_row, grant_publish,
  handle_publish_start, with_db,
}

-- The account, if there is one, is locked to no node, or to this one; a node without a name is not
-- held to a lock.
abbrev pub MayUse : String → Option User → Type 0
MayUse node none = Unit
MayUse node (some u) = elim u.node_id [
  | none ↦ Unit
  | some n ↦ (n ≡ "") ⊎ ((node ≡ "") ⊎ (n ≡ node))
]

is_empty-eq : (s : String) → is_empty s ≡ true → s ≡ ""
is_empty-eq String.[] h = refl
is_empty-eq (String.◌∷◌ c s) h = cc h

wrong_lock-MayUse : (node : String) (o : Option User) → wrong_lock node o ≡ none → MayUse node o
unfolding wrong_lock
wrong_lock-MayUse node none h = tt
wrong_lock-MayUse node (some u) h = elim (Option-cases u.node_id) [
  | inl e ↦ rw e tt
  | inr (n, e) ↦
      let h' = rw (wrong_lock, e) at h in
      rw e (elim (Bool-cases (is_empty n)) [
        | inl p ↦ inl (is_empty-eq n p)
        | inr p ↦ elim (Bool-cases (is_empty node)) [
          | inl q ↦ inr (inl (is_empty-eq node q))
          | inr q ↦ inr (inr (ground (arith, h', p, q, eq_iff n node)))
        ]
      ])
]

-- What the answer of an admission leads to.
data Granting (url_param : String → Option String) (verify : String → String → Bool) (now : ℕ)
    (p : PublishStartPayload) (h : Hub) (g : Grant) (h' : Hub) : Type 0 where
  granting :
      (a : Allowed) (db : Database)
      → authorize_publish url_param verify now h.server.db p.stream_name
          (str_append "?token=" p.token)
        ≡ (allow a, db)
      → wrong_lock p.node_id (Users.find_by_email p.stream_name db.users.rows) ≡ none
      → a.event_id ≡ g.event_id
      → h'.server.db.sessions ≡ Sessions.insert (remote_row now p a) db.sessions
      → g.session_id ≡ db.sessions.next_id
      → Granting url_param verify now p h g h'

grant_of : PublishAck × Hub → Option Grant
grant_of (granted g, h) = some g
grant_of (refused r, h) = none

abbrev event_id_of : Option Grant → Option ℕ
event_id_of none = none
event_id_of (some g) = g.event_id

abbrev session_id_of : Option Grant → ℕ
session_id_of none = 0
session_id_of (some g) = g.session_id

grant_publish-writes :
    (global : Limits) (record_on : Bool) (now : ℕ) (p : PublishStartPayload) (a : Allowed) (h : Hub)
    (g : Grant) (h' : Hub)
    → grant_publish global record_on now p a h ≡ (granted g, h')
    → (a.event_id ≡ g.event_id)
      × (h'.server.db.sessions ≡ Sessions.insert (remote_row now p a) h.server.db.sessions)
      × (g.session_id ≡ h.server.db.sessions.next_id)
unfolding grant_publish remote_row grant_of on_server emit_nodes_changed log
grant_publish-writes global record_on now p a h g h' e =
    let same = ap grant_of e in
    (
      ap event_id_of same,
      sym (ap (λ (r : PublishAck × Hub). r.1.server.db.sessions) e),
      sym (ap session_id_of same),
    )

handle_publish_start-Granting :
    (url_param : String → Option String) (verify : String → String → Bool) (global : Limits)
    (record_on : Bool) (now : ℕ) (p : PublishStartPayload) (h : Hub) (g : Grant) (h' : Hub)
    → handle_publish_start url_param verify global record_on now p h ≡ (granted g, h')
    → Granting url_param verify now p h g h'
unfolding handle_publish_start with_db
handle_publish_start-Granting url_param verify global record_on now p h g h' e =
    let r =
      authorize_publish url_param verify now h.server.db p.stream_name
        (str_append "?token=" p.token) in
    elim (AuthResult-cases r.0) [
      | inr (reason, q) ↦ cc (rw (handle_publish_start, q) at e)
      | inl (a, q) ↦
          elim (Option-cases
            (wrong_lock p.node_id (Users.find_by_email p.stream_name r.1.users.rows))) [
              | inr (n, lock) ↦ cc (rw (handle_publish_start, q, lock) at e)
              | inl free ↦
                  let (same, rows, new) =
                    grant_publish-writes global record_on now p a (with_db r.1 h) g h'
                      (rw (handle_publish_start, q, free) at e) in
                  granting a r.1 (ap (λ (x : AuthResult). (x, r.1)) q) free same rows new
            ]
    ]

-- A publisher whom a media node is told to accept showed a token that is a credential of an event, live
-- and in its window, which the grant names; the account with its name, if it is locked to a node, is
-- locked to this one, where the node has a name. The sessions are those of before and, last, that of
-- the grant, open and under the node.
pub handle_publish_start-granted :
    (url_param : String → Option String) (verify : String → String → Bool) (global : Limits)
    (record_on : Bool) (now : ℕ) (p : PublishStartPayload) (h : Hub) {g : Grant} {h' : Hub}
    → handle_publish_start url_param verify global record_on now p h ≡ (granted g, h')
    → ((token : String) × (given_token url_param (str_append "?token=" p.token) ≡ some token)
        × ((a : Allowed) × (e : Event) × (g.event_id ≡ some e.id)
            × Admission verify now h.server.db p.stream_name token a e))
      × MayUse p.node_id (Users.find_by_email p.stream_name h.server.db.users.rows)
      × ((x : PublishSession) × (h'.server.db.sessions.rows ≡ h.server.db.sessions.rows ++ x ∷ [])
          × (x.id ≡ g.session_id)
          × (x.stream_name ≡ p.stream_name)
          × (x.node_id ≡ some p.node_id)
          × (x.ended_at ≡ none)
          × (x.event_id ≡ g.event_id))
unfolding remote_row Sessions.insert
handle_publish_start-granted url_param verify global record_on now p h {g} {h'} e =
    elim (handle_publish_start-Granting url_param verify global record_on now p h g h' e) [
      | granting a db admitted free same rows new ↦
          let (token, given, (ev, adm)) =
            authorize_publish_sound url_param verify now h.server.db p.stream_name
              (str_append "?token=" p.token) {a = a} {db' = db} admitted in
          let same_users : db.users ≡ h.server.db.users =
            sym (ap (λ (r : AuthResult × Database). r.1.users) admitted)
            ∙ users-authorize_publish url_param verify now h.server.db p.stream_name
                (str_append "?token=" p.token) in
          let same_sessions : db.sessions ≡ h.server.db.sessions =
            sym (ap (λ (r : AuthResult × Database). r.1.sessions) admitted)
            ∙ sessions-authorize_publish url_param verify now h.server.db p.stream_name
                (str_append "?token=" p.token) in
          (
            (token, given, (a, ev, sym same ∙ adm.2, adm)),
            wrong_lock-MayUse p.node_id _ (rw (← same_users) free),
            (
              remote_row now p a db.sessions.next_id,
              rw (rows, same_sessions) refl,
              sym new,
              refl,
              refl,
              refl,
              same,
            ),
          )
    ]
