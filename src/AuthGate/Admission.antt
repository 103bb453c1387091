-- ===== src/AuthGate/Admission.antt =====
-- Whose requests an administrator's handler takes.
use constrainable.Base.{
  ℕ, ◌≡◌, ◌≢◌, inl, inr, refl, ap, sym, ◌∙◌, String, true, Option, some, List, All, All-Elem,
  All-update_key, find?-some, Bool-cases, Option-cases, ◌==◌, Table, ok,
}
use mathlib.Core.Path.{subst}
use constrainable.Schema.{User, Role, is_admin}
use constrainable.Database.Users
use constrainable.Server.{Server}
use constrainable.Invites.{Auth}
use constrainable.Membership.{find_user, set_user_role}
use constrainable.Membership.Roles.{set_user_role-demotes}
use constrainable.AuthGate.{Claims, read_session_cookie, authenticate, gate, require_admin}

module _ (jwt_verify : String → Option Claims) (cookie : Option String) (us : List User) where
  -- The account of an identity: a token that verifies names the id of its row.
  pub authenticate-some :
      {a : Auth}
      → authenticate jwt_verify cookie us ≡ some a
      → (token : String) × (cookie ≡ some token)
        × ((uid : ℕ) × (read_session_cookie jwt_verify token ≡ some uid)
            × ((u : User) × (Users.find_by_id uid us ≡ some u)
                × (a ≡ record { user_id = u.id; role = u.role })))
  unfolding authenticate
  authenticate-some {a} h = elim (Option-cases cookie) [
    | inl e ↦ cc (rw (e, authenticate) at h)
    | inr (token, e) ↦ elim (Option-cases (read_session_cookie jwt_verify token)) [
      | inl bad ↦ cc (rw (bad, authenticate) at (rw (e, authenticate) at h))
      | inr (uid, good) ↦ elim (Option-cases (Users.find_by_id uid us)) [
        | inl gone ↦
            cc (rw (gone, authenticate) at (rw (good, authenticate) at (rw (e, authenticate) at h)))
        | inr (u, found) ↦
            let same =
              rw (found, authenticate) at
                (rw (good, authenticate) at (rw (e, authenticate) at h)) in
            (token, e, (uid, good, (u, found, cc same)))
      ]
    ]
  ]

  -- A handler for administrators serves a request only if its cookie is a token that verifies, and the
  -- row of its id is an administrator's at the time of the request.
  pub require_admin-gate :
      (url : String) {a : Auth}
      → require_admin (gate jwt_verify cookie url us).0 ≡ ok a
      → (token : String) × (cookie ≡ some token)
        × ((uid : ℕ) × (read_session_cookie jwt_verify token ≡ some uid)
            × ((u : User) × (Users.find_by_id uid us ≡ some u)
                × (u.id ≡ a.user_id)
                × (is_admin u.role ≡ true)))
  unfolding gate require_admin
  require_admin-gate url {a} h = elim (Option-cases (authenticate jwt_verify cookie us)) [
    | inl e ↦ cc (rw (e, require_admin) at h)
    | inr (b, e) ↦
        let r = authenticate-some {a = b} e in
        let h' = rw (e, require_admin) at h in
        elim (Bool-cases (is_admin b.role)) [
          | inr bad ↦ cc (rw (bad, require_admin) at h')
          | inl good ↦
              let same : b ≡ a = cc (rw (good, require_admin) at h') in
              let u = r.2.2.0 in
              (
                r.0,
                r.1,
                (
                  r.2.0,
                  r.2.1,
                  (
                    u,
                    r.2.2.1,
                    sym (ap (λ (x : Auth). x.user_id) r.2.2.2) ∙ ap (λ (x : Auth). x.user_id) same,
                    ap (λ (x : Auth). is_admin x.role) (sym r.2.2.2) ∙ good,
                  ),
                ),
              )
        ]
  ]

-- Once an administrator has been made a user, no request passes for an administrator's under its id,
-- whatever tokens it still has.
pub demoted-require_admin :
    (jwt_verify : String → Option Claims) (cookie : Option String) (url : String) (i : ℕ)
    (s : Server) {u : User} {a : Auth}
    → find_user i s ≡ some u
    → is_admin u.role ≡ true
    → require_admin (gate jwt_verify cookie url (set_user_role i Role.user s).1.db.users.rows).0
      ≡ ok a
    → a.user_id ≢ i
unfolding Users.find_by_id
demoted-require_admin jwt_verify cookie url i s {u} {a} found is h same =
    let d = set_user_role-demotes i s {u = u} found is in
    let rows = (set_user_role i Role.user s).1.db.users.rows in
    let r = require_admin-gate jwt_verify cookie rows url {a = a} h in
    let v = r.2.2.0 in
    let m = (find?-some (λ x. x.id == r.2.0) rows {x = v} r.2.2.1).0 in
    let demoted : All (λ x. x.id ≡ i → x.role ≡ Role.user) rows =
      subst (λ (t : Table User). All (λ x. x.id ≡ i → x.role ≡ Role.user) t.rows) (sym d.1)
        (All-update_key (λ x. x.role ≡ Role.user) (λ x. x.id) i (λ x. record x { role = Role.user })
          s.db.users.rows (λ x. refl)) in
    let role : v.role ≡ Role.user = All-Elem _ rows demoted m (r.2.2.2 ∙ same) in
    cc (rw role at r.2.2.3)
