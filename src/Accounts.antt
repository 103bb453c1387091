-- ===== src/Accounts.antt =====
-- The accounts: app/server/api/auth/, app/server/api/users/[id].patch.ts and [id].delete.ts, and
-- app/server/api/me/password.post.ts. A handler's request is a record of its fields, as the texts that
-- `String` makes of them; its answer is a result with the status code of the error.
pub mod SendCode
pub mod Register
pub mod Login
pub mod Passwords
pub mod Admin
pub mod Nodes
pub mod Gate
pub mod Opened
pub mod SignIn
pub mod Mailed
pub mod Admins
pub mod Unique
mod Tests
use constrainable.Base.{
  ℕ, String, Bool, Option, some, none, List, ◌==◌, ◌&&◌, str_eq, find?, filter, length, holds,
  Table,
}
use constrainable.Schema.{User, NodeLatency, NodeSetting}
use constrainable.Database.{Database}
use constrainable.Database.Users
use constrainable.Server.{Server, AuditLevel, AuditCategory, Message}
use constrainable.Server.Audit.{audit}
use constrainable.Registry.{list_nodes}
use constrainable.MediaNode.{Hub}
use constrainable.EmailCode.{Codes}
use constrainable.Registration.{RegistrationConfig}
use constrainable.Assignment.{allocate}

-- What these handlers read and write: the services' state with the registry of nodes, the codes of
-- `email-code.ts`, two tables, and the parts of the configuration that they use.
pub record Site : Type 0 where
  pub hub : Hub
  pub codes : Codes
  pub node_settings : List NodeSetting
  pub latencies : List NodeLatency
  pub registration : RegistrationConfig
  -- dashboard.announcementPool
  pub announcement_pool : List String

-- The cryptography of the libraries, as in `constrainable.Password`.
pub record Crypto : Type 0 where
  -- none: the text is not a cipher of the server's key
  pub rsa_decrypt : String → Option String
  pub argon2id : String → List ℕ → List ℕ
  pub bun_verify : String → String → Bool
  pub md5_base64 : String → String
  pub encrypt : String → String

-- What a handler draws at random: the salt of a password, and that of a verifier.
pub record Salts : Type 0 where
  pub password_salt : List ℕ
  pub authmod_salt : String

abbrev pub users_of : Site → List User
users_of site = site.hub.server.db.users.rows

abbrev pub on_site : (Server → Server) → Site → Site
on_site f site = record site { hub = record site.hub { server = f site.hub.server } }

abbrev pub with_users : (Table User → Table User) → Server → Server
with_users f s = record s { db = record s.db { users = f s.db.users } }

pub log_as : AuditLevel → AuditCategory → Message → Option String → Server → Server
log_as level category message actor s =
    audit
      (record {
        level = level;
        category = category;
        message = message;
        actor = actor;
        event_id = none;
        stream_name = none;
      })
      s

-- NodeSettingsRepository: `getMaxUsers` with its default, and `assignedCount`
get_max_users : List NodeSetting → String → ℕ
get_max_users settings node = elim (find? (λ r. str_eq r.node_id node) settings) [
  | none ↦ 50
  | some r ↦ r.max_users
]

assigned_count : List User → String → ℕ
assigned_count us node = length (filter (λ u. holds (λ n. str_eq n node) u.node_id) us)

-- The latency of a user to a node, from its rows.
latency_for : ℕ → List NodeLatency → String → Option ℕ
latency_for user ls node = elim (find? (λ l. (l.user_id == user) && str_eq l.node_id node) ls) [
  | none ↦ none
  | some l ↦ some l.latency_ms
]

-- `allocate(user.id)`
unfoldable pub allocate_for : ℕ → Site → Option String
unfolding get_max_users assigned_count latency_for
allocate_for user site =
    allocate (get_max_users site.node_settings) (assigned_count (users_of site))
      (latency_for user site.latencies) (list_nodes site.hub.registry)
