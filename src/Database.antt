-- ===== src/Database.antt =====
-- The database of the app: the tables of app/server/database/schema.ts that the modelled code uses.
-- The children are app/server/repositories/, one for each table.
pub mod Events
pub mod EventSlugAliases
pub mod Users
pub mod Students
pub mod Enrollments
pub mod StreamKeys
pub mod Sessions
pub mod StreamBans
pub mod Groups
pub mod InviteLinks
pub mod Recordings
use constrainable.Base.{List, Table}
use constrainable.Schema.{
  User, Event, StreamBan, EventSlugAlias, Student, Enrollment, StreamKey, PublishSession, Group,
  UserGroup, EventGroup, InviteLink,
}

pub record Database : Type 0 where
  pub users : Table User
  pub events : Table Event
  pub bans : Table StreamBan
  pub aliases : List EventSlugAlias
  pub students : Table Student
  pub enrollments : Table Enrollment
  pub stream_keys : Table StreamKey
  pub sessions : Table PublishSession
  pub groups : Table Group
  pub user_groups : List UserGroup
  pub event_groups : List EventGroup
  pub invites : Table InviteLink
