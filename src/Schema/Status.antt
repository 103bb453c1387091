-- ===== src/Schema/Status.antt =====
-- The enumerated columns of app/server/database/schema.ts, and the reasons for which
-- app/server/services/access-control.ts refuses a publisher.
use constrainable.Base.{Bool, true, false}

pub data Role : Type 0 where
  admin user : Role

pub data EventStatus : Type 0 where
  draft scheduled live ended archived : EventStatus

pub data Visibility : Type 0 where
  everyone registered groups : Visibility

pub data EnrollmentStatus : Type 0 where
  invited active absent done : EnrollmentStatus

pub data SessionStatus : Type 0 where
  pending allowed rejected compliant violating killed ended : SessionStatus

pub data Reason : Type 0 where
  event_closed event_not_published_yet event_not_started_yet event_ended event_not_started : Reason
  missing_token bad_token key_revoked unknown_stream_name : Reason

abbrev pub is_live : EventStatus → Bool
is_live EventStatus.live = true
is_live _ = false

abbrev pub is_scheduled : EventStatus → Bool
is_scheduled EventStatus.scheduled = true
is_scheduled _ = false

abbrev pub is_draft : EventStatus → Bool
is_draft EventStatus.draft = true
is_draft _ = false

abbrev pub is_archived : EventStatus → Bool
is_archived EventStatus.archived = true
is_archived _ = false

abbrev pub is_killed : SessionStatus → Bool
is_killed SessionStatus.killed = true
is_killed _ = false

abbrev pub is_admin : Role → Bool
is_admin Role.admin = true
is_admin _ = false
