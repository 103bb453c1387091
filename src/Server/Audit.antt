-- ===== src/Server/Audit.antt =====
-- app/server/services/audit.ts: an entry goes to the log and to the bus. The JSON detail of an
-- entry, which no code reads back but to show it, is left out.
use constrainable.Base.{◌∷◌}
use constrainable.Server.{Server, BusEvent, AuditEntry, audit_created}

abbrev pub emit : BusEvent → Server → Server
emit e s = record s { bus = e ∷ s.bus }

abbrev pub audit : AuditEntry → Server → Server
audit entry s = record s { audit_log = entry ∷ s.audit_log; bus = audit_created entry ∷ s.bus }
