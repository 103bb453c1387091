-- ===== src/EventService/Calls.antt =====
-- Sequences of calls of app/server/services/events.ts keep its tables in order.
use constrainable.Base.{ℕ, List, [], ◌∷◌, Table, All, ap, ◌≡◌, true}
use constrainable.Schema.{Group}
use constrainable.Server.{Server}
use constrainable.EventService.{EventInput, create_event, update_event, groups_fit}
use constrainable.EventService.Removal.{delete_event}
use constrainable.EventService.Scopes.{
  create_event-groups, update_event-groups, delete_event-groups,
}
use constrainable.EventService.Invariant.{
  IsSound, create_event-IsSound, update_event-IsSound, delete_event-IsSound,
}

-- A call of the service.
pub data EventCall : Type 0 where
  create : (now : ℕ) (input : EventInput) → EventCall
  patch : (now i : ℕ) (input : EventInput) → EventCall
  delete : (i : ℕ) → EventCall

abbrev pub run_call : EventCall → Server → Server
run_call (create now input) s = (create_event now input s).1
run_call (patch now i input) s = (update_event now i input s).1
run_call (delete i) s = (delete_event i s).1

abbrev pub run_calls : List EventCall → Server → Server
run_calls [] s = s
run_calls (c ∷ cs) s = run_calls cs (run_call c s)

-- A creation names groups that are there, each once; what other calls ask is open.
abbrev pub NamesGroups : List Group → EventCall → Type 0
NamesGroups gs (create now input) = groups_fit input.group_ids gs ≡ true
NamesGroups gs (patch now i input) = Unit
NamesGroups gs (delete i) = Unit

-- No call of the service changes the table of groups.
run_call-groups : (c : EventCall) (s : Server) → (run_call c s).db.groups ≡ s.db.groups
run_call-groups (create now input) s = create_event-groups now input s
run_call-groups (patch now i input) s = update_event-groups now i input s
run_call-groups (delete i) s = delete_event-groups i s

run_call-IsSound :
    (c : EventCall) (s : Server)
    → IsSound s
    → NamesGroups s.db.groups.rows c
    → IsSound (run_call c s)
run_call-IsSound (create now input) s w known = create_event-IsSound now input s w known
run_call-IsSound (patch now i input) s w known = update_event-IsSound now i input s w
run_call-IsSound (delete i) s w known = delete_event-IsSound i s w

-- Whatever calls the service has answered, refused ones included, where creations name groups that
-- are there, each once, and the tables were sound before: an id and a key name at most one event, ids
-- stay below the sequence, and every retired key belongs to one event that is there, the one that has
-- the key if some event has it.
pub run_calls-IsSound :
    (cs : List EventCall) (s : Server)
    → IsSound s
    → All (NamesGroups s.db.groups.rows) cs
    → IsSound (run_calls cs s)
run_calls-IsSound [] s w known = w
run_calls-IsSound (c ∷ cs) s w known =
    run_calls-IsSound cs (run_call c s) (run_call-IsSound c s w known.0)
      (rw (ap (λ (t : Table Group). t.rows) (run_call-groups c s)) known.1)
