-- ===== src/Assignment.antt =====
-- The allocator of app/server/services/node-assignment.ts: the node for a user. The ratio of two
-- counts is compared exactly; the rounding of JavaScript's division is left out. The reads of
-- app/server/repositories/node-settings.repository.ts and node-latencies.repository.ts are arguments:
-- the cap of a node, the number of users it has, and the latency that the user measured.
pub mod Quota
mod Tests
use constrainable.Base.{
  ℕ, ◌*◌, String, Bool, true, false, ◌&&◌, ◌||◌, Option, some, none, List, [], ◌∷◌, ltb, ◌==◌, max,
  filter, sort_by,
}
use constrainable.Server.{MediaNodeInfo}

pub record Candidate : Type 0 where
  pub node_id : String
  -- none: not measured, which counts as infinite
  pub latency : Option ℕ
  pub assigned : ℕ
  pub max_users : ℕ

abbrev pub under_quota : Candidate → Bool
under_quota c = ltb c.assigned c.max_users

abbrev pub lower_ratio : Candidate → Candidate → Bool
lower_ratio a b = ltb (a.assigned * max 1 b.max_users) (b.assigned * max 1 a.max_users)

abbrev pub same_ratio : Candidate → Candidate → Bool
same_ratio a b = (a.assigned * max 1 b.max_users) == (b.assigned * max 1 a.max_users)

abbrev pub faster : Option ℕ → Option ℕ → Bool
faster none l = false
faster (some k) none = true
faster (some k) (some l) = ltb k l

-- Neither is less: two that are not measured differ by NaN, which is no difference.
abbrev pub as_fast : Option ℕ → Option ℕ → Bool
as_fast none none = true
as_fast none (some l) = false
as_fast (some k) none = false
as_fast (some k) (some l) = k == l

-- a.latency - b.latency || a.ratio - b.ratio
pub before_free : Candidate → Candidate → Bool
before_free a b = faster a.latency b.latency || (as_fast a.latency b.latency && lower_ratio a b)

-- a.ratio - b.ratio || a.latency - b.latency
pub before_full : Candidate → Candidate → Bool
before_full a b = lower_ratio a b || (same_ratio a b && faster a.latency b.latency)

module _ (cap count : String → ℕ) (measured : String → Option ℕ) where
  pub candidates : List MediaNodeInfo → List Candidate
  candidates [] = []
  candidates (n ∷ ns) =
      record {
        node_id = n.node_id;
        latency = measured n.node_id;
        assigned = count n.node_id;
        max_users = cap n.node_id;
      }
      ∷ candidates ns

first_id : List Candidate → Option String
first_id [] = none
first_id (c ∷ cs) = some c.node_id

pub pick : List Candidate → Option String
unfolding before_free before_full first_id
pick cs = elim (sort_by before_free (filter under_quota cs)) [
  | c ∷ rest ↦ some c.node_id
  | [] ↦ first_id (sort_by before_full cs)
]

-- `nodes` is what `listNodes` gives.
pub allocate :
    (String → ℕ) → (String → ℕ) → (String → Option ℕ) → List MediaNodeInfo → Option String
unfolding candidates pick
allocate cap count measured nodes = pick (candidates cap count measured nodes)
