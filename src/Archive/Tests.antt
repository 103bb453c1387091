-- ===== src/Archive/Tests.antt =====
-- A sweep over two recordings, and the theorem of this part at it.
use constrainable.Base.{
  ◌≤◌, ◌<◌, ◌≡◌, ◌↔◌, inl, inr, refl, String, some, none, [], ◌∷◌, Elem, arith, ap,
}
use constrainable.Schema.{timestamp}
use constrainable.Schema.Recording.{Recording}
use constrainable.Archive.{Archive, segments_of, run_retention}
use constrainable.Archive.Retention.{cutoff, run_retention-left}
use constrainable.Samples.{server}

abbrev old_row : Recording
old_row = record {
  id = 1;
  event_id = none;
  session_id = none;
  stream_name = "alice";
  student_label = none;
  node_id = none;
  segments = some ("a/1.mkv" ∷ "a/2.mkv" ∷ []);
  file_path = "a/1.mkv";
  size_bytes = 10;
  duration_sec = none;
  width = none;
  height = none;
  started_at = 1000;
  ended_at = none;
}

abbrev new_row : Recording
new_row = record old_row { id = 2; segments = none; file_path = "b/1.mp4"; started_at = 200000000 }

abbrev archive : Archive
archive = record {
  server = server;
  recordings = record { rows = old_row ∷ new_row ∷ []; next_id = 3 };
  files = "a/1.mkv" ∷ "b/1.mp4" ∷ "a/2.mkv" ∷ [];
  tmp = record { name = "concat"; mtime_ms = 0 } ∷ [];
  frames = [];
}

left_files : (run_retention 200000000 1 archive).1.files ≡ "b/1.mp4" ∷ []
unfolding run_retention timestamp
left_files = refl

counted : (run_retention 200000000 1 archive).0 ≡ record { deleted = 1; orphans = 1 }
unfolding run_retention timestamp
counted = refl

ids :
    (x y : Recording)
    → Elem x (old_row ∷ new_row ∷ [])
    → Elem y (old_row ∷ new_row ∷ [])
    → x.id ≡ y.id
    → x ≡ y
ids x y (inl p) (inl q) e = cc
ids x y (inl p) (inr (inl q)) e =
    absurd (ground (arith, ap (λ (r : Recording). r.id) p, ap (λ (r : Recording). r.id) q))
ids x y (inr (inl p)) (inl q) e =
    absurd (ground (arith, ap (λ (r : Recording). r.id) p, ap (λ (r : Recording). r.id) q))
ids x y (inr (inl p)) (inr (inl q)) e = cc
ids x y (inr (inr p)) n e = absurd p
ids x y m (inr (inr q)) e = absurd q

run_retention-left_example :
    ((x : Recording)
      → Elem x (run_retention 200000000 1 archive).1.recordings.rows
        ↔ (Elem x archive.recordings.rows × (cutoff 200000000 1 ≤ x.started_at)))
    × ((f : String)
        → Elem f (run_retention 200000000 1 archive).1.files ↔ (
            Elem f archive.files
            × ((r : Recording)
                → Elem r archive.recordings.rows
                → r.started_at < cutoff 200000000 1
                → Elem f (segments_of r)
                → ⊥)))
run_retention-left_example = run_retention-left 200000000 1 archive (λ e. cc) ids
