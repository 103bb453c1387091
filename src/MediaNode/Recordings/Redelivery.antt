-- ===== src/MediaNode/Recordings/Redelivery.antt =====
-- A delivery that comes twice is merged once.
use constrainable.Base.{
  ℕ, String, Bool, true, ◌&&◌, ◌≡◌, some, List, ◌==◌, any, All, str_eq, or_else, holds,
}
use constrainable.Schema.Recording.{Recording}
use constrainable.Database.Recordings
use constrainable.MediaNode.Recordings.{Segment, RecordingReadyPayload, known_segments}

-- Is the path one of the texts?
abbrev pub is_known : List String → String → Bool
is_known known path = any (λ p. str_eq p path) known

abbrev pub AllKnown : List String → List Segment → Type 0
AllKnown known xs = All (λ x. is_known known x.rel_path ≡ true) xs

-- The recording has the same segments, size and length.
abbrev pub SameContent : Recording → Recording → Type 0
SameContent a b =
    (known_segments a ≡ known_segments b)
    × (a.size_bytes ≡ b.size_bytes)
    × (or_else a.duration_sec 0 ≡ or_else b.duration_sec 0)

module _ (now e : ℕ) (p : RecordingReadyPayload) (here : p.event_id ≡ some e) where
  abbrev here_too : Recording → Bool
  here_too r = holds (λ i. i == e) r.event_id && str_eq r.stream_name p.stream_name
