-- ===== src/MediaNode/Verdicts.antt =====
-- The verdict on what a publisher declares of its stream.
use native.Mathlib.Nat.{div-lt_iff_lt-mul}
use constrainable.Base.{
  ◌<◌, ◌+◌, ◌*◌, ℕ, ◌≤◌, Bool, true, false, ◌||◌, ◌≡◌, ◌↔◌, ◌⊎◌, refl, inl, inr, some, List, [],
  ◌∷◌, ◌++◌, if◌then◌else◌, arith, or_else, holds,
}
use constrainable.Schema.{Limits, PublishSession}
use constrainable.Database.Sessions
use constrainable.Server.{Server, Breach}
use constrainable.Lifecycle.{exceeds}
use constrainable.ConfigStore.{get_limits_for}
use constrainable.MediaNode.{event_of}
use constrainable.MediaNode.Spec.{
  SpecPayload, Rate, math_round, video_kbps_of, audio_kbps_of, spec_allowed, spec_breaches,
  judge_spec, handle_spec,
}

-- There is no limit, or the value is within it.
abbrev pub IsWithin : ℕ → ℕ → Type 0
IsWithin limit value = (limit ≡ 0) ⊎ (value ≤ limit)

-- There is no limit, or the rate is less than half a kbps above it, which is what rounding lets
-- through.
abbrev pub RoundsWithin : ℕ → Rate → Type 0
RoundsWithin limit r = (limit ≡ 0) ⊎ (2 * r.over < (2 * limit + 1) * r.under)

-- Every declared value is within its limit, bitrates but for rounding.
abbrev pub Fits : SpecPayload → Limits → Type 0
Fits p l =
    IsWithin l.max_width p.width
    × IsWithin l.max_height p.height
    × IsWithin l.max_fps p.fps
    × RoundsWithin l.max_video_bitrate_kbps (or_else p.video_bitrate_kbps p.video_kbps)
    × RoundsWithin l.max_audio_bitrate_kbps p.audio_bitrate_kbps

exceeds_iff : (limit value : ℕ) → (exceeds limit value ≡ false) ↔ IsWithin limit value
exceeds_iff limit value = (λ h. ground (arith, h), λ h. ground (arith, h))

round_bound : (limit under : ℕ) → (limit + 1) * (2 * under) ≡ (2 * limit + 1) * under + under
round_bound limit under = omega arith

exceeds-math_round_iff :
    (limit : ℕ) (r : Rate) → (exceeds limit (math_round r) ≡ false) ↔ RoundsWithin limit r
unfolding math_round
exceeds-math_round_iff limit r =
    let d =
      div-lt_iff_lt-mul {k = 2 * r.under} {x = 2 * r.over + r.under} {y = limit + 1}
        (omega (arith, r.positive)) in
    (
      λ h. ground (arith, h, d, round_bound limit r.under),
      λ h. ground (arith, h, d, round_bound limit r.under),
    )

neither : (a b : Bool) → (a || b) ≡ false → (a ≡ false) × (b ≡ false)
neither false b h = (refl, h)
neither true b h = cc h

-- Nothing is listed exactly if no test passes.
listed_iff :
    {A : Type 0} (a b c d : Bool) (w x y z : A)
    → ((if a then w ∷ [] else [])
          ++ (if b then x ∷ [] else [])
          ++ (if c then y ∷ [] else [])
          ++ (if d then z ∷ [] else [])
        ≡ [])
      ↔ ((a ≡ false) × (b ≡ false) × (c ≡ false) × (d ≡ false))
listed_iff true b c d w x y z = (λ h. cc h, λ h. cc h.0)
listed_iff false true c d w x y z = (λ h. cc h, λ h. cc h.1)
listed_iff false false true d w x y z = (λ h. cc h, λ h. cc h.2)
listed_iff false false false true w x y z = (λ h. cc h, λ h. cc h.3)
listed_iff false false false false w x y z = (λ h. (refl, refl, refl, refl), λ h. refl)

spec_breaches_iff : (p : SpecPayload) (l : Limits) → (spec_breaches p l ≡ []) ↔ Fits p l
unfolding spec_breaches video_kbps_of audio_kbps_of
spec_breaches_iff p l =
    let wide = exceeds l.max_width p.width in
    let high = exceeds l.max_height p.height in
    let kbps = video_kbps_of p in
    let listed =
      listed_iff (wide || high) (exceeds l.max_fps p.fps) (exceeds l.max_video_bitrate_kbps kbps)
        (exceeds l.max_audio_bitrate_kbps (audio_kbps_of p)) Breach.declared_resolution
        Breach.declared_fps Breach.declared_bitrate Breach.audio_over in
    (
      λ h.
          let (size, fps, rate, audio) = listed.0 h in
          let (narrow, low) = neither wide high size in
          (
            (exceeds_iff l.max_width p.width).0 narrow,
            (exceeds_iff l.max_height p.height).0 low,
            (exceeds_iff l.max_fps p.fps).0 fps,
            (exceeds-math_round_iff l.max_video_bitrate_kbps
                  (or_else p.video_bitrate_kbps p.video_kbps)).0
                rate,
            (exceeds-math_round_iff l.max_audio_bitrate_kbps p.audio_bitrate_kbps).0 audio,
          ),
      λ (narrow, low, fps, rate, audio). listed.1 (
        rw ((exceeds_iff l.max_width p.width).1 narrow) ((exceeds_iff l.max_height p.height).1 low),
        (exceeds_iff l.max_fps p.fps).1 fps,
        (exceeds-math_round_iff l.max_video_bitrate_kbps
              (or_else p.video_bitrate_kbps p.video_kbps)).1
            rate,
        (exceeds-math_round_iff l.max_audio_bitrate_kbps p.audio_bitrate_kbps).1 audio,
      ),
    )

judge_spec_iff :
    (row : PublishSession) (strict : Bool) (bs : List Breach) (s : Server)
    → ((judge_spec row strict bs s).0 ≡ spec_allowed) ↔ ((strict ≡ false) ⊎ (bs ≡ []))
unfolding judge_spec
judge_spec_iff row strict [] s = (λ h. inr refl, λ h. refl)
judge_spec_iff row true (b ∷ bs) s = (λ h. cc h, λ h. elim h [ inl e ↦ cc e | inr e ↦ cc e ])
judge_spec_iff row false (b ∷ bs) s = (λ h. inl refl, λ h. refl)

-- The publisher of an open session is let through with what it declares exactly if its event is not
-- strict, or every declared value is within the limit that the event, or else the configuration, has
-- for it. A bitrate may be less than half a kbps above its limit.
pub handle_spec_iff :
    (global : Limits) (now : ℕ) (p : SpecPayload) (s : Server) (row : PublishSession)
    → Sessions.find_active_by_stream p.stream_name s.db.sessions.rows ≡ some row
    → let event = event_of row.event_id s.db.events.rows in
      ((handle_spec global now p s).0 ≡ spec_allowed)
      ↔ ((holds (λ e. e.strict_limits) event ≡ false) ⊎ Fits p (get_limits_for global event))
unfolding handle_spec
handle_spec_iff global now p s row found =
    let event = event_of row.event_id s.db.events.rows in
    let verdict =
      judge_spec_iff row (holds (λ e. e.strict_limits) event)
        (spec_breaches p (get_limits_for global event)) _ in
    let fit = spec_breaches_iff p (get_limits_for global event) in
    rw (handle_spec, found)
      (
        λ h. elim (verdict.0 h) [ inl e ↦ inl e | inr e ↦ inr (fit.0 e) ],
        λ h. verdict.1 (elim h [ inl e ↦ inl e | inr e ↦ inr (fit.1 e) ]),
      )
