-- ===== src/ConfigStore.antt =====
-- `getLimitsFor` of app/server/utils/config-store.ts: the global limits, with what an event overrides.
use constrainable.Base.{Option, none, some, or_else, or_option}
use constrainable.Schema.{Limits, LimitsOverride, Event}

abbrev merged : Limits → LimitsOverride → Limits
merged g o = record {
  max_width = or_else o.max_width g.max_width;
  max_height = or_else o.max_height g.max_height;
  max_fps = or_else o.max_fps g.max_fps;
  max_video_bitrate_kbps =
      or_else (or_option o.max_video_bitrate_kbps o.max_bitrate_kbps) g.max_video_bitrate_kbps;
  max_audio_bitrate_kbps = or_else o.max_audio_bitrate_kbps g.max_audio_bitrate_kbps;
}

unfoldable pub get_limits_for : Limits → Option Event → Limits
get_limits_for g none = g
get_limits_for g (some e) = elim e.limits_override [ none ↦ g | some o ↦ merged g o ]
