-- ===== src/Lifecycle/Limits.antt =====
-- The check of a probed stream against the limits.
use constrainable.Base.{ℕ, ◌≤◌, ◌≡◌, ◌⊎◌, ◌↔◌, false, [], arith}
use constrainable.Schema
use constrainable.Lifecycle.{exceeds}
use constrainable.Lifecycle.Monitor.{ProbeResult, check_limits}

-- A limit of 0 is none.
abbrev pub Fits : ℕ → ℕ → Type 0
Fits value limit = (limit ≡ 0) ⊎ (value ≤ limit)

pub record IsWithin (r : ProbeResult) (l : Schema.Limits) : Type 0 where
  pub width : Fits r.width l.max_width
  pub height : Fits r.height l.max_height
  pub fps : Fits r.fps l.max_fps
  pub bitrate : Fits r.video_bitrate_kbps l.max_video_bitrate_kbps

Fits-iff : (value limit : ℕ) → (exceeds limit value ≡ false) ↔ Fits value limit
Fits-iff value limit = ground arith

-- No reason is given exactly for a stream whose size, frame rate and video bitrate each fit the
-- limit, where there is one.
pub check_limits_iff :
    (r : ProbeResult) (l : Schema.Limits) → (check_limits r l ≡ []) ↔ IsWithin r l
unfolding check_limits
check_limits_iff r l = (
  λ h. record {
    width = ground arith;
    height = ground arith;
    fps = ground arith;
    bitrate = ground arith;
  },
  λ w. ground (arith, w.width, w.height, w.fps, w.bitrate),
)
