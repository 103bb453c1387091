-- ===== src/FileServer/Tests.antt =====
-- Ranges of a small file, and the theorem of this part at one.
use constrainable.Base.{◌≡◌, ◌||◌, ◌+◌, ◌-◌, refl, some, ltb, leb, if◌then◌else◌}
use constrainable.FileServer.{partial, unsatisfiable, serve_file}
use constrainable.FileServer.Ranges.{range_header, serve_file-range_header}

-- What Safari asks for first.
first_bytes : serve_file (some "bytes=0-1") 100 ≡ partial 0 1 100 2
unfolding serve_file
first_bytes = refl

open_end : serve_file (some "bytes=40-") 100 ≡ partial 40 99 100 60
unfolding serve_file
open_end = refl

-- The last 10 bytes are asked for, and the first 11 come.
last_bytes : serve_file (some "bytes=-10") 100 ≡ partial 0 10 100 11
unfolding serve_file
last_bytes = refl

empty_file : serve_file (some "bytes=0-") 0 ≡ unsatisfiable 0
unfolding serve_file
empty_file = refl

serve_file-range_header_example :
    serve_file (some (range_header 0 499)) 100
    ≡ (if ltb 499 0 || leb 100 0 then unsatisfiable 100 else partial 0 499 100 (499 - 0 + 1))
serve_file-range_header_example = serve_file-range_header 0 499 100
