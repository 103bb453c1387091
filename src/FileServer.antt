-- ===== src/FileServer.antt =====
-- `serveFile` of app/server/api/recordings/[id]/file.get.ts: which bytes of a file a request for a range
-- gets. `Number.parseInt` is exact, which holds up to 2^53.
pub mod Ranges
mod Tests
use Prim.Native.Char.{code}
use constrainable.Base.{
  ℕ, ◌+◌, ◌-◌, String, ◌||◌, Option, some, none, is_empty, is_digit, str_drop, starts_with, leb,
  ltb, ◌==◌, value, if◌then◌else◌,
}

-- The digits at the start of a text, and the rest.
pub span_digits : String → String × String
span_digits String.[] = (String.[], String.[])
span_digits (String.◌∷◌ c s) =
    let rest = span_digits s in
    if is_digit (code c) then (String.◌∷◌ c rest.0, rest.1) else (String.[], String.◌∷◌ c s)

after_dash : String → String → Option (String × String)
unfolding span_digits
after_dash first String.[] = none
after_dash first (String.◌∷◌ c s) = if code c == b'-' then some (first, (span_digits s).0) else none

-- bytes=(\d*)-(\d*) at the start of a text: the two groups
pub match_here : String → Option (String × String)
unfolding span_digits after_dash
match_here s =
    if starts_with "bytes=" s
    then (let r = span_digits (str_drop 6 s) in after_dash r.0 r.1)
    else none

-- The first match in a text.
pub range_exec : String → Option (String × String)
unfolding match_here
range_exec String.[] = none
range_exec (String.◌∷◌ c s) =
    let rest = range_exec s in elim (match_here (String.◌∷◌ c s)) [ some m ↦ some m | none ↦ rest ]

-- A group with digits is a number.
pub group_value : String → Option ℕ
group_value g = if is_empty g then none else some (value 0 g)

pub data Served : Type 0 where
  -- 200
  whole : (content_length : ℕ) → Served
  -- 206, with `content-range: bytes start-end/size`
  partial : (start end size content_length : ℕ) → Served
  -- 416
  unsatisfiable : (size : ℕ) → Served

-- With no end, the end is the last byte: size - 1, which is -1 for the empty file.
serve_range : (start : ℕ) (end : Option ℕ) (size : ℕ) → Served
serve_range start none size =
    if leb size start
    then unsatisfiable size
    else partial start (size - 1) size (size - 1 - start + 1)
serve_range start (some end) size =
    if ltb end start || leb size start
    then unsatisfiable size
    else partial start end size (end - start + 1)

pub serve_file : (range : Option String) (size : ℕ) → Served
unfolding serve_range range_exec group_value
serve_file none size = whole size
serve_file (some range) size = if is_empty range then whole size else elim (range_exec range) [
  | none ↦ serve_range 0 none size
  | some (a, b) ↦ serve_range (elim (group_value a) [ none ↦ 0 | some n ↦ n ]) (group_value b) size
]
