-- ===== src/Events.antt =====
-- ops/events.py: the lines of the event log, the oldest first. A line is the encoding of one event.
pub mod Rotation
use android_farm.Prelude.{ℕ, ◌-◌, leb, List, [], ◌∷◌, ◌++◌, Text, length, drop, if◌then◌else◌}

abbrev pub max_lines : ℕ
max_lines = 5000

abbrev pub keep_lines : ℕ
keep_lines = 2000

-- `_rotate`, whose `lines[-KEEP_LINES:]` drops the lines before
unfoldable pub rotate : List Text → List Text
rotate lines =
    if leb (length lines) max_lines then lines else drop (length lines - keep_lines) lines

-- the two changes of the file in `record`: the line is appended, and the file rotated
unfoldable pub record_line : Text → List Text → List Text
record_line line lines = rotate (lines ++ line ∷ [])

unfoldable pub record_lines : List Text → List Text → List Text
record_lines [] lines = lines
record_lines (line ∷ rest) lines = record_lines rest (record_line line lines)
