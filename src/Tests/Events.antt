-- ===== src/Tests/Events.antt =====
-- The theorem on the event log (ops/events.py) at concrete inputs.
use android_farm.Prelude.{codes, refl, inl, arith, List, [], ◌∷◌, ◌++◌, Text}
use android_farm.Events.{record_lines}
use android_farm.Events.Rotation.{Keeps, record_lines-Keeps}

abbrev old_log : List Text
old_log = codes "a" ∷ []

abbrev new_lines : List Text
new_lines = codes "b" ∷ codes "c" ∷ []

old_log-Keeps : Keeps old_log old_log
old_log-Keeps = record { dropped = []; rest = refl; bounded = omega arith; enough = inl refl }

record_lines-Keeps_example : Keeps (old_log ++ new_lines) (record_lines new_lines old_log)
record_lines-Keeps_example = record_lines-Keeps new_lines old_log old_log old_log-Keeps
