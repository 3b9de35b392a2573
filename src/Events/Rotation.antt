-- ===== src/Events/Rotation.antt =====
-- What the event log of ops/events.py keeps.
use android_farm.Prelude.{
  ℕ, ◌+◌, ◌-◌, ◌≤◌, ◌≡◌, refl, sym, ap, ◌∙◌, Bool, true, false, leb, List, [], ◌∷◌, ◌++◌, Text,
  length, take, drop, arith, ◌⊎◌, inl, inr, if◌then◌else◌, length-append, length-take,
  take-append-drop,
}
use mathlib.Core.List.{append_assoc, append-nil}
use android_farm.Events.{max_lines, keep_lines, rotate, record_line, record_lines}

-- the log is the end of what was recorded, is bounded, and has lost lines only if it has enough
pub record Keeps (all log : List Text) : Type 0 where
  pub dropped : List Text
  pub rest : dropped ++ log ≡ all
  pub bounded : length log ≤ max_lines
  pub enough : (dropped ≡ []) ⊎ (keep_lines ≤ length log)

drop_counts : (n : ℕ) (xs : List Text) → n ≤ length xs → length (drop n xs) + n ≡ length xs
drop_counts n xs h = omega (
  arith,
  length-take n xs,
  length-append (take n xs) (drop n xs),
  ap length (take-append-drop n xs),
)

rotate-Keeps :
    (all dropped lines : List Text)
    → dropped ++ lines ≡ all
    → (dropped ≡ []) ⊎ (keep_lines ≤ length lines)
    → Keeps all (rotate lines)
unfolding rotate
rotate-Keeps all dropped lines e f = go (leb (length lines) max_lines) refl
  where
    go :
        (b : Bool)
        → leb (length lines) max_lines ≡ b
        → Keeps all (if b then lines else drop (length lines - keep_lines) lines)
    go true p = record { dropped = dropped; rest = e; bounded = ground (arith, p); enough = f }
    go false p =
        let n : ℕ = length lines - keep_lines in
        let h : max_lines + 1 ≤ length lines = ground (arith, p) in
        let c = drop_counts n lines (omega arith) in
        record {
          dropped = dropped ++ take n lines;
          rest =
              append_assoc dropped (take n lines) (drop n lines)
              ∙ ap (λ r. dropped ++ r) (take-append-drop n lines)
              ∙ e;
          bounded = omega (arith, c, h);
          enough = inr (omega (arith, c, h));
        }

record_line-Keeps :
    (line : Text) (all log : List Text)
    → Keeps all log
    → Keeps (all ++ line ∷ []) (record_line line log)
unfolding record_line
record_line-Keeps line all log k =
    rotate-Keeps (all ++ line ∷ []) k.dropped (log ++ line ∷ [])
      (sym (append_assoc k.dropped log (line ∷ [])) ∙ ap (λ r. r ++ line ∷ []) k.rest)
      (more k.enough)
  where
    more :
        (k.dropped ≡ []) ⊎ (keep_lines ≤ length log)
        → (k.dropped ≡ []) ⊎ (keep_lines ≤ length (log ++ line ∷ []))
    more (inl e) = inl e
    more (inr h) = inr (omega (arith, length-append log (line ∷ []), h))

-- After any lines were recorded in a log, it is the end of all the lines, is within the bound, and
-- has lost none of them unless it still has as many as a rotation keeps.
pub record_lines-Keeps :
    (ls all log : List Text) → Keeps all log → Keeps (all ++ ls) (record_lines ls log)
unfolding record_lines
record_lines-Keeps [] all log k = rw (append-nil all) k
record_lines-Keeps (line ∷ ls) all log k = rw (sym (append_assoc all (line ∷ []) ls)) (
    record_lines-Keeps ls (all ++ line ∷ []) (record_line line log)
      (record_line-Keeps line all log k))
