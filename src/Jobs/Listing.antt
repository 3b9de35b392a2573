-- ===== src/Jobs/Listing.antt =====
-- The list of jobs that services/api/jobs.py shows.
use mathlib.Core.List.{Perm, perm_middle, append-nil}
use mathlib.Core.List.Perm
use android_farm.Prelude.{
  ℕ, suc, ◌≤◌, Text, ◌≡◌, refl, List, [], ◌∷◌, ◌++◌, map, All, arith, leb, Bool-cases, inl, inr,
  length, take, drop, min, take-append-drop, length-take, zero,
}
use android_farm.Json.{Json}
use android_farm.Jobs.{Job, public, insert_newest, newest_first, list_jobs, list_limit}
use android_farm.Jobs.Rows.{All-map}

-- no row stands before a newer one
abbrev pub IsNewestFirst : List Job → Type 0
IsNewestFirst [] = Unit
IsNewestFirst (j ∷ jobs) = All (λ k. k.created_at ≤ j.created_at) jobs × IsNewestFirst jobs

All-insert_newest :
    (P : Job → Type 0) (j : Job) (jobs : List Job) → P j → All P jobs → All P (insert_newest j jobs)
unfolding insert_newest
All-insert_newest P j [] p h = (p, tt)
All-insert_newest P j (k ∷ jobs) p h = elim (Bool-cases (leb k.created_at j.created_at)) [
  | inl e ↦ rw e (p, h)
  | inr e ↦ rw e (h.0, All-insert_newest P j jobs p h.1)
]

insert_newest-IsNewestFirst :
    (j : Job) (jobs : List Job) → IsNewestFirst jobs → IsNewestFirst (insert_newest j jobs)
unfolding insert_newest
insert_newest-IsNewestFirst j [] h = (tt, tt)
insert_newest-IsNewestFirst j (k ∷ jobs) h = elim (Bool-cases (leb k.created_at j.created_at)) [
  | inl e ↦
      let first : k.created_at ≤ j.created_at = ground arith in
      rw e ((first, All-map jobs (λ x l. omega arith) h.0), h)
  | inr e ↦ rw e (
    All-insert_newest (λ x. x.created_at ≤ k.created_at) j jobs (ground arith) h.0,
    insert_newest-IsNewestFirst j jobs h.1,
  )
]

newest_first-IsNewestFirst :
    (sorted jobs : List Job) → IsNewestFirst sorted → IsNewestFirst (newest_first sorted jobs)
unfolding newest_first
newest_first-IsNewestFirst sorted [] h = h
newest_first-IsNewestFirst sorted (j ∷ jobs) h =
    newest_first-IsNewestFirst (insert_newest j sorted) jobs
      (insert_newest-IsNewestFirst j sorted h)

insert_newest-perm : (j : Job) (jobs : List Job) → Perm (insert_newest j jobs) (j ∷ jobs)
unfolding insert_newest
insert_newest-perm j [] = Perm.refl (j ∷ [])
insert_newest-perm j (k ∷ jobs) = elim (Bool-cases (leb k.created_at j.created_at)) [
  | inl e ↦ rw e (Perm.refl (j ∷ k ∷ jobs))
  | inr e ↦ rw e (Perm.trans (Perm.cons k (insert_newest-perm j jobs)) (Perm.swap j k jobs))
]

newest_first-perm : (sorted jobs : List Job) → Perm (newest_first sorted jobs) (sorted ++ jobs)
unfolding newest_first
newest_first-perm sorted [] = rw append-nil (Perm.refl sorted)
newest_first-perm sorted (j ∷ jobs) = Perm.trans (newest_first-perm (insert_newest j sorted) jobs) (
    Perm.trans (Perm.append (insert_newest-perm j sorted) (Perm.refl jobs))
      (Perm.symm (perm_middle sorted jobs)))

All-drop : (P : Job → Type 0) (n : ℕ) (jobs : List Job) → All P jobs → All P (drop n jobs)
All-drop P zero jobs h = h
All-drop P (suc n) [] h = h
All-drop P (suc n) (j ∷ jobs) h = All-drop P n jobs h.1

All-take : (P : Job → Type 0) (n : ℕ) (jobs : List Job) → All P jobs → All P (take n jobs)
All-take P zero jobs h = tt
All-take P (suc n) [] h = h
All-take P (suc n) (j ∷ jobs) h = (h.0, All-take P n jobs h.1)

take-IsNewestFirst : (n : ℕ) (jobs : List Job) → IsNewestFirst jobs → IsNewestFirst (take n jobs)
take-IsNewestFirst zero jobs h = tt
take-IsNewestFirst (suc n) [] h = h
take-IsNewestFirst (suc n) (j ∷ jobs) h =
    (All-take (λ k. k.created_at ≤ j.created_at) n jobs h.0, take-IsNewestFirst n jobs h.1)

none_newer :
    (jobs : List Job) → All (λ (k : Job). All (λ (j : Job). k.created_at ≤ j.created_at) []) jobs
none_newer [] = tt
none_newer (j ∷ jobs) = (tt, none_newer jobs)

both_newer :
    (j : Job) (shown rest : List Job)
    → All (λ k. k.created_at ≤ j.created_at) rest
    → All (λ k. All (λ j. k.created_at ≤ j.created_at) shown) rest
    → All (λ k. All (λ j. k.created_at ≤ j.created_at) (j ∷ shown)) rest
both_newer j shown [] f g = tt
both_newer j shown (k ∷ rest) f g = ((f.0, g.0), both_newer j shown rest f.1 g.1)

take-newer :
    (n : ℕ) (jobs : List Job)
    → IsNewestFirst jobs
    → All (λ k. All (λ j. k.created_at ≤ j.created_at) (take n jobs)) (drop n jobs)
take-newer zero jobs h = none_newer jobs
take-newer (suc n) [] h = tt
take-newer (suc n) (j ∷ jobs) h =
    both_newer j (take n jobs) (drop n jobs)
      (All-drop (λ k. k.created_at ≤ j.created_at) n jobs h.0) (take-newer n jobs h.1)

-- A listing shows 200 rows, or all if there are fewer, the newest first; the rows that it shows and
-- those that it leaves out are together the table, and none that is left out is newer than one
-- that is shown.
pub list_jobs-newest :
    (loads : Text → Json) (jobs : List Job)
    → (shown : List Job) × (rest : List Job) × (list_jobs loads jobs ≡ map (public loads) shown)
      × Perm (shown ++ rest) jobs
      × (length shown ≡ min list_limit (length (shown ++ rest)))
      × IsNewestFirst shown
      × All (λ k. All (λ j. k.created_at ≤ j.created_at) shown) rest
unfolding list_jobs
list_jobs-newest loads jobs =
    let sorted = newest_first [] jobs in
    let order = newest_first-IsNewestFirst [] jobs tt in
    let whole = take-append-drop list_limit sorted in
    (
      take list_limit sorted,
      drop list_limit sorted,
      refl,
      rw whole (newest_first-perm [] jobs),
      rw whole (length-take list_limit sorted),
      take-IsNewestFirst list_limit sorted order,
      take-newer list_limit sorted order,
    )
