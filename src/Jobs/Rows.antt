-- ===== src/Jobs/Rows.antt =====
-- Updates and searches of the table of jobs, row by row.
use android_farm.Prelude.{
  ◌≤◌, Text, text_eq, text_eq_iff, ◌≡◌, ◌≢◌, refl, sym, ap, ◌∙◌, Bool, true, false, List, [], ◌∷◌,
  ◌++◌, find, count_if, All, In, none, some, arith, if◌then◌else◌, Bool-cases, inl, inr,
}
use android_farm.Jobs.{Job, update_where, has_id}

-- a predicate of every row, carried through an update
pub All-update_where :
    {P Q : Job → Type 0} (test : Job → Bool) (change : Job → Job) (jobs : List Job)
    → ((j : Job) → P j → test j ≡ true → Q (change j))
    → ((j : Job) → P j → test j ≡ false → Q j)
    → All P jobs
    → All Q (update_where test change jobs)
unfolding update_where
All-update_where test change [] f g h = tt
All-update_where {P} {Q} test change (j ∷ jobs) f g h =
    (here (test j) refl, All-update_where test change jobs f g h.1)
  where
    here : (b : Bool) → test j ≡ b → Q (if b then change j else j)
    here true e = f j h.0 e
    here false e = g j h.0 e

pub All-append : (P : Job → Type 0) (xs ys : List Job) → All P xs → All P ys → All P (xs ++ ys)
All-append P [] ys f g = g
All-append P (x ∷ xs) ys f g = (f.0, All-append P xs ys f.1 g)

pub All-map :
    {P Q : Job → Type 0} (jobs : List Job) → ((j : Job) → P j → Q j) → All P jobs → All Q jobs
All-map [] f h = tt
All-map (j ∷ jobs) f h = (f j h.0, All-map jobs f h.1)

pub All-in : (P : Job → Type 0) (jobs : List Job) (j : Job) → All P jobs → In j jobs → P j
All-in P (k ∷ jobs) j h (inl e) = rw e h.0
All-in P (k ∷ jobs) j h (inr i) = All-in P jobs j h.1 i
All-in P [] j h i = absurd i

pub find-In :
    (p : Job → Bool) (jobs : List Job) (j : Job) → find p jobs ≡ some j → (p j ≡ true) × In j jobs
find-In p [] j h = cc
find-In p (k ∷ jobs) j h = ground (arith, find-In p jobs j)

pub find-none :
    (p : Job → Bool) (jobs : List Job) → find p jobs ≡ none → All (λ j. p j ≡ false) jobs
find-none p [] h = tt
find-none p (k ∷ jobs) h = (ground arith, find-none p jobs (ground arith))

-- no two rows have one value of a column
abbrev pub Unique : (Job → Text) → List Job → Type 0
Unique f [] = Unit
Unique f (j ∷ jobs) = All (λ k. f k ≢ f j) jobs × Unique f jobs

pub Unique-update_where :
    (f : Job → Text) (test : Job → Bool) (change : Job → Job) (jobs : List Job)
    → ((j : Job) → f (change j) ≡ f j)
    → Unique f jobs
    → Unique f (update_where test change jobs)
Unique-update_where f test change [] same h = unfold update_where in tt
Unique-update_where f test change (j ∷ jobs) same h =
    cons (test j) refl (Unique-update_where f test change jobs same h.1)
  where
    others : (x : Job) → f x ≡ f j → All (λ k. f k ≢ f x) (update_where test change jobs)
    others x e =
        All-update_where test change jobs (λ k n t p. n (sym (same k) ∙ (p ∙ e)))
          (λ k n t p. n (p ∙ e)) h.0

    cons :
        (b : Bool)
        → test j ≡ b
        → Unique f (update_where test change jobs)
        → Unique f (update_where test change (j ∷ jobs))
    cons true e ih = unfold update_where in rw e (others (change j) (same j), ih)
    cons false e ih = unfold update_where in rw e (others j refl, ih)

pub Unique-append :
    (f : Job → Text) (jobs : List Job) (j : Job)
    → All (λ k. f k ≢ f j) jobs
    → Unique f jobs
    → Unique f (jobs ++ j ∷ [])
Unique-append f [] j n h = (tt, tt)
Unique-append f (k ∷ jobs) j n h = (
  All-append (λ x. f x ≢ f k) jobs (j ∷ []) h.0 ((λ e. n.0 (sym e)), tt),
  Unique-append f jobs j n.1 h.1,
)

-- With unique identifiers, the row that was found is the only one that its identifier names.
pub Unique-In :
    (f : Job → Text) (jobs : List Job) (j : Job)
    → Unique f jobs
    → In j jobs
    → All (λ k. f k ≡ f j → k ≡ j) jobs
Unique-In f [] j h i = absurd i
Unique-In f (k ∷ jobs) j h (inl e) =
    ((λ _. sym e), All-map jobs (λ x n same. absurd (n (same ∙ ap f e))) h.0)
Unique-In f (k ∷ jobs) j h (inr i) =
    ((λ same. absurd (All-in (λ x. f x ≢ f k) jobs j h.0 i (sym same))), Unique-In f jobs j h.1 i)

-- An update that makes no row pass a test makes no more rows pass it.
pub count_if-update_where_le :
    (p test : Job → Bool) (change : Job → Job) (jobs : List Job)
    → All (λ j. test j ≡ true → p (change j) ≡ true → p j ≡ true) jobs
    → count_if p (update_where test change jobs) ≤ count_if p jobs
unfolding update_where
count_if-update_where_le p test change [] h = omega arith
count_if-update_where_le p test change (j ∷ jobs) h =
    ground (arith, h.0, count_if-update_where_le p test change jobs h.1)

-- Where no row passes the test, no more rows pass it than are updated.
pub count_if-update_where_fresh :
    (p test : Job → Bool) (change : Job → Job) (jobs : List Job)
    → All (λ j. p j ≡ false) jobs
    → count_if p (update_where test change jobs) ≤ count_if test jobs
unfolding update_where
count_if-update_where_fresh p test change [] h = omega arith
count_if-update_where_fresh p test change (j ∷ jobs) h =
    ground (arith, h.0, count_if-update_where_fresh p test change jobs h.1)

pub count_if-none :
    (p : Job → Bool) (jobs : List Job) → All (λ j. p j ≡ false) jobs → count_if p jobs ≡ 0
count_if-none p [] h = refl
count_if-none p (j ∷ jobs) h = ground (arith, h.0, count_if-none p jobs h.1)

pub has_id-false : (k : Job) (id : Text) → k.id ≢ id → has_id id k ≡ false
has_id-false k id n = elim (Bool-cases (text_eq k.id id)) [
  | inl e ↦ absurd (n ((text_eq_iff k.id id).0 e))
  | inr e ↦ e
]

pub count_if-has_id :
    (id : Text) (jobs : List Job) → Unique (λ j. j.id) jobs → count_if (has_id id) jobs ≤ 1
count_if-has_id id [] h = omega arith
count_if-has_id id (j ∷ jobs) h = elim (Bool-cases (text_eq j.id id)) [
  | inl here ↦
      let e : j.id ≡ id = (text_eq_iff j.id id).0 here in
      let z =
        count_if-none (has_id id) jobs
          (All-map jobs (λ k n. has_id-false k id (λ p. n (p ∙ sym e))) h.0) in
      ground (arith, here, z)
  | inr there ↦ ground (arith, there, count_if-has_id id jobs h.1)
]
