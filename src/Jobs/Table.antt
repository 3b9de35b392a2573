-- ===== src/Jobs/Table.antt =====
-- The table of services/api/jobs.py, transaction by transaction.
use android_farm.Prelude.{
  ℕ, ◌+◌, ◌≤◌, Text, codes, text_eq, text_eq_iff, ◌≡◌, ◌≢◌, refl, ◌∙◌, Bool, true, false, not, ◌||◌,
  List, [], ◌∷◌, ◌++◌, any, find, count_if, count_if-append, All, Option, none, some, arith, leb,
  Bool-cases, inl, inr, ◌⊎◌, ok,
}
use android_farm.Prelude.Dict.{Dict, lookup}
use android_farm.Json.{Json, or_null}
use android_farm.Jobs.{
  Job, queued, running, is_pending, is_queued, is_running, update_where, has_id, has_key, Request,
  Outcome, new_job, submit, cancel, claim, complete, ended, verdict, interrupt, recover,
  fingerprint_of, is_uuid,
}
use android_farm.Jobs.Rows.{
  All-update_where, All-append, All-map, find-In, find-none, Unique, Unique-update_where,
  Unique-append, Unique-In, count_if-update_where_le, count_if-update_where_fresh, count_if-has_id,
}

abbrev pub is_some : Option Text → Bool
is_some none = false
is_some (some _) = true

abbrev pub pending_count : List Job → ℕ
pending_count = count_if (λ j. is_pending j.state)

abbrev pub running_count : List Job → ℕ
running_count = count_if (λ j. is_running j.state)

-- The properties of the table alone.
pub record IsTable (max_pending : ℕ) (jobs : List Job) : Type 0 where
  pub ids : Unique (λ j. j.id) jobs
  pub keys : Unique (λ j. j.key) jobs
  pub bounded : pending_count jobs ≤ max_pending
  pub payloads : All (λ j. is_some j.payload ≡ is_pending j.state) jobs
  pub single : running_count jobs ≤ 1

-- An update after which no more rows are pending, and at most one is running.
record IsSafe (test : Job → Bool) (change : Job → Job) (jobs : List Job) : Type 0 where
  same_id : (j : Job) → (change j).id ≡ j.id
  same_key : (j : Job) → (change j).key ≡ j.key
  pends :
      All (λ j. test j ≡ true → is_pending (change j).state ≡ true → is_pending j.state ≡ true) jobs
  single : running_count (update_where test change jobs) ≤ 1
  pays : All (λ j. test j ≡ true → is_some (change j).payload ≡ is_pending (change j).state) jobs

All-both :
    (P Q : Job → Type 0) (jobs : List Job) → All P jobs → All Q jobs → All (λ j. P j × Q j) jobs
All-both P Q [] f g = tt
All-both P Q (j ∷ jobs) f g = ((f.0, g.0), All-both P Q jobs f.1 g.1)

module _ (max_pending : ℕ) (jobs : List Job) (t : IsTable max_pending jobs) where
  update-payloads :
      (test : Job → Bool) (change : Job → Job)
      → All (λ j. test j ≡ true → is_some (change j).payload ≡ is_pending (change j).state) jobs
      → All (λ j. is_some j.payload ≡ is_pending j.state) (update_where test change jobs)
  update-payloads test change h =
      All-update_where test change jobs (λ j x e. x.1 e) (λ j x e. x.0)
        (All-both (λ j. is_some j.payload ≡ is_pending j.state)
          (λ j. test j ≡ true → is_some (change j).payload ≡ is_pending (change j).state) jobs
          t.payloads h)

  update-IsTable :
      (test : Job → Bool) (change : Job → Job)
      → IsSafe test change jobs
      → IsTable max_pending (update_where test change jobs)
  update-IsTable test change s = record {
    ids = Unique-update_where (λ j. j.id) test change jobs s.same_id t.ids;
    keys = Unique-update_where (λ j. j.key) test change jobs s.same_key t.keys;
    bounded = omega (
      arith,
      t.bounded,
      count_if-update_where_le (λ j. is_pending j.state) test change jobs s.pends,
    );
    payloads = update-payloads test change s.pays;
    single = s.single;
  }

All-const : (P : Job → Type 0) (jobs : List Job) → ((j : Job) → P j) → All P jobs
All-const P [] f = tt
All-const P (j ∷ jobs) f = (f j, All-const P jobs f)

-- A change to a final state is safe, wherever it is made.
ends_safely :
    (test : Job → Bool) (change : Job → Job) (jobs : List Job)
    → ((j : Job) → ((change j).id ≡ j.id) × ((change j).key ≡ j.key))
    → ((j : Job)
        → (is_pending (change j).state ≡ false)
          × (is_running (change j).state ≡ false)
          × ((change j).payload ≡ none))
    → running_count jobs ≤ 1
    → IsSafe test change jobs
ends_safely test change jobs same final single = record {
  same_id = λ j. (same j).0;
  same_key = λ j. (same j).1;
  pends = All-const _ jobs (λ j _ e. ground (arith, (final j).0));
  single = omega (
    arith,
    single,
    count_if-update_where_le (λ j. is_running j.state) test change jobs
        (All-const _ jobs (λ j _ e. ground (arith, (final j).1))),
  );
  pays = All-const _ jobs (λ j _. rw ((final j).0, (final j).2) refl);
}

module _ (max_pending : ℕ) (jobs : List Job) (t : IsTable max_pending jobs) where
  pub recover-IsTable : (now : ℕ) → IsTable max_pending (recover now jobs)
  unfolding recover
  recover-IsTable now =
      update-IsTable max_pending jobs t _ _
        (ends_safely _ _ jobs (λ j. (refl, refl)) (λ j. (refl, refl, refl)) t.single)

  pub interrupt-IsTable : (now : ℕ) → IsTable max_pending (interrupt now jobs)
  unfolding interrupt
  interrupt-IsTable now =
      update-IsTable max_pending jobs t _ _
        (ends_safely _ _ jobs (λ j. (refl, refl)) (λ j. (refl, refl, refl)) t.single)

  pub complete-IsTable :
      (now : ℕ) (id : Text) (outcome : Outcome) → IsTable max_pending (complete now id outcome jobs)
  unfolding complete
  complete-IsTable now id outcome =
      update-IsTable max_pending jobs t (has_id id) (ended now outcome) (
        ends_safely (has_id id) (ended now outcome) jobs (λ j. (refl, refl))
          (λ j. ((ends outcome).0, (ends outcome).1, refl)) t.single)
    where
      ends : (o : Outcome) → (is_pending (verdict o).0 ≡ false) × (is_running (verdict o).0 ≡ false)
      ends o = unfold verdict in ground arith

  pub cancel-IsTable : (now : ℕ) (id : Text) → IsTable max_pending (cancel now id jobs).1
  unfolding cancel
  cancel-IsTable now id = go (find (has_id id) jobs) refl
    where
      go : (o : Option Job) → find (has_id id) jobs ≡ o → IsTable max_pending (cancel now id jobs).1
      go none e = rw (e, cancel) t
      go (some j) e =
          rw (e, cancel)
            (elim (Bool-cases (is_queued j.state)) [
              | inl q ↦ rw q (
                  update-IsTable max_pending jobs t _ _
                    (ends_safely _ _ jobs (λ j. (refl, refl)) (λ j. (refl, refl, refl)) t.single))
              | inr q ↦ rw q t
            ])

  -- the row that is claimed is the only one that changes
  claim-IsSafe :
      (now : ℕ) (j : Job)
      → find (λ k. is_queued k.state) jobs ≡ some j
      → All (λ k. is_running k.state ≡ false) jobs
      → IsSafe (has_id j.id) (λ k. record k { state = running; updated_at = now }) jobs
  claim-IsSafe now j e idle = record {
    same_id = λ k. refl;
    same_key = λ k. refl;
    pends = All-map jobs (λ k x h _. pending k (x ((text_eq_iff k.id j.id).0 h))) only;
    single = omega (
      arith,
      count_if-has_id j.id jobs t.ids,
      count_if-update_where_fresh (λ k. is_running k.state) (has_id j.id)
          (λ k. record k { state = running; updated_at = now }) jobs idle,
    );
    pays =
        All-map jobs (λ k x h. x.1 ∙ pending k (x.0 ((text_eq_iff k.id j.id).0 h)))
          (All-both _ (λ k. is_some k.payload ≡ is_pending k.state) jobs only t.payloads);
  }
    where
      only : All (λ k. k.id ≡ j.id → k ≡ j) jobs
      only = Unique-In (λ k. k.id) jobs j t.ids (find-In (λ k. is_queued k.state) jobs j e).1

      pending : (k : Job) → k ≡ j → is_pending k.state ≡ true
      pending k same =
          let q : is_queued j.state ≡ true = (find-In (λ k. is_queued k.state) jobs j e).0 in
          rw same (ground arith)

  pub claim-IsTable :
      (now : ℕ)
      → All (λ k. is_running k.state ≡ false) jobs
      → IsTable max_pending (claim now jobs).1
  unfolding claim
  claim-IsTable now idle = go (find (λ k. is_queued k.state) jobs) refl
    where
      go :
          (o : Option Job)
          → find (λ k. is_queued k.state) jobs ≡ o
          → IsTable max_pending (claim now jobs).1
      go none e = rw (e, claim) t
      go (some j) e =
          rw (e, claim)
            (update-IsTable max_pending jobs t (has_id j.id) _ (claim-IsSafe now j e idle))

All-false : (p : Job → Bool) (jobs : List Job) → any p jobs ≡ false → All (λ j. p j ≡ false) jobs
All-false p [] h = tt
All-false p (j ∷ jobs) h = (ground arith, All-false p jobs (ground arith))

differs : (a b : Text) → text_eq a b ≡ false → a ≢ b
differs a b h e = ground (arith, (text_eq_iff a b).1 e)

module _ (dumps : Dict Json → Text) (digest : Text → Text) (max_pending : ℕ) (jobs : List Job)
    (t : IsTable max_pending jobs) (r : Request) where
  append-IsTable :
      (j : Job)
      → pending_count jobs + 1 ≤ max_pending
      → All (λ k. has_id j.id k ≡ false) jobs
      → All (λ k. has_key j.key k ≡ false) jobs
      → j.state ≡ queued
      → is_some j.payload ≡ true
      → IsTable max_pending (jobs ++ j ∷ [])
  append-IsTable j room ids keys q p = record {
    ids = Unique-append (λ k. k.id) jobs j (All-map jobs (λ k. differs k.id j.id) ids) t.ids;
    keys = Unique-append (λ k. k.key) jobs j (All-map jobs (λ k. differs k.key j.key) keys) t.keys;
    bounded = rw (count_if-append (λ k. is_pending k.state) jobs (j ∷ [])) (rw q (omega arith));
    payloads =
        All-append (λ k. is_some k.payload ≡ is_pending k.state) jobs (j ∷ []) t.payloads
          (rw q p, tt);
    single =
        rw (count_if-append (λ k. is_running k.state) jobs (j ∷ []))
          (rw q (omega (arith, t.single)));
  }

  -- the row that the request adds, with an action
  abbrev pub request_job : Json → Job
  request_job action =
      new_job r.job_id r.key (fingerprint_of dumps digest max_pending r) action
        (or_null (lookup (codes "device") r.payload)) r.actor r.now (dumps r.payload)

  -- what a request that is added has passed
  pub record Added : Type 0 where
    pub action : Json
    pub valid : is_uuid r.key ≡ true
    pub given : lookup (codes "action") r.payload ≡ some action
    pub new_key : find (has_key r.key) jobs ≡ none
    pub new_id : any (has_id r.job_id) jobs ≡ false
    pub room : leb max_pending (pending_count jobs) ≡ false
    pub outcome :
        submit dumps digest max_pending r jobs
        ≡ (ok (request_job action, true), jobs ++ request_job action ∷ [])

  -- a request that adds nothing, and is not answered as if it did
  pub record NotAdded : Type 0 where
    pub same : (submit dumps digest max_pending r jobs).1 ≡ jobs
    pub not_new :
        (j : Job) (l : List Job) → submit dumps digest max_pending r jobs ≢ (ok (j, true), l)

  -- `submit` adds one row or leaves the table as it was.
  pub submit_cases : Added ⊎ NotAdded
  unfolding submit
  submit_cases =
      go (is_uuid r.key) refl (find (has_key r.key) jobs) refl
        (leb max_pending (pending_count jobs)) refl (lookup (codes "action") r.payload) refl
        (any (has_id r.job_id) jobs) refl
    where
      go :
          (v : Bool)
          → is_uuid r.key ≡ v
          → (o : Option Job) → find (has_key r.key) jobs ≡ o
          → (f : Bool) → leb max_pending (pending_count jobs) ≡ f
          → (a : Option Json) → lookup (codes "action") r.payload ≡ a
          → (d : Bool) → any (has_id r.job_id) jobs ≡ d
          → Added ⊎ NotAdded
      go true v none k false f (some a) e false d = inl (record {
        action = a;
        valid = v;
        given = e;
        new_key = k;
        new_id = d;
        room = f;
        outcome = rw (v, k, f, e, d) refl;
      })
      go true v none k false f (some a) e true d =
          inr (record { same = rw (v, k, f, e, d) refl; not_new = λ j l x. ground arith })
      go true v none k false f none e b d =
          inr (record { same = rw (v, k, f, e) refl; not_new = λ j l x. ground arith })
      go true v none k true f a e b d =
          inr (record { same = rw (v, k, f) refl; not_new = λ j l x. ground arith })
      go true v (some j) k f g a e b d = inr (
          known j v k
            (not (text_eq j.fingerprint (fingerprint_of dumps digest max_pending r))
              || not (text_eq j.actor r.actor))
            refl)
        where
          known :
              (j : Job)
              → is_uuid r.key ≡ true
              → find (has_key r.key) jobs ≡ some j
              → (c : Bool)
              → (not (text_eq j.fingerprint (fingerprint_of dumps digest max_pending r))
                  || not (text_eq j.actor r.actor))
                ≡ c
              → NotAdded
          known j v k true c = record { same = rw (v, k, c) refl; not_new = λ x l y. ground arith }
          known j v k false c = record { same = rw (v, k, c) refl; not_new = λ x l y. ground arith }
      go false v o k f g a e b d =
          inr (record { same = rw v refl; not_new = λ j l x. ground arith })

  pub submit-IsTable : IsTable max_pending (submit dumps digest max_pending r jobs).1
  submit-IsTable = elim submit_cases [
    | inl a ↦ rw a.outcome (
        append-IsTable (request_job a.action) (ground (arith, a.room))
          (All-false (has_id r.job_id) jobs a.new_id) (find-none (has_key r.key) jobs a.new_key)
          refl refl)
    | inr n ↦ rw n.same t
  ]
