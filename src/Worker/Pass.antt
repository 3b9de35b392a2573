-- ===== src/Worker/Pass.antt =====
-- A pass of the loop of services/worker/worker.py is a history of scripts.
use android_farm.Prelude.{
  ℕ, zero, suc, Text, text_eq, not, ◌&&◌, ◌≡◌, refl, sym, ap, ◌∙◌, Bool, true, false, List, [], ◌∷◌,
  ◌++◌, all, Option, none, some, Result, ok, err, if◌then◌else◌, arith,
}
use android_farm.Prelude.Int.{pos, negsuc}
use android_farm.Worker.Redis.{
  Redis, Script, done, updates, fetches, attempts, scores, ◌>>=◌, do_fetch, run, hget, running,
}
use android_farm.Worker.Task.{Task, Config, Env, command_for}
use android_farm.Worker.Queue
use android_farm.Worker.History.{
  Event, promoted, pruned, taken, settled, orphan_reclaimed, lease_reclaimed, lease_read,
  lease_dropped, acquired, released, finished, failed, deferred, script, run_all, or_nothing,
  Effect,
}
use android_farm.Worker.Named.{Named}
use android_farm.Worker.Kept.{Tracked}
use android_farm.Worker.Survive.{spares, history-Tracked}
use android_farm.Worker.Run.{
  Outcome, exited, caught, uncaught, Between, Expired, Pass, run_after, returned, finish_task,
  fail_task, end_task, run_command, run_result, execute_locked, execute_one, count_scripts,
  prune_all, promote_due, orphan_script, reclaim_orphans, reclaim_found, reclaim_one, add_reclaimed,
  reclaim_rest, reclaim_expired, reserve_taken, reserve, run_reserved, run_next, run_pass,
}

-- what is computed from the answer of a script does not change the data
run-then :
    (r : Redis) {A B : Type 0} (p : Script A) (g : A → B) (d : r.Db)
    → (run r (p >>= λ a. done (g a)) d).1 ≡ (run r p d).1
unfolding run
run-then r (done a) g d = refl
run-then r (updates c p) g d = run-then r p g (r.update c d)
run-then r (fetches c p) g d = run-then r (p (r.fetch c d).0) g (r.fetch c d).1
run-then r (attempts c p) g d = run-then r (p (r.attempt c d).0) g (r.attempt c d).1
run-then r (scores k m p) g d = run-then r (p (r.zscore k m d)) g d

module _ (env : Env) (c : Config) (r : Redis) where
  run_all-append :
      (es fs : List Event) (d : r.Db)
      → (run_all env c r (es ++ fs) d).1 ≡ (run_all env c r fs (run_all env c r es d).1).1
  unfolding run_all
  run_all-append [] fs d = refl
  run_all-append (e ∷ es) fs d = run_all-append es fs (run r (script env c e) d).1

  -- The data come from others by a history that spares a task.
  abbrev pub Reaches : Text → r.Db → r.Db → Type 0
  Reaches id d d' =
      (es : List Event) × (all (spares id) es ≡ true) × (d' ≡ (run_all env c r es d).1)

  module _ (id : Text) where
    stays : (d : r.Db) → Reaches id d d
    unfolding run_all
    stays d = ([], refl, refl)

    step : (e : Event) (d : r.Db) → spares id e ≡ true → Reaches id d (run r (script env c e) d).1
    unfolding run_all
    step e d h = (e ∷ [], ground (arith, h), refl)

    all-append :
        (p : Event → Bool) (es fs : List Event)
        → all p es ≡ true
        → all p fs ≡ true
        → all p (es ++ fs) ≡ true
    all-append p [] fs h k = k
    all-append p (e ∷ es) fs h k = ground (arith, h, all-append p es fs (ground (arith, h)) k)

    joins : (a b d : r.Db) → Reaches id a b → Reaches id b d → Reaches id a d
    joins a b d (es, h, x) (fs, k, y) = (
      es ++ fs,
      all-append (spares id) es fs h k,
      y ∙ ap (λ z. (run_all env c r fs z).1) x ∙ sym (run_all-append es fs a),
    )

    -- the script of an event as the code calls it
    called :
        {A : Type 0} (e : Event) (p : Script A) (g : A → Effect) (d : r.Db)
        → script env c e ≡ (p >>= λ a. done (g a))
        → spares id e ≡ true
        → Reaches id d (run r p d).1
    unfolding run_all
    called e p g d same h =
        (e ∷ [], ground (arith, h), sym (run-then r p g d) ∙ ap (λ q. (run r q d).1) (sym same))

    -- the same after what others have done
    called_after :
        {A : Type 0} (others : List Event) (e : Event) (p : Script A) (g : A → Effect) (d : r.Db)
        → all (spares id) others ≡ true
        → script env c e ≡ (p >>= λ a. done (g a))
        → spares id e ≡ true
        → Reaches id d (run_after env c r others p d).1
    unfolding run_after
    called_after others e p g d k same h = joins _ _ _ (others, k, refl) (called e p g _ same h)

    result_called :
        {A : Type 0} (others : List Event) (e : Event) (m : Result (Script A)) (g : A → Effect)
        (d : r.Db)
        → all (spares id) others ≡ true
        → script env c e ≡ or_nothing g m
        → spares id e ≡ true
        → Reaches id d (run_result env c r others m d).1
    unfolding run_result
    result_called others e (err x) g d k same h = stays d
    result_called others e (ok p) g d k same h = called_after others e p g d k same h

    -- nobody prunes the task between the calls
    abbrev spares_between : Between → Bool
    spares_between o = all (spares id) o.lock && all (spares id) o.next && all (spares id) o.release

    end_task-Reaches :
        (t : Task) (raw : Text) (now : ℕ) (ended : Outcome) (o : Between) (d : r.Db)
        → spares_between o ≡ true
        → Reaches id d (end_task env c r t raw now ended o d).1
    unfolding end_task returned finish_task fail_task script
    end_task-Reaches t raw now ended o d k = go ended
      where
        lost : (error : Text) → Reaches id d (fail_task env c r t raw now error o d).1
        lost error =
            joins _ _ _
              (called_after o.next (failed t raw now error) _ _ d (ground (arith, k)) refl refl)
              (called_after o.release (released t) _ _ _ (ground (arith, k)) refl refl)

        go : (x : Outcome) → Reaches id d (end_task env c r t raw now x o d).1
        go (exited (pos zero) error duration) =
            joins _ _ _
              (called_after o.next (finished t raw now duration) _ _ d (ground (arith, k)) refl
                refl)
              (called_after o.release (released t) _ _ _ (ground (arith, k)) refl refl)
        go (exited (pos (suc n)) error duration) = lost error
        go (exited (negsuc n) error duration) = lost error
        go (caught error) = lost error
        go (uncaught e) = stays d

    execute_one-Reaches :
        (t : Task) (raw : Text) (now : ℕ) (ended : Outcome) (o : Between) (d : r.Db)
        → spares_between o ≡ true
        → Reaches id d (execute_one env c r t raw now ended o d).1
    unfolding execute_one execute_locked run_command script
    execute_one-Reaches t raw now ended o d k =
        let got = run_after env c r o.lock (Queue.acquire_device t) d in
        joins _ _ _
          (called_after o.lock (acquired t) (Queue.acquire_device t) _ d (ground (arith, k)) refl
            refl)
          (locked got.0 got.1)
      where
        ran :
            (m : Result (List Text)) (d : r.Db)
            → Reaches id d (run_command env c r t raw now ended o m d).1
        ran (err e) d = stays d
        ran (ok argv) d = end_task-Reaches t raw now ended o d k

        locked :
            (b : Bool) (d : r.Db) → Reaches id d (execute_locked env c r t raw now ended o b d).1
        locked false d =
            result_called o.next (deferred t raw now) (Queue.defer_locked env c t raw now) _ d
              (ground (arith, k)) refl refl
        locked true d = ran (command_for env t c) d

    -- nobody prunes the task before the calls of a list
    abbrev spares_list : {A : Type 0} → List (List Event × A) → Bool
    spares_list = all (λ x. all (spares id) x.0)

    count_scripts-Reaches :
        {A : Type 0} (f : A → Script Bool) (xs : List (List Event × A)) (d : r.Db)
        → spares_list xs ≡ true
        → ((x : A) (d : r.Db) → Reaches id d (run r (f x) d).1)
        → Reaches id d (count_scripts env c r f xs d).1
    unfolding count_scripts run_after
    count_scripts-Reaches f [] d k h = stays d
    count_scripts-Reaches f ((others, x) ∷ xs) d k h =
        joins _ _ _ (joins _ _ _ (others, ground (arith, k), refl) (h x _))
          (count_scripts-Reaches f xs _ (ground (arith, k)) h)

    prune_all-Reaches :
        (ids : List (List Event × Text)) (d : r.Db)
        → spares_list ids ≡ true
        → all (λ x. not (text_eq x.1 id)) ids ≡ true
        → Reaches id d (prune_all env c r ids d).1
    unfolding prune_all count_scripts script
    prune_all-Reaches [] d k h = stays d
    prune_all-Reaches ((others, x) ∷ xs) d k h =
        joins _ _ _
          (called_after others (pruned x) (Queue.prune x) _ d (ground (arith, k)) refl
            (ground (arith, h)))
          (prune_all-Reaches xs _ (ground (arith, k)) (ground (arith, h)))

    orphan-Reaches :
        (now : ℕ) (e : Text × Text) (d : r.Db)
        → Reaches id d (run r (orphan_script env c r now e) d).1
    unfolding orphan_script script run
    orphan-Reaches now (raw, claim) d =
        go (Queue.is_stale now c.block_seconds (env.claim_time claim))
      where
        go :
            (b : Bool)
            → Reaches id d (run r (if b then Queue.reclaim_orphan raw claim else done false) d).1
        go true = called (orphan_reclaimed raw claim) (Queue.reclaim_orphan raw claim) _ d refl refl
        go false = stays d

    reclaim_found-Reaches :
        (now : ℕ) (others : List Event) (x : Text) (o : Option Text) (d : r.Db)
        → all (spares id) others ≡ true
        → Reaches id d (reclaim_found env c r now others x o d).1
    unfolding reclaim_found script
    reclaim_found-Reaches now others x none d k =
        called_after others (lease_dropped x) (Queue.drop_lease x) _ d k refl refl
    reclaim_found-Reaches now others x (some []) d k =
        called_after others (lease_dropped x) (Queue.drop_lease x) _ d k refl refl
    reclaim_found-Reaches now others x (some (y ∷ ys)) d k =
        result_called others (lease_reclaimed x (y ∷ ys) now) (Queue.reclaim env c x (y ∷ ys) now) _
          d k refl refl

    abbrev spares_expired : Expired → Bool
    spares_expired x = all (spares id) x.read && all (spares id) x.change

    reclaim_expired-Reaches :
        (now : ℕ) (xs : List Expired) (d : r.Db)
        → all spares_expired xs ≡ true
        → Reaches id d (reclaim_expired env c r now xs d).1
    unfolding reclaim_expired reclaim_rest reclaim_one add_reclaimed script
    reclaim_expired-Reaches now [] d k = stays d
    reclaim_expired-Reaches now (x ∷ xs) d k =
        let read = run_after env c r x.read (do_fetch (hget running x.id)) d in
        let one = reclaim_found env c r now x.change x.id read.0 read.1 in
        joins _ _ _
          (called_after x.read (lease_read x.id) (do_fetch (hget running x.id)) _ d
            (ground (arith, k)) refl refl)
          (joins _ _ _ (reclaim_found-Reaches now x.change x.id read.0 read.1 (ground (arith, k)))
            (rest one.0 one.1 (λ d. reclaim_expired-Reaches now xs d (ground (arith, k)))))
      where
        added :
            (b : Bool) (m : Result ℕ) (d d' : r.Db)
            → Reaches id d d'
            → Reaches id d (add_reclaimed env c r b (m, d')).1
        added b (err e) d d' h = h
        added b (ok n) d d' h = h

        rest :
            (m : Result Bool) (d : r.Db)
            → ((d : r.Db) → Reaches id d (reclaim_expired env c r now xs d).1)
            → Reaches id d (reclaim_rest env c r (m, d) (λ d. reclaim_expired env c r now xs d)).1
        rest (err e) d h = stays d
        rest (ok b) d h =
            let more = reclaim_expired env c r now xs d in added b more.0 d more.1 (h d)

    reserve-Reaches :
        (claim : Text) (now : ℕ) (first second : List Event) (d : r.Db)
        → all (spares id) first ≡ true
        → all (spares id) second ≡ true
        → Reaches id d (reserve env c r claim now first second d).1
    unfolding reserve reserve_taken script
    reserve-Reaches claim now first second d h k =
        let got = run_after env c r first (Queue.take claim) d in
        joins _ _ _ (called_after first (taken claim) (Queue.take claim) _ d h refl refl)
          (settles got.0 got.1)
      where
        settles :
            (o : Option Text) (d : r.Db)
            → Reaches id d (reserve_taken env c r claim now second o d).1
        settles none d = stays d
        settles (some raw) d =
            result_called second (settled raw claim now) (Queue.settle env c raw claim now) _ d k
              refl refl

    -- neither the pass nor the others prune the task
    abbrev pub spares_pass : Pass → Bool
    spares_pass p =
        all (λ x. not (text_eq x.1 id)) p.ended
        && spares_list p.ended
        && spares_list p.due
        && spares_list p.claimed
        && all spares_expired p.expired
        && all (spares id) p.before_take
        && all (spares id) p.before_settle
        && spares_between p.between

    run_pass-Reaches :
        (p : Pass) (d : r.Db) → spares_pass p ≡ true → Reaches id d (run_pass env c r p d).1
    unfolding run_pass run_next run_reserved promote_due reclaim_orphans script
    run_pass-Reaches p d h =
        let d1 = (prune_all env c r p.ended d).1 in
        let d2 = (promote_due env c r p.due d1).1 in
        let d3 = (reclaim_orphans env c r p.now p.claimed d2).1 in
        let d4 = reclaim_expired env c r p.now p.expired d3 in
        joins _ _ _ (prune_all-Reaches p.ended d (ground (arith, h)) (ground (arith, h))) (
          joins _ _ _
            (count_scripts-Reaches Queue.promote p.due d1 (ground (arith, h))
              (λ x d. called (promoted x) (Queue.promote x) _ d refl refl))
            (joins _ _ _
              (count_scripts-Reaches (orphan_script env c r p.now) p.claimed d2 (ground (arith, h))
                (orphan-Reaches p.now))
              (joins _ _ _ (reclaim_expired-Reaches p.now p.expired d3 (ground (arith, h)))
                (next d4.0 d4.1))))
      where
        reserved :
            (m : Result (Option (Task × Text))) (d : r.Db)
            → Reaches id d (run_reserved env c r p m d).1
        reserved (err e) d = stays d
        reserved (ok none) d = stays d
        reserved (ok (some (t, raw))) d =
            execute_one-Reaches t raw p.finish_time p.outcome p.between d (ground (arith, h))

        next : (m : Result ℕ) (d : r.Db) → Reaches id d (run_next env c r p m d).1
        next (err e) d = stays d
        next (ok n) d =
            let got = reserve env c r p.claim p.now p.before_take p.before_settle d in
            joins _ _ _
              (reserve-Reaches p.claim p.now p.before_take p.before_settle d (ground (arith, h))
                (ground (arith, h)))
              (reserved got.0 got.1)

    -- A pass of the worker's loop on a Redis whose calls return, however the command ends, with an
    -- exception that is not caught too, and whatever others do before each call and while the command
    -- runs, loses no task that neither the pass nor the others prune: if it waits in one of the lists
    -- or in the schedule, or has its final result, it does so after the pass. The condition is that the
    -- entries of running tasks and of the archive stand under the identifiers of their own tasks before.
    pub run_pass-Tracked :
        (p : Pass) (d : r.Db)
        → spares_pass p ≡ true
        → Named env (r.view d)
        → Tracked env id (r.view d)
        → Tracked env id (r.view (run_pass env c r p d).1)
    run_pass-Tracked p d h n t =
        let (es, spared, same) = run_pass-Reaches p d h in
        rw same (history-Tracked env c r es id d spared n t)
