-- ===== src/Jobs/Life.antt =====
-- The life of a row of services/api/jobs.py: the columns that never change, and the states that
-- may follow one another.
use android_farm.Prelude.{
  ◌≡◌, refl, ◌∙◌, Bool, true, false, List, [], ◌∷◌, ◌++◌, All, arith, if◌then◌else◌,
}
use android_farm.Jobs.{
  Job, State, queued, running, succeeded, failed, cancelled as cancelled_state, interrupted,
  is_pending, update_where,
}

-- The states that a row can be in later.
abbrev pub can_become : State → State → Bool
can_become queued _ = true
can_become running queued = false
can_become running cancelled_state = false
can_become running _ = true
can_become succeeded succeeded = true
can_become failed failed = true
can_become cancelled_state cancelled_state = true
can_become interrupted interrupted = true
can_become _ _ = false

-- `k` is a later version of the row `j`.
pub record Follows (j k : Job) : Type 0 where
  pub id : k.id ≡ j.id
  pub key : k.key ≡ j.key
  pub fingerprint : k.fingerprint ≡ j.fingerprint
  pub action : k.action ≡ j.action
  pub device : k.device ≡ j.device
  pub actor : k.actor ≡ j.actor
  pub created : k.created_at ≡ j.created_at
  pub state : can_become j.state k.state ≡ true
  pub final : is_pending j.state ≡ false → k ≡ j

can_become_refl : (s : State) → can_become s s ≡ true
can_become_refl s = ground arith

can_become_trans :
    (s t v : State) → can_become s t ≡ true → can_become t v ≡ true → can_become s v ≡ true
can_become_trans s t v p q = ground arith

Follows-refl : (j : Job) → Follows j j
Follows-refl j = record {
  id = refl;
  key = refl;
  fingerprint = refl;
  action = refl;
  device = refl;
  actor = refl;
  created = refl;
  state = can_become_refl j.state;
  final = λ _. refl;
}

Follows-trans : (i j k : Job) → Follows i j → Follows j k → Follows i k
Follows-trans i j k a b = record {
  id = b.id ∙ a.id;
  key = b.key ∙ a.key;
  fingerprint = b.fingerprint ∙ a.fingerprint;
  action = b.action ∙ a.action;
  device = b.device ∙ a.device;
  actor = b.actor ∙ a.actor;
  created = b.created ∙ a.created;
  state = can_become_trans i.state j.state k.state a.state b.state;
  final = λ p. let e = a.final p in b.final (rw e p) ∙ e;
}

-- Every row has its later version at the same place; new rows stand behind.
abbrev pub Evolves : List Job → List Job → Type 0
Evolves [] ks = Unit
Evolves (j ∷ js) [] = ⊥
Evolves (j ∷ js) (k ∷ ks) = Follows j k × Evolves js ks

pub Evolves-refl : (js : List Job) → Evolves js js
Evolves-refl [] = tt
Evolves-refl (j ∷ js) = (Follows-refl j, Evolves-refl js)

pub Evolves-trans : (is js ks : List Job) → Evolves is js → Evolves js ks → Evolves is ks
Evolves-trans [] js ks a b = tt
Evolves-trans (i ∷ is) (j ∷ js) (k ∷ ks) a b =
    (Follows-trans i j k a.0 b.0, Evolves-trans is js ks a.1 b.1)
Evolves-trans (i ∷ is) [] ks a b = absurd a
Evolves-trans (i ∷ is) (j ∷ js) [] a b = absurd b

pub Evolves-append : (js ks : List Job) → Evolves js (js ++ ks)
Evolves-append [] ks = tt
Evolves-append (j ∷ js) ks = (Follows-refl j, Evolves-append js ks)

pub Evolves-update_where :
    (test : Job → Bool) (change : Job → Job) (js : List Job)
    → All (λ j. test j ≡ true → Follows j (change j)) js
    → Evolves js (update_where test change js)
unfolding update_where
Evolves-update_where test change [] h = tt
Evolves-update_where test change (j ∷ js) h =
    (here (test j) refl, Evolves-update_where test change js h.1)
  where
    here : (b : Bool) → test j ≡ b → Follows j (if b then change j else j)
    here true e = h.0 e
    here false e = Follows-refl j
