-- ===== src/Scheduler/Lifecycle.antt =====
-- `start` and `stop` of common/batching.py: the task that runs the loop.
use mini_dynamo.Prelude.{
  ℕ, suc, ◌≡◌, refl, ap, Bool, true, false, Option, none, some, List, [], ◌∷◌, ◌∙◌, ◌==◌,
  if◌then◌else◌, arith,
}

-- `_running` and `_task`, and beside them the tasks that run, the number of the next one among them.
pub record Lifecycle : Type 0 where
  pub running : Bool
  pub task : Option ℕ
  pub live : List ℕ
  pub next_task : ℕ

unfoldable pub created : Lifecycle
created = record { running = false; task = none; live = []; next_task = 0 }

unfoldable pub start : Lifecycle → Lifecycle
start l = elim l.task [
  | none ↦ record l {
    running = true;
    task = some l.next_task;
    live = l.next_task ∷ l.live;
    next_task = suc l.next_task;
  }
  | some t ↦ l
]

-- A task that is cancelled and awaited runs no more.
unfoldable pub cancel : ℕ → List ℕ → List ℕ
cancel t [] = []
cancel t (u ∷ us) = let rest = cancel t us in if t == u then rest else u ∷ rest

unfoldable pub stop : Lifecycle → Lifecycle
unfolding cancel
stop l = elim l.task [
  | none ↦ record l { running = false }
  | some t ↦ record l { running = false; task = none; live = cancel t l.live }
]

pub data Call : Type 0 where
  starts : Call
  stops : Call

unfoldable pub call : Call → Lifecycle → Lifecycle
unfolding start stop
call starts l = start l
call stops l = stop l

unfoldable pub call_all : List Call → Lifecycle → Lifecycle
unfolding call
call_all [] l = l
call_all (c ∷ cs) l = call_all cs (call c l)

-- Nothing runs, or the one task that is known.
pub data IsSingle (l : Lifecycle) : Type 0 where
  idle : l.running ≡ false → l.task ≡ none → l.live ≡ [] → IsSingle l
  busy : (t : ℕ) → l.running ≡ true → l.task ≡ some t → l.live ≡ t ∷ [] → IsSingle l

start-IsSingle : (l : Lifecycle) → IsSingle l → IsSingle (start l)
unfolding start
start-IsSingle l (idle r t e) = rw (start, t) (busy l.next_task refl refl (ap (◌∷◌ l.next_task) e))
start-IsSingle l (busy k r t e) = rw (start, t) (busy k r t e)

stop-IsSingle : (l : Lifecycle) → IsSingle l → IsSingle (stop l)
unfolding stop cancel
stop-IsSingle l (idle r t e) = rw (stop, t) (idle refl t e)
stop-IsSingle l (busy k r t e) =
    let same : (k == k) ≡ true = ground arith in
    rw (stop, t) (idle refl refl (ap (cancel k) e ∙ rw same refl))

call-IsSingle : (c : Call) (l : Lifecycle) → IsSingle l → IsSingle (call c l)
unfolding call
call-IsSingle starts l h = start-IsSingle l h
call-IsSingle stops l h = stop-IsSingle l h

run-IsSingle : (cs : List Call) (l : Lifecycle) → IsSingle l → IsSingle (call_all cs l)
unfolding call_all
run-IsSingle [] l h = h
run-IsSingle (c ∷ cs) l h = run-IsSingle cs (call c l) (call-IsSingle c l h)

-- However often the scheduler is started and stopped, there is never more than one task that runs
-- its loop, and there is one exactly while it counts as running.
pub call_all-IsSingle : (cs : List Call) → IsSingle (call_all cs created)
unfolding created
call_all-IsSingle cs = run-IsSingle cs created (idle refl refl refl)
