-- ===== src/Scheduler/Tests.antt =====
-- The scheduler's theorems at a batch of one, and runs of it.
use mini_dynamo.Prelude.{
  ℤ, pos, ◌+ℤ◌, ◌-ℤ◌, ℕ, ◌+◌, ◌≤◌, ◌≡◌, ◌⊎◌, All, refl, List, [], ◌∷◌, ◌++◌, none, some, true, Text,
  Text_discrete, codes, arith, length,
}
use mini_dynamo.Dict.{get, put, remove}
use mini_dynamo.Models.{DecodeRequest}
use mini_dynamo.Memory.{init, allocate, touch, free}
use mini_dynamo.Scheduler.{
  Seq, Scheduler, Arrival, submits, admit, forward, round, run, arrive_all, finish_chunk,
}
use mini_dynamo.Scheduler.Batch.{round-bound}
use mini_dynamo.Scheduler.Admission.{Keeps}
use mini_dynamo.Scheduler.Joining.{IsEvicting, Settled, admit-Settled}
use mini_dynamo.Scheduler.Streaming.{IsStreaming, transcript, stream}
use mini_dynamo.Scheduler.Lifecycle.{
  starts, stops, created, start, stop, cancel, call, call_all, IsSingle, call_all-IsSingle,
}
use mini_dynamo.Dict.Sums.{total}
use mini_dynamo.Scheduler.Ownership.{Owns, OnlySubmits, run_releases}
use mini_dynamo.Scheduler.Rounds.{round-IsStreaming, run_completes}

abbrev pub clock : ℕ → ℕ
clock n = n

abbrev pub next_token : Text → ℤ → Text
next_token session i = session

abbrev pub seq : Seq
seq = record {
  req_id = codes "r1";
  session_id = codes "s1";
  kv_cache_id = codes "kv1";
  max_tokens = pos 2;
  kv_size_mb = pos 40;
  num_prompt_tokens = pos 5;
  out_queue = 0;
  generated = 0;
  started_at = 0;
}

abbrev request : DecodeRequest
request = record {
  session_id = codes "s2";
  kv_cache_id = codes "kv2";
  prompt = [];
  num_prompt_tokens = pos 3;
  kv_size_mb = pos 500;
  max_tokens = pos 0;
  prefill_backend = [];
}

abbrev pub busy : Scheduler
busy = record {
  max_batch_size = 1;
  max_tokens_default = pos 64;
  waiting = [];
  active = (codes "r1", seq) ∷ [];
  memory = init (pos 100) (codes "lru");
  queues = λ q. [];
  next_queue = 1;
  tokens_total = 0;
  evictions_total = 0;
  readings = 0;
}

abbrev arrivals : List Arrival
arrivals = submits request (codes "r2") ∷ []

-- The second request waits for its turn and is then refused: it does not fit in the pool.
refused :
    (run clock next_token (arrivals ∷ [] ∷ [] ∷ []) busy).queues 1
    ≡ finish_chunk 0 (codes "oom") ∷ []
unfolding run round admit arrive_all forward init allocate touch free get put remove Text_discrete
    ◌+ℤ◌ ◌-ℤ◌
refused = refl

pub busy-IsStreaming : IsStreaming next_token [] busy
unfolding get stream
busy-IsStreaming = record {
  distinct = (tt, tt);
  numbered = (omega arith, tt);
  unique = (refl, tt);
  keyed = (refl, tt);
  streaming = λ k x e. ground arith;
  idle = tt;
  unused = λ q h. refl;
}

round-bound_example :
    let s' = round clock next_token arrivals busy in
    (length s'.active ≤ s'.max_batch_size) × (s'.max_batch_size ≡ 1)
round-bound_example = round-bound clock next_token arrivals busy (omega arith)

round-IsStreaming_example :
    let s' = round clock next_token arrivals busy in IsStreaming next_token s'.waiting s'
unfolding admit
round-IsStreaming_example =
    round-IsStreaming clock next_token arrivals busy (((λ e. ground arith), tt), tt)
      busy-IsStreaming

-- A batch with room for one more: a sequence that is larger than the pool is refused, the next one
-- joins, and the last one goes on waiting.
abbrev waits : Text → ℕ → ℕ → Seq
waits id size q = record seq { req_id = id; kv_cache_id = id; kv_size_mb = pos size; out_queue = q }

abbrev queue_of_three : List Seq
queue_of_three =
    waits (codes "big") 500 1 ∷ waits (codes "fits") 60 2 ∷ waits (codes "late") 10 3 ∷ []

abbrev roomy : Scheduler
roomy = record busy { max_batch_size = 2; waiting = queue_of_three; next_queue = 4 }

roomy-IsStreaming : IsStreaming next_token queue_of_three roomy
unfolding get stream
roomy-IsStreaming = record {
  distinct = (
    (
      record { ids = λ e. ground arith; queues = λ e. ground arith },
      (
        record { ids = λ e. ground arith; queues = λ e. ground arith },
        (record { ids = λ e. ground arith; queues = λ e. ground arith }, tt),
      ),
    ),
    (
      (
        record { ids = λ e. ground arith; queues = λ e. ground arith },
        (record { ids = λ e. ground arith; queues = λ e. ground arith }, tt),
      ),
      ((record { ids = λ e. ground arith; queues = λ e. ground arith }, tt), (tt, tt)),
    ),
  );
  numbered = (omega arith, (omega arith, (omega arith, (omega arith, tt))));
  unique = (refl, tt);
  keyed = (refl, tt);
  streaming = λ k x e. ground arith;
  idle = ((refl, refl), ((refl, refl), ((refl, refl), tt)));
  unused = λ q h. refl;
}

roomy-IsEvicting : IsEvicting roomy.memory
unfolding init total
roomy-IsEvicting = record {
  valid = record { unique = tt; keyed = tt; accounted = refl };
  on = λ e. ground arith;
}

admit-Settled_example :
    let s' = admit clock roomy in
    ((taken : List Seq) × (queue_of_three ≡ taken ++ s'.waiting) × All (Settled (pos 100) s') taken)
    × (length s'.active ≤ 2)
    × ((s'.waiting ≡ []) ⊎ (length s'.active ≡ 2))
    × Keeps roomy s'
unfolding init
admit-Settled_example =
    admit-Settled clock next_token roomy roomy-IsStreaming roomy-IsEvicting (omega arith)

-- The run of that example.
admits_one : (admit clock roomy).waiting ≡ waits (codes "late") 10 3 ∷ []
unfolding admit init allocate put get Text_discrete ◌+ℤ◌
admits_one = refl

-- The last token of a sequence.
abbrev last : Scheduler
last = record busy { active = (codes "r1", record seq { max_tokens = pos 1 }) ∷ [] }

last-IsStreaming : IsStreaming next_token [] last
unfolding get stream
last-IsStreaming = record {
  distinct = (tt, tt);
  numbered = (omega arith, tt);
  unique = (refl, tt);
  keyed = (refl, tt);
  streaming = λ k x e. ground arith;
  idle = tt;
  unused = λ q h. refl;
}

run_completes_example :
    let s' = run clock next_token ([] ∷ [] ∷ []) busy in
    (get Text_discrete (codes "r1") s'.active ≡ none)
    × (s'.queues 0 ≡ transcript next_token (codes "s1") (pos 5) (0 + 2))
unfolding get Text_discrete
run_completes_example =
    run_completes clock next_token 1 ([] ∷ [] ∷ []) (codes "r1") seq busy refl (tt, (tt, tt))
      busy-IsStreaming refl refl

call_all-IsSingle_example : IsSingle (call_all (starts ∷ starts ∷ stops ∷ starts ∷ []) created)
call_all-IsSingle_example = call_all-IsSingle (starts ∷ starts ∷ stops ∷ starts ∷ [])

-- The second start does nothing, and the third begins a new task.
restarted :
    call_all (starts ∷ starts ∷ stops ∷ starts ∷ []) created
    ≡ record { running = true; task = some 1; live = 1 ∷ []; next_task = 2 }
unfolding call_all call start stop cancel created
restarted = refl

busy-Owns : Owns busy.active busy.memory
unfolding get total init
busy-Owns = record {
  valid = record { accounted = refl; keyed = tt; unique = tt };
  held = λ j b e. cc e;
}

run_releases_example :
    let s' = run clock next_token (arrivals ∷ [] ∷ []) busy in
    Owns s'.active s'.memory
    × (s'.active ≡ [] → (s'.memory.blocks ≡ []) × (s'.memory.used_mb ≡ pos 0))
unfolding OnlySubmits admit
run_releases_example =
    run_releases clock next_token (arrivals ∷ [] ∷ []) busy (tt, (tt, tt))
      ((((λ e. ground arith), tt), tt), (tt, tt)) busy-IsStreaming busy-Owns
