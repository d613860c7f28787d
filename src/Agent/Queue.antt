-- ===== src/Agent/Queue.antt =====
-- backend/src/agent/routers/queue.py: the metrics of the queue, read from the broker of `Worker.Dedup` and its
-- dead-letter list.
pub mod Running
use drift_triage_co_pilot.Prelude.{
  ℕ, ◌-◌, Bool, true, false, String, truthy, ◌&&◌, ◌==◌, nat_eq, Option, none, some, List, [], ◌∷◌,
  map, length, take, drop, ltb, ◌&◌, string_eq, if◌then◌else◌,
}
use drift_triage_co_pilot.Worker.Dedup.{Broker}

-- The reads of Redis at a time, and the JSON values that the answer holds.
pub record QueueReads (S J : Type 0) : Type 0 where
  -- the keys that `scan_iter(match=prefix + "*")` gives, and `get(key)`
  pub scan : String → ℕ → S → List String
  pub get : String → ℕ → S → Option String
  -- `{"key": key, **parsed}`, where what is no JSON is given by its size
  pub job_entry : String → String → J
  -- the JSON of a dead letter, or its text
  pub letter : String → J

pub record Metrics (J : Type 0) : Type 0 where
  pub queue_depth : ℕ
  pub dlq_count : ℕ
  pub active_dispatches : ℕ
  pub worker_running : Bool
  pub recent_jobs_count : ℕ
  pub recent_jobs : List J
  pub dlq_items : List J

-- `ZCARD key`: arq keeps the jobs in a sorted set under the name that `enqueue_job` is given; no other sorted set is
-- written, and a key that is not there counts 0.
abbrev pub zcard : {S : Type 0} → (queue_name key : String) → Broker S → ℕ
zcard queue_name key b = if key == queue_name then length b.queue else 0

module _ {S J : Type 0} (q : QueueReads S J) where
  -- `result_keys[-20:]`
  abbrev pub last_twenty : List String → List String
  last_twenty keys = drop (length keys - 20) keys

  -- The loop over the result keys; a key without a value is left out.
  unfoldable pub recent_jobs_of : ℕ → S → List String → List J
  recent_jobs_of now s [] = []
  recent_jobs_of now s (key ∷ keys) =
      let rest = recent_jobs_of now s keys in
      elim (q.get key now s) [
        | none ↦ rest
        | some raw ↦ elim (truthy raw) [ true ↦ q.job_entry key raw ∷ rest | false ↦ rest ]
      ]

  -- The two settings-dependent keys are built from `settings.redis_queue_name`; `lists` gives each list of Redis.
  unfoldable pub queue_metrics :
      (redis_queue_name : String)
      → (now : ℕ) → Broker S
      → (lists : String → List String) → Metrics J
  unfolding recent_jobs_of
  queue_metrics redis_queue_name now b lists =
      let queue_depth = zcard redis_queue_name ("arq:queue:" & redis_queue_name) b in
      let dlq = lists (redis_queue_name & ":dlq") in
      let active_dispatches = length (q.scan "dispatch:" now b.store) in
      let recent_jobs =
        recent_jobs_of now b.store (last_twenty (q.scan "arq:result:" now b.store)) in
      record {
        queue_depth = queue_depth;
        dlq_count = length dlq;
        active_dispatches = active_dispatches;
        worker_running = ltb 0 active_dispatches && queue_depth == 0;
        recent_jobs_count = length recent_jobs;
        recent_jobs = recent_jobs;
        dlq_items = map q.letter (take 10 dlq);
      }
