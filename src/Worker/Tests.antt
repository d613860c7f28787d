-- ===== src/Worker/Tests.antt =====
-- The theorems on the deduplication at concrete calls, over a table of keys.
use drift_triage_co_pilot.Prelude.{
  ℕ, ◌<◌, Bool, true, false, inl, inr, ltb, length, String, ◌==◌, string_eq, if◌then◌else◌,
  Bool-cases, ◌≡◌, refl, none, some, List, [], ◌∷◌, ok, raised, network_error, arith,
}
use drift_triage_co_pilot.Worker.Dedup.{
  retrain, Job, Broker, deduplicated, enqueue_with_dedup, dedup_key,
}
use drift_triage_co_pilot.Worker.Dedup.AtMostOnce.{
  Call, IsSpaced, IsConsistent, run_calls, run_calls-IsSpaced, enqueue_lost,
}
use drift_triage_co_pilot.Agent.Queue.{QueueReads, queue_metrics}
use drift_triage_co_pilot.Agent.Queue.Running.{queue_metrics-enqueue}
use drift_triage_co_pilot.Worker.Dedup.Table.{Table, table_redis, Table-IsRedis}

abbrev retrain_at : ℕ → Job
retrain_at now = record {
  job_type = retrain;
  investigation_id = "i1";
  idempotency_key = "retrain:i1";
  model_version = 2;
  hil_approval_id = "h1";
  job_id = "j1";
  enqueued_at = now;
}

abbrev idle : Broker Table
idle = record { store = []; queue = [] }

idle-IsConsistent : IsConsistent 0 idle
idle-IsConsistent = record { spaced = tt; guarded = tt }

abbrev calls : List Call
calls =
    (some (network_error "lost"), retrain_at 10)
    ∷ (none, retrain_at 20)
    ∷ (none, retrain_at 90_000)
    ∷ []

run_calls-IsSpaced_example : IsSpaced (run_calls calls idle).queue
run_calls-IsSpaced_example =
    run_calls-IsSpaced Table-IsRedis calls 0 idle (omega arith, (omega arith, (omega arith, tt)))
      idle-IsConsistent

enqueue_lost_example :
    let (r1, b1) = enqueue_with_dedup (some (network_error "lost")) (retrain_at 10) idle in
    let (r2, b2) = enqueue_with_dedup none (retrain_at 20) b1 in
    (r1 ≡ raised (network_error "lost"))
    × (r2 ≡ ok (record { job_id = "retrain:i1"; status = deduplicated }))
    × (b2.queue ≡ [])
enqueue_lost_example =
    enqueue_lost Table-IsRedis (network_error "lost") none (retrain_at 10) (retrain_at 20) idle refl
      refl (omega arith) (omega arith)

if-false : (b c : Bool) → (if b then false else c) ≡ true → c ≡ true
if-false true c h = ground (arith, h)
if-false false c h = h

-- The keys of the table that have not expired; all of them are those of dispatches.
abbrev live_keys : ℕ → Table → List String
live_keys now [] = []
live_keys now ((k, expiry) ∷ s) =
    let rest = live_keys now s in if ltb now expiry then k ∷ rest else rest

abbrev table_reads : QueueReads Table String
table_reads = record {
  scan = λ prefix now s. if prefix == "dispatch:" then live_keys now s else [];
  get = λ k now s. none;
  job_entry = λ k raw. raw;
  letter = λ raw. raw;
}

live_keys-filled :
    (k : String) (now : ℕ) (s : Table)
    → table_redis.live k now s ≡ true
    → 0 < length (live_keys now s)
live_keys-filled k now [] h = ground (arith, h)
live_keys-filled k now ((j, expiry) ∷ s) h = elim (Bool-cases (ltb now expiry)) [
  | inl alive ↦ rw alive (omega arith)
  | inr expired ↦ rw expired (live_keys-filled k now s (if-false (j == k) _ (rw expired at h)))
]

queue_metrics-enqueue_example :
    let after = (enqueue_with_dedup none (retrain_at 10) idle).1 in
    let shown =
      queue_metrics table_reads "drift_actions" 80_000
        (record after { queue = retrain_at 10 ∷ [] })
        (λ key. []) in
    (after.queue ≡ retrain_at 10 ∷ []) × (shown.queue_depth ≡ 0) × (shown.worker_running ≡ true)
queue_metrics-enqueue_example =
    queue_metrics-enqueue table_reads Table-IsRedis
      (λ key now s alive. live_keys-filled (dedup_key key) now s alive) "drift_actions"
      (retrain_at 10) idle (retrain_at 10 ∷ []) 80_000 (λ key. []) refl (omega arith) (omega arith)
