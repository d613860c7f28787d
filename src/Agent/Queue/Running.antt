-- ===== src/Agent/Queue/Running.antt =====
-- backend/src/agent/routers/queue.py with backend/src/worker/dedup.py: what is shown of the queue after a job is enqueued.
use drift_triage_co_pilot.Prelude.{
  ℕ, ◌+◌, ◌≤◌, ◌<◌, ◌≡◌, refl, ap, ◌∙◌, true, false, not, String, nat_eq, none, List, [], length,
  ltb, arith, ◌&◌, ◌==◌, string_eq, ◌++◌, ◌∷◌, beq-false, codes, codes-append, length-append,
}
use drift_triage_co_pilot.Worker.Dedup.{
  Redis, IsRedis, Job, Broker, dedup_ttl_seconds, dedup_key, enqueue_with_dedup,
}
use drift_triage_co_pilot.Agent.Queue.{QueueReads, queue_metrics}

lt→ltb : (a b : ℕ) → a < b → ltb a b ≡ true
lt→ltb a b h = ground arith

-- No name is its own key of `arq:queue:`.
arq_key-apart : (name : String) → (("arq:queue:" & name) == name) ≡ false
arq_key-apart name = beq-false ("arq:queue:" & name) name (λ same.
    let long =
      ap length (codes-append "arq:queue:" name)
      ∙ length-append (codes "arq:queue:") (codes name) in
    let equal = ap (λ s. length (codes s)) same in
    let ten : length (codes "arq:queue:") ≡ 10 = refl in absurd (omega (arith, long, equal, ten)))

module _ {S J : Type 0} ⦃r : Redis S⦄ (q : QueueReads S J) where
  -- A scan gives the keys of dispatches that have not expired.
  abbrev pub IsScan : Type 0
  IsScan =
      (key : String) (now : ℕ) (s : S)
      → r.live (dedup_key key) now s ≡ true
      → 0 < length (q.scan "dispatch:" now s)

  -- If Redis is as documented: once a job has been enqueued under a free key, then at every time before the key's
  -- lifetime of 24 hours is over, whatever jobs are waiting in the queue by then, the depth of the queue is shown as 0
  -- and the worker as running: the depth is read under another key than the one that the jobs are enqueued under.
  pub queue_metrics-enqueue :
      IsRedis S
      → IsScan
      → (redis_queue_name : String) (job : Job) (b : Broker S) (waiting : List Job) (now : ℕ)
        (lists : String → List String)
      → r.live (dedup_key job.idempotency_key) job.enqueued_at b.store ≡ false
      → job.enqueued_at ≤ now
      → now < job.enqueued_at + dedup_ttl_seconds
      → let after = (enqueue_with_dedup none job b).1 in
        let shown = queue_metrics q redis_queue_name now (record after { queue = waiting }) lists in
        (after.queue ≡ b.queue ++ job ∷ [])
        × (shown.queue_depth ≡ 0)
        × (shown.worker_running ≡ true)
  unfolding queue_metrics enqueue_with_dedup
  queue_metrics-enqueue is scans redis_queue_name job b waiting now lists free later soon =
      let key = dedup_key job.idempotency_key in
      let taken : (r.set_nx key job.enqueued_at dedup_ttl_seconds b.store).0 ≡ true =
        is.acquired key job.enqueued_at dedup_ttl_seconds b.store ∙ ap not free in
      let alive =
        is.live_self key job.enqueued_at dedup_ttl_seconds now b.store free later
        ∙ lt→ltb now (job.enqueued_at + dedup_ttl_seconds) soon in
      let active = scans job.idempotency_key now _ alive in
      let apart = arq_key-apart redis_queue_name in
      (rw taken refl, rw apart refl, rw (taken, apart) (rw (lt→ltb 0 _ active) refl))
