-- ===== src/Worker/Dedup.antt =====
-- backend/src/worker/dedup.py: one job for each idempotency key while the key lives in Redis. Redis is
-- an interface; `arq` appends a job to its queue or raises.
pub mod AtMostOnce
pub mod Table
use drift_triage_co_pilot.Prelude.{
  ℕ, ◌+◌, ◌≤◌, ◌<◌, ◌≡◌, ◌↔◌, Bool, true, false, not, String, ◌&◌, Option, none, some, List, [],
  ◌∷◌, ◌++◌, arith, Equality, ◌==◌, string_eq, ltb, if◌then◌else◌, Result, ok, raised, Exception,
}

-- The actions that the agent may propose.
pub data Action : Type 0 where
  replay_test retrain rollback no_action : Action

abbrev action_beq : Action → Action → Bool
action_beq replay_test replay_test = true
action_beq retrain retrain = true
action_beq rollback rollback = true
action_beq no_action no_action = true
action_beq _ _ = false

pub action_beq_iff : (a b : Action) → (action_beq a b ≡ true) ↔ (a ≡ b)
action_beq_iff a b = ground arith

instance abbrev pub action_eq : Equality Action
action_eq = record { test = action_beq; agrees = action_beq_iff }

abbrev pub action_text : Action → String
action_text replay_test = "replay_test"
action_text retrain = "retrain"
action_text rollback = "rollback"
action_text no_action = "no_action"

-- The two Redis commands of the program over a store: `live k now s` says that the key `k` has not
-- expired, and `set_nx k now ex s` is `SET k 1 NX EX ex`, which answers whether the key was set.
pub record Redis (S : Type 0) : Type 0 where
  pub live : String → ℕ → S → Bool
  pub set_nx : String → ℕ → ℕ → S → Bool × S

-- The documented behaviour of `SET ... NX EX`.
pub record IsRedis (S : Type 0) ⦃r : Redis S⦄ : Type 0 where
  pub acquired : (k : String) (now ex : ℕ) (s : S) → (r.set_nx k now ex s).0 ≡ not (r.live k now s)
  pub refused :
      (k : String) (now ex : ℕ) (s : S) → r.live k now s ≡ true → (r.set_nx k now ex s).1 ≡ s
  pub live_self :
      (k : String) (now ex later : ℕ) (s : S)
      → r.live k now s ≡ false
      → now ≤ later
      → r.live k later (r.set_nx k now ex s).1 ≡ ltb later (now + ex)
  pub live_other :
      (k j : String) (now ex later : ℕ) (s : S)
      → (k == j) ≡ false
      → r.live j later (r.set_nx k now ex s).1 ≡ r.live j later s

-- A job as `enqueue_job` stores it, with the time at which it was enqueued.
pub record Job : Type 0 where
  pub job_type : Action
  pub investigation_id : String
  pub idempotency_key : String
  pub model_version : ℕ
  pub hil_approval_id : String
  pub job_id : String
  pub enqueued_at : ℕ

-- Redis as the agent and the worker share it.
pub record Broker (S : Type 0) : Type 0 where
  pub store : S
  pub queue : List Job

pub data EnqueueStatus : Type 0 where
  enqueued deduplicated : EnqueueStatus

pub record EnqueueResult : Type 0 where
  pub job_id : String
  pub status : EnqueueStatus

-- `_DEDUP_TTL_SECONDS`
abbrev pub dedup_ttl_seconds : ℕ
dedup_ttl_seconds = 86_400

abbrev pub dedup_key : String → String
dedup_key idempotency_key = "dispatch:" & idempotency_key

module _ {S : Type 0} ⦃r : Redis S⦄ where
  -- What follows an acquired key: `fault` is what `create_pool` or `enqueue_job` raises, if anything.
  abbrev enqueue_job : (fault : Option Exception) → Job → Broker S → Result EnqueueResult × Broker S
  enqueue_job none job b = (
    ok (record { job_id = job.job_id; status = enqueued }),
    record b { queue = b.queue ++ job ∷ [] },
  )
  enqueue_job (some e) job b = (raised e, b)

  -- `job` carries the arguments, the identifier drawn by `uuid4` and the time of the call.
  unfoldable pub enqueue_with_dedup :
      (fault : Option Exception) → Job → Broker S → Result EnqueueResult × Broker S
  enqueue_with_dedup fault job b =
      let (acquired, store') =
        r.set_nx (dedup_key job.idempotency_key) job.enqueued_at dedup_ttl_seconds b.store in
      if acquired then enqueue_job fault job (record b { store = store' }) else (
        ok (record { job_id = job.idempotency_key; status = deduplicated }),
        record b { store = store' },
      )
