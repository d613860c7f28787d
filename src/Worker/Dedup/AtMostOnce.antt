-- ===== src/Worker/Dedup/AtMostOnce.antt =====
-- What the key in Redis guarantees of the queue, and what is lost when the enqueueing itself fails.
use drift_triage_co_pilot.Prelude.{
  ℕ, ◌+◌, ◌≤◌, ◌<◌, ◌≡◌, refl, sym, ap, ◌∙◌, inl, inr, Bool, true, false, not, String, ◌==◌,
  string_eq, Option, none, some, List, [], ◌∷◌, ◌++◌, arith, All, All-append, Bool-cases, not-true,
  ltb, ok, raised, Exception, eq_iff,
}
use drift_triage_co_pilot.Worker.Dedup.{
  Redis, IsRedis, Job, Broker, deduplicated, enqueued, dedup_ttl_seconds, dedup_key, enqueue_job,
  enqueue_with_dedup,
}

-- A call of `enqueue_with_dedup`: what `arq` raises, and the job with its time.
abbrev pub Call : Type 0
Call = Option Exception × Job

-- Two jobs with one key are at least the key's lifetime apart.
abbrev pub IsSpaced : List Job → Type 0
IsSpaced [] = Unit
IsSpaced (j ∷ js) =
    All
      (λ j'.
        j.idempotency_key ≡ j'.idempotency_key → j.enqueued_at + dedup_ttl_seconds ≤ j'.enqueued_at)
      js
    × IsSpaced js

-- The calls come in the order of their times, none before `now`.
abbrev pub IsTimed : ℕ → List Call → Type 0
IsTimed now [] = Unit
IsTimed now (c ∷ cs) = (now ≤ c.1.enqueued_at) × IsTimed c.1.enqueued_at cs

IsSpaced-append :
    (js : List Job) (x : Job)
    → IsSpaced js
    → All
        (λ j.
          j.idempotency_key ≡ x.idempotency_key → j.enqueued_at + dedup_ttl_seconds ≤ x.enqueued_at)
        js
    → IsSpaced (js ++ x ∷ [])
IsSpaced-append [] x s a = (tt, tt)
IsSpaced-append (j ∷ js) x s a =
    (All-append _ js (x ∷ []) s.0 (a.0, tt), IsSpaced-append js x s.1 a.1)

not-false : (b : Bool) → not b ≡ false → b ≡ true
not-false true h = refl
not-false false h = cc

module _ {S : Type 0} ⦃r : Redis S⦄ where
  unfoldable pub run_calls : List Call → Broker S → Broker S
  run_calls [] b = b
  run_calls ((fault, job) ∷ rest) b = run_calls rest (enqueue_with_dedup fault job b).1

  -- The job's key is alive until its lifetime is over.
  abbrev IsGuarded : S → ℕ → Job → Type 0
  IsGuarded s now j =
      (later : ℕ)
      → now ≤ later
      → later < j.enqueued_at + dedup_ttl_seconds
      → r.live (dedup_key j.idempotency_key) later s ≡ true

  pub record IsConsistent (now : ℕ) (b : Broker S) : Type 0 where
    pub spaced : IsSpaced b.queue
    pub guarded : All (IsGuarded b.store now) b.queue

  module _ (law : IsRedis S) where
    IsGuarded-later :
        (s : S) (now t : ℕ) (js : List Job)
        → now ≤ t
        → All (IsGuarded s now) js
        → All (IsGuarded s t) js
    IsGuarded-later s now t [] h a = tt
    IsGuarded-later s now t (j ∷ js) h a =
        ((λ later p q. a.0 later (omega arith) q), IsGuarded-later s now t js h a.1)

    module _ (s : S) (now : ℕ) (job : Job) (late : now ≤ job.enqueued_at)
        (free : r.live (dedup_key job.idempotency_key) job.enqueued_at s ≡ false) where
      -- A job of the same key is past its lifetime, since its key is not alive.
      far_apart :
          (j : Job)
          → IsGuarded s now j
          → dedup_key j.idempotency_key ≡ dedup_key job.idempotency_key
          → j.enqueued_at + dedup_ttl_seconds ≤ job.enqueued_at
      far_apart j g e =
          elim (Bool-cases (ltb job.enqueued_at (j.enqueued_at + dedup_ttl_seconds))) [
            | inl soon ↦ absurd (cc (g job.enqueued_at late (ground arith), free, e))
            | inr over ↦ ground arith
          ]

      All-far_apart :
          (js : List Job)
          → All (IsGuarded s now) js
          → All
              (λ j.
                j.idempotency_key ≡ job.idempotency_key
                → j.enqueued_at + dedup_ttl_seconds ≤ job.enqueued_at)
              js
      All-far_apart [] a = tt
      All-far_apart (j ∷ js) a = ((λ e. far_apart j a.0 (ap dedup_key e)), All-far_apart js a.1)

      abbrev store' : S
      store' = (r.set_nx (dedup_key job.idempotency_key) job.enqueued_at dedup_ttl_seconds s).1

      IsGuarded-after : (j : Job) → IsGuarded s now j → IsGuarded store' job.enqueued_at j
      IsGuarded-after j g later p q =
          elim (Bool-cases (dedup_key job.idempotency_key == dedup_key j.idempotency_key)) [
            | inl same ↦ absurd (
                omega (
                  arith,
                  far_apart j g (
                      sym (
                        (eq_iff (dedup_key job.idempotency_key) (dedup_key j.idempotency_key)).0
                          same)),
                ))
            | inr other ↦
                law.live_other (dedup_key job.idempotency_key) (dedup_key j.idempotency_key)
                  job.enqueued_at dedup_ttl_seconds later s other
                ∙ g later (omega arith) q
          ]

      -- Setting the new key keeps the keys of the older jobs.
      still-IsGuarded :
          (js : List Job) → All (IsGuarded s now) js → All (IsGuarded store' job.enqueued_at) js
      still-IsGuarded [] a = tt
      still-IsGuarded (j ∷ js) a = (IsGuarded-after j a.0, still-IsGuarded js a.1)

      new-IsGuarded : IsGuarded store' job.enqueued_at job
      new-IsGuarded later p q =
          law.live_self (dedup_key job.idempotency_key) job.enqueued_at dedup_ttl_seconds later s
            free p
          ∙ ground arith

    acquired_of :
        (k : String) (t ex : ℕ) (s : S) → (r.set_nx k t ex s).0 ≡ true → r.live k t s ≡ false
    acquired_of k t ex s h = not-true _ (sym (law.acquired k t ex s) ∙ h)

    refused_of :
        (k : String) (t ex : ℕ) (s : S) → (r.set_nx k t ex s).0 ≡ false → r.live k t s ≡ true
    refused_of k t ex s h = not-false _ (sym (law.acquired k t ex s) ∙ h)

    enqueue_job-IsConsistent :
        (fault : Option Exception) (job : Job) (now : ℕ) (b : Broker S)
        → now ≤ job.enqueued_at
        → r.live (dedup_key job.idempotency_key) job.enqueued_at b.store ≡ false
        → IsConsistent now b
        → IsConsistent job.enqueued_at
            (enqueue_job fault job (record b {
              store =
                  (r.set_nx
                    (dedup_key job.idempotency_key)
                    job.enqueued_at
                    dedup_ttl_seconds
                    b.store).1;
            })).1
    enqueue_job-IsConsistent (some e) job now b late free c = record {
      spaced = c.spaced;
      guarded = still-IsGuarded b.store now job late free b.queue c.guarded;
    }
    enqueue_job-IsConsistent none job now b late free c = record {
      spaced =
          IsSpaced-append b.queue job c.spaced
            (All-far_apart b.store now job late free b.queue c.guarded);
      guarded =
          All-append _ b.queue (job ∷ [])
            (still-IsGuarded b.store now job late free b.queue c.guarded)
            (new-IsGuarded b.store now job late free, tt);
    }

    enqueue-IsConsistent :
        (fault : Option Exception) (job : Job) (now : ℕ) (b : Broker S)
        → now ≤ job.enqueued_at
        → IsConsistent now b
        → IsConsistent job.enqueued_at (enqueue_with_dedup fault job b).1
    unfolding enqueue_with_dedup
    enqueue-IsConsistent fault job now b late c =
        elim (Bool-cases
          (r.set_nx (dedup_key job.idempotency_key) job.enqueued_at dedup_ttl_seconds b.store).0) [
            | inl acquired ↦ rw acquired (
                enqueue_job-IsConsistent fault job now b late
                  (acquired_of (dedup_key job.idempotency_key) job.enqueued_at dedup_ttl_seconds
                    b.store acquired)
                  c)
            | inr refused ↦
                rw
                  (
                    refused,
                    law.refused (dedup_key job.idempotency_key) job.enqueued_at dedup_ttl_seconds
                        b.store
                        (refused_of (dedup_key job.idempotency_key) job.enqueued_at
                          dedup_ttl_seconds b.store refused),
                  )
                  (record {
                    spaced = c.spaced;
                    guarded = IsGuarded-later b.store now job.enqueued_at b.queue late c.guarded;
                  })
          ]

    -- From a broker that is consistent, whatever calls follow in the order of their times, and whichever
    -- of them fail in `arq`, two jobs of the queue with one idempotency key were enqueued at least
    -- 24 hours (the lifetime of the key) apart.
    pub run_calls-IsSpaced :
        (calls : List Call) (now : ℕ) (b : Broker S)
        → IsTimed now calls
        → IsConsistent now b
        → IsSpaced (run_calls calls b).queue
    unfolding run_calls
    run_calls-IsSpaced [] now b t c = c.spaced
    run_calls-IsSpaced ((fault, job) ∷ rest) now b t c =
        run_calls-IsSpaced rest job.enqueued_at (enqueue_with_dedup fault job b).1 t.1
          (enqueue-IsConsistent fault job now b t.0 c)

    enqueue_free :
        (fault : Option Exception) (job : Job) (b : Broker S)
        → r.live (dedup_key job.idempotency_key) job.enqueued_at b.store ≡ false
        → enqueue_with_dedup fault job b
          ≡ enqueue_job fault job (record b {
            store =
                (r.set_nx
                  (dedup_key job.idempotency_key)
                  job.enqueued_at
                  dedup_ttl_seconds
                  b.store).1;
          })
    unfolding enqueue_with_dedup
    enqueue_free fault job b free =
        rw
          (
            law.acquired (dedup_key job.idempotency_key) job.enqueued_at dedup_ttl_seconds b.store,
            free,
          )
          refl

    enqueue_held :
        (fault : Option Exception) (job : Job) (b : Broker S)
        → r.live (dedup_key job.idempotency_key) job.enqueued_at b.store ≡ true
        → enqueue_with_dedup fault job b
          ≡ (ok (record { job_id = job.idempotency_key; status = deduplicated }), b)
    unfolding enqueue_with_dedup
    enqueue_held fault job b held =
        rw
          (
            law.acquired (dedup_key job.idempotency_key) job.enqueued_at dedup_ttl_seconds b.store,
            law.refused (dedup_key job.idempotency_key) job.enqueued_at dedup_ttl_seconds b.store
                held,
            held,
          )
          refl

    held_after :
        (first second : Job) (s : S)
        → r.live (dedup_key first.idempotency_key) first.enqueued_at s ≡ false
        → second.idempotency_key ≡ first.idempotency_key
        → first.enqueued_at ≤ second.enqueued_at
        → second.enqueued_at < first.enqueued_at + dedup_ttl_seconds
        → r.live
            (dedup_key second.idempotency_key)
            second.enqueued_at
            (r.set_nx (dedup_key first.idempotency_key) first.enqueued_at dedup_ttl_seconds s).1
          ≡ true
    held_after first second s free same p q = rw same (
        law.live_self (dedup_key first.idempotency_key) first.enqueued_at dedup_ttl_seconds
          second.enqueued_at s free p
        ∙ ground arith)

    -- If the key is free, a call enqueues its job; a call with the same key less than 24 hours later is
    -- deduplicated and leaves the queue as it was.
    pub enqueue_twice :
        (fault : Option Exception) (first second : Job) (b : Broker S)
        → r.live (dedup_key first.idempotency_key) first.enqueued_at b.store ≡ false
        → second.idempotency_key ≡ first.idempotency_key
        → first.enqueued_at ≤ second.enqueued_at
        → second.enqueued_at < first.enqueued_at + dedup_ttl_seconds
        → let (r1, b1) = enqueue_with_dedup none first b in
          let (r2, b2) = enqueue_with_dedup fault second b1 in
          (r1 ≡ ok (record { job_id = first.job_id; status = enqueued }))
          × (b1.queue ≡ b.queue ++ first ∷ [])
          × (r2 ≡ ok (record { job_id = second.idempotency_key; status = deduplicated }))
          × (b2.queue ≡ b1.queue)
    enqueue_twice fault first second b free same p q = rw (enqueue_free none first b free) (
        let held = enqueue_held fault second _ (held_after first second b.store free same p q) in
        (refl, refl, ap (λ x. x.0) held, ap (λ x. x.1.queue) held))

    -- If `arq` fails after the key was set, the call raises and enqueues nothing, and a retry with the
    -- same key less than 24 hours later is deduplicated: the job is in no queue.
    pub enqueue_lost :
        (e : Exception) (fault : Option Exception) (first retry : Job) (b : Broker S)
        → r.live (dedup_key first.idempotency_key) first.enqueued_at b.store ≡ false
        → retry.idempotency_key ≡ first.idempotency_key
        → first.enqueued_at ≤ retry.enqueued_at
        → retry.enqueued_at < first.enqueued_at + dedup_ttl_seconds
        → let (r1, b1) = enqueue_with_dedup (some e) first b in
          let (r2, b2) = enqueue_with_dedup fault retry b1 in
          (r1 ≡ raised e)
          × (r2 ≡ ok (record { job_id = retry.idempotency_key; status = deduplicated }))
          × (b2.queue ≡ b.queue)
    enqueue_lost e fault first retry b free same p q = rw (enqueue_free (some e) first b free) (
        let held = enqueue_held fault retry _ (held_after first retry b.store free same p q) in
        (refl, ap (λ x. x.0) held, ap (λ x. x.1.queue) held))
