-- ===== src/Service/Reports/Cache.antt =====
-- backend/src/service/routers/drift.py, `get_drift_report`: how often a report is computed.
use drift_triage_co_pilot.Prelude.{
  ℕ, ◌+◌, ◌≤◌, ◌≡◌, false, Option, none, some, List, [], ◌∷◌, ◌++◌, ltb, All, inl, inr, Bool-cases,
  Option-cases, Result-cases, Result, ok, raised, arith,
}
use drift_triage_co_pilot.Drift.Report.{DriftReport}
use drift_triage_co_pilot.Service.Reports.{
  DriftCache, cached, Served, serve_locked, get_drift_report,
}

-- A request that is not forced: what it sees at its first look, and what it computes if it does.
pub record Request (F : Type 0) : Type 0 where
  pub seen : DriftCache F
  pub arrived : ℕ
  pub locked : ℕ
  pub computed : Result (DriftReport F)
  pub stored : ℕ

-- Each time is at least 60 seconds after the one before it.
abbrev pub IsRateLimited : Option ℕ → List ℕ → Type 0
IsRateLimited previous [] = Unit
IsRateLimited none (t ∷ ts) = IsRateLimited (some t) ts
IsRateLimited (some s) (t ∷ ts) = (s + 60 ≤ t) × IsRateLimited (some t) ts

module _ {F : Type 0} where
  abbrev pub serve : Request F → DriftCache F → Served F
  serve q held = get_drift_report false q.seen q.arrived held q.locked q.computed q.stored

  -- The time at which the request stores a report, if it does.
  abbrev pub stored_by : Request F → Served F → List ℕ
  stored_by q served = elim served.task [ none ↦ [] | some _ ↦ q.stored ∷ [] ]

  -- Requests in the order in which they take the lock, and the times at which reports are stored.
  unfoldable pub serve_in_turn : List (Request F) → DriftCache F → List ℕ
  serve_in_turn [] cache = []
  serve_in_turn (q ∷ rest) cache =
      let onward = serve_in_turn rest (serve q cache).cache in stored_by q (serve q cache) ++ onward

  abbrev pub time_of : DriftCache F → Option ℕ
  time_of none = none
  time_of (some (report, stored)) = some stored

  -- What one request does to the cache and the task: nothing, or a new entry that the old one is too old for.
  data Turn (q : Request F) (held : DriftCache F) : Served F → Type 0 where
    kept :
        (answer : Result (DriftReport F))
        → Turn q held (record { answer = answer; cache = held; task = none })
    computed :
        (report : DriftReport F)
        → cached held q.locked ≡ none
        → Turn q held
            (record { answer = ok report; cache = some (report, q.stored); task = some report })

  serve-Turn : (q : Request F) (held : DriftCache F) → Turn q held (serve q held)
  unfolding get_drift_report serve_locked
  serve-Turn q held = elim (Option-cases (cached q.seen q.arrived)) [
    | inr (report, seen) ↦ rw (seen, get_drift_report) (kept (ok report))
    | inl unseen ↦ elim (Option-cases (cached held q.locked)) [
      | inr (report, there) ↦
          rw (unseen, get_drift_report) (rw (there, serve_locked) (kept (ok report)))
      | inl old ↦ elim (Result-cases q.computed) [
        | inl (report, e) ↦
            rw (unseen, get_drift_report)
              (rw (old, serve_locked) (rw (e, serve_locked) (computed report old)))
        | inr (exc, e) ↦
            rw (unseen, get_drift_report)
              (rw (old, serve_locked) (rw (e, serve_locked) (kept (raised exc))))
      ]
    ]
  ]

  expired :
      (report : DriftReport F) (stored now : ℕ)
      → cached (some (report, stored)) now ≡ none
      → stored + 60 ≤ now
  unfolding cached
  expired report stored now old = elim (Bool-cases (ltb now (stored + 60))) [
    | inl fresh ↦ ground (arith, rw (fresh, cached) at old)
    | inr late ↦ ground (arith, late)
  ]

  limited :
      (q : Request F) (held : DriftCache F) (served : Served F) (ts : List ℕ)
      → Turn q held served
      → q.locked ≤ q.stored
      → IsRateLimited (time_of served.cache) ts
      → IsRateLimited (time_of held) (stored_by q served ++ ts)
  limited q held served ts (kept answer) late rest = rest
  limited q none served ts (computed report old) late rest = rest
  limited q (some (entry, stored)) served ts (computed report old) late rest =
      (omega (arith, late, expired entry stored q.locked old), rest)

  -- Whatever the requests see at their first look, and however many wait for the lock: as long as none is forced
  -- and there is no reset, a report is stored only 60 seconds or more after the one before it was stored, the
  -- first one counted from the entry of the cache.
  pub serve_in_turn-IsRateLimited :
      (requests : List (Request F)) (cache : DriftCache F)
      → All (λ q. q.locked ≤ q.stored) requests
      → IsRateLimited (time_of cache) (serve_in_turn requests cache)
  unfolding serve_in_turn
  serve_in_turn-IsRateLimited [] cache late = tt
  serve_in_turn-IsRateLimited (q ∷ rest) cache late =
      limited q cache (serve q cache) _ (serve-Turn q cache) late.0
        (serve_in_turn-IsRateLimited rest (serve q cache).cache late.1)
