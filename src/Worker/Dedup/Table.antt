-- ===== src/Worker/Dedup/Table.antt =====
-- The laws of `IsRedis` can be met: a table of keys with the times at which they expire.
use drift_triage_co_pilot.Prelude.{
  ℕ, ◌+◌, ◌≡◌, refl, Bool, true, false, not, String, ◌==◌, string_eq, List, [], ◌∷◌, ltb,
  if◌then◌else◌, Bool-cases, inl, inr, eq_refl,
}
use drift_triage_co_pilot.Worker.Dedup.{Redis, IsRedis}

abbrev pub Table : Type 0
Table = List (String × ℕ)

abbrev table_live : String → ℕ → Table → Bool
table_live k now [] = false
table_live k now ((j, expiry) ∷ s) =
    let rest = table_live k now s in if j == k then ltb now expiry else rest

abbrev table_set : String → ℕ → ℕ → Table → Bool × Table
table_set k now ex s = if table_live k now s then (false, s) else (true, (k, now + ex) ∷ s)

instance abbrev pub table_redis : Redis Table
table_redis = record { live = table_live; set_nx = table_set }

set_acquired :
    (k : String) (now ex : ℕ) (s : Table) → (table_set k now ex s).0 ≡ not (table_live k now s)
set_acquired k now ex s = elim (Bool-cases (table_live k now s)) [
  | inl held ↦ rw held refl
  | inr free ↦ rw free refl
]

pub Table-IsRedis : IsRedis Table
Table-IsRedis = record {
  acquired = set_acquired;
  refused = λ k now ex s h. rw h refl;
  live_self = λ k now ex later s h le. rw (h, eq_refl k) refl;
  live_other = λ k j now ex later s ne. elim (Bool-cases (table_live k now s)) [
    | inl held ↦ rw held refl
    | inr free ↦ rw (free, ne) refl
  ];
}
