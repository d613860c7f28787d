-- ===== src/Frontend/Batch/Counts.antt =====
-- frontend/app.py and scripts/inject_demo_batch.py: the counts of an injected batch.
use drift_triage_co_pilot.Prelude.{
  ℕ, suc, ◌+◌, ◌<◌, ◌≡◌, refl, subst, ◌⊎◌, inl, inr, Bool, true, false, ◌&&◌, String, Option, none,
  some, List, [], ◌∷◌, ◌==◌, nat_eq, length, length-append, min, ltb, and-both, beq-path,
  if◌then◌else◌, Result, Exception, Bool-cases, arith,
}
use drift_triage_co_pilot.Frontend.Batch.{
  Payload, Row, Sent, nothing_sent, count_row, send_row, send_rows, inject_batch,
}

-- The counts add up to the rows so far, with the first five failures kept.
pub record IsCounted (sent : Sent) (rows : ℕ) : Type 0 where
  pub adds_up : sent.success_count + sent.failure_count ≡ rows
  pub kept : length sent.error_examples ≡ min 5 sent.failure_count

count_row-IsCounted :
    (index rows : ℕ) (error : Option String) (sent : Sent)
    → IsCounted sent rows
    → IsCounted (count_row index error sent) (suc rows)
unfolding count_row
count_row-IsCounted index rows none sent c = record {
  adds_up = omega (arith, c.adds_up);
  kept = c.kept;
}
count_row-IsCounted index rows (some error) sent c =
    elim (Bool-cases (ltb (length sent.error_examples) 5)) [
      | inl few ↦ record {
        adds_up = omega (arith, c.adds_up);
        kept =
            rw few (
              ground (arith, few, c.kept, length-append sent.error_examples ((index, error) ∷ [])));
      }
      | inr many ↦ record {
        adds_up = omega (arith, c.adds_up);
        kept = rw many (ground (arith, many, c.kept));
      }
    ]

-- How the script ends: with 2 where there were rows and all failed, with 0 where all succeeded and a report that
-- was asked for came, and with 1 otherwise.
pub data IsExit (no_drift_report report : Bool) (sent : Sent) (rows : ℕ) : ℕ → Type 0 where
  all_failed : sent.success_count ≡ 0 → 0 < rows → IsExit no_drift_report report sent rows 2
  all_sent :
      sent.success_count ≡ rows
      → (no_drift_report ≡ true) ⊎ (report ≡ true)
      → IsExit no_drift_report report sent rows 0
  some_failed :
      (0 < sent.failure_count) ⊎ (no_drift_report ≡ false) × (report ≡ false)
      → IsExit no_drift_report report sent rows 1

sent_status :
    (no_drift_report report : Bool) (sent : Sent) (rows : ℕ)
    → IsCounted sent rows
    → (no_drift_report ≡ true) ⊎ (report ≡ true)
    → IsExit no_drift_report report sent rows (if sent.failure_count == 0 then 0 else 1)
sent_status no_drift_report report sent rows c came = elim (Bool-cases (sent.failure_count == 0)) [
  | inl fine ↦ rw fine (all_sent (ground (arith, fine, c.adds_up)) came)
  | inr bad ↦ rw bad (some_failed (inl (ground (arith, bad))))
]

module _ {I F W : Type 0} (payload_of : Row → Result (Payload I F)) (str_exc : Exception → String)
    (post : Payload I F → W → Option String × W) where
  send_rows-IsCounted :
      (index n : ℕ) (rows : List Row) (sent : Sent) (w : W)
      → IsCounted sent n
      → IsCounted (send_rows payload_of str_exc post index rows sent w).0 (n + length rows)
  unfolding send_rows
  send_rows-IsCounted index n [] sent w c = record {
    adds_up = omega (arith, c.adds_up);
    kept = c.kept;
  }
  send_rows-IsCounted index n (row ∷ rows) sent w c =
      let done = send_row payload_of str_exc post row w in
      let later =
        send_rows-IsCounted (suc index) (suc n) rows (count_row index done.0 sent) done.1
          (count_row-IsCounted index n done.0 sent c) in
      record { adds_up = omega (arith, later.adds_up); kept = later.kept }

  -- The counts of an injected batch add up to its rows, and the first five failures are kept. The script ends with
  -- 2 where there were rows and all failed, with 0 where all succeeded and the report came if it was asked for, and
  -- with 1 where a row failed or the report did not come.
  pub inject_batch-IsExit :
      (no_drift_report : Bool) (fetch : W → Bool × W) (rows : List Row) (w : W)
      → let done = inject_batch payload_of str_exc post no_drift_report fetch rows w in
        let report = (fetch (send_rows payload_of str_exc post 0 rows nothing_sent w).1).0 in
        IsCounted done.0.0 (length rows)
        × IsExit no_drift_report report done.0.0 (length rows) done.0.1
  unfolding inject_batch
  inject_batch-IsExit no_drift_report fetch rows w =
      let done = send_rows payload_of str_exc post 0 rows nothing_sent w in
      let c : IsCounted done.0 (length rows) =
        subst (IsCounted done.0) (omega arith)
          (send_rows-IsCounted 0 0 rows nothing_sent w (record { adds_up = refl; kept = refl })) in
      elim (Bool-cases (done.0.success_count == 0 && ltb 0 (length rows))) [
        | inl failed ↦
            let (none_sent, filled) =
              and-both (done.0.success_count == 0) (ltb 0 (length rows)) failed in
            rw (failed, inject_batch)
              ((c, all_failed (beq-path _ _ none_sent) (ground (arith, filled))))
        | inr other ↦ elim (Bool-cases no_drift_report) [
          | inl skip ↦
              rw (other, inject_batch)
                (rw (skip, inject_batch)
                  ((c, sent_status true _ done.0 (length rows) c (inl refl))))
          | inr ask ↦ elim (Bool-cases (fetch done.1).0) [
            | inl came ↦
                rw (other, inject_batch)
                  (rw (ask, inject_batch)
                    (rw (came, inject_batch)
                      ((c, sent_status false true done.0 (length rows) c (inr refl)))))
            | inr lost ↦
                rw (other, inject_batch)
                  (rw (ask, inject_batch)
                    (rw (lost, inject_batch) ((c, some_failed (inr (refl, refl))))))
          ]
        ]
      ]
