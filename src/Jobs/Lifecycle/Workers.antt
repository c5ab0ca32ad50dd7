-- ===== src/Jobs/Lifecycle/Workers.antt =====
-- Whatever a worker's call returns, the tables stay sound.
use euphoria_api.Base.{
  ℕ, ◌≡◌, refl, subst, inl, inr, Option, none, some, Text, Result, ok, arith, Bool-cases,
  Option-cases, ltb, ltb→lt, >>=-eq-ok,
}
use euphoria_api.Sql.Keys.{find}
use euphoria_api.Validate.{assert_bounded_nonblank_string}
use euphoria_api.Jobs.Schema.{
  Job, JobStore, TransitionResult, refused, invalid_argument, job_key, owns_lease,
  permanent_failure, failed, not_found,
}
use euphoria_api.Jobs.Enqueue.{sanitize_failure_code}
use euphoria_api.Jobs.Finish.{
  complete_job, retry_job, dead_letter_job, completed_job, completed_attempt, dead_lettered_job,
  dead_lettered_attempt,
}
use euphoria_api.Jobs.Sound.{Sound}
use euphoria_api.Jobs.Leases.{finish_lease_missing}
use euphoria_api.Jobs.Transitions.{
  IsOwnerName, complete_job_owned, complete_job_stale, dead_letter_job_owned, dead_letter_job_stale,
}
use euphoria_api.Jobs.Transitions.Retry.{
  retry_job_again, retry_job_exhausted, retry_job_late, retry_job_stale,
}

-- The same result twice, with the same tables.
pub same_store :
    {E A S : Type 0} (r : Result E (A × S)) {a b : A} {s t : S}
    → r ≡ ok (a, s)
    → r ≡ ok (b, t)
    → s ≡ t
same_store r h k = cc

module _ (id : ℕ) (owner : Text) (token : ℕ) (s s' : JobStore) (v : Sound s)
    (result : TransitionResult) where
  complete_name :
      (t u : ℕ) → complete_job id owner token t u s ≡ ok (result, s') → IsOwnerName owner
  unfolding complete_job
  complete_name t u h =
      let (a, e, _) = >>=-eq-ok (assert_bounded_nonblank_string owner 160 invalid_argument) _ h in e

  complete_missing :
      (t u : ℕ)
      → find job_key id s.jobs ≡ none
      → complete_job id owner token t u s ≡ ok (result, s')
      → s ≡ s'
  unfolding complete_job
  complete_missing t u n h = ground (
    arith,
    complete_name t u h,
    finish_lease_missing id owner token t (completed_job t) (completed_attempt u) s v n,
  )

  pub complete_job-Sound :
      (t u : ℕ) → complete_job id owner token t u s ≡ ok (result, s') → Sound s'
  complete_job-Sound t u h =
      let name = complete_name t u h in
      elim (Option-cases (find job_key id s.jobs)) [
        | inl n ↦ subst Sound (complete_missing t u n h) v
        | inr (j, here) ↦ elim (Bool-cases (owns_lease id owner token t j)) [
          | inl m ↦
              let (ran, became) = complete_job_owned id owner token s v name j here t u m in
              subst Sound (same_store _ ran h) became.sound
          | inr m ↦
              subst Sound (same_store _ (complete_job_stale id owner token s v name j here t u m) h)
                v
        ]
      ]

  dead_letter_name :
      (failure : Option Text) (t u : ℕ)
      → dead_letter_job id owner token failure t u s ≡ ok (result, s')
      → IsOwnerName owner
  unfolding dead_letter_job
  dead_letter_name failure t u h =
      let (a, e, _) = >>=-eq-ok (assert_bounded_nonblank_string owner 160 invalid_argument) _ h in e

  dead_letter_missing :
      (failure : Option Text) (t u : ℕ)
      → find job_key id s.jobs ≡ none
      → dead_letter_job id owner token failure t u s ≡ ok (result, s')
      → s ≡ s'
  unfolding dead_letter_job
  dead_letter_missing failure t u n h =
      let code = sanitize_failure_code failure in
      ground (
        arith,
        dead_letter_name failure t u h,
        finish_lease_missing id owner token t (dead_lettered_job t permanent_failure failed code)
            (dead_lettered_attempt u code) s v n,
      )

  pub dead_letter_job-Sound :
      (failure : Option Text) (t u : ℕ)
      → dead_letter_job id owner token failure t u s ≡ ok (result, s')
      → Sound s'
  dead_letter_job-Sound failure t u h =
      let name = dead_letter_name failure t u h in
      elim (Option-cases (find job_key id s.jobs)) [
        | inl n ↦ subst Sound (dead_letter_missing failure t u n h) v
        | inr (j, here) ↦ elim (Bool-cases (owns_lease id owner token t j)) [
          | inl m ↦
              let (ran, became) =
                dead_letter_job_owned id owner token s v name j here failure t u m in
              subst Sound (same_store _ ran h) became.sound
          | inr m ↦
              subst Sound
                (same_store _ (dead_letter_job_stale id owner token s v name j here failure t u m)
                  h)
                v
        ]
      ]

  retry_valid :
      (at : Option ℕ) (failure : Option Text) (t u w : ℕ)
      → retry_job id owner token at failure t u w s ≡ ok (result, s')
      → (due : ℕ) × (at ≡ some due) × IsOwnerName owner
  unfolding retry_job
  retry_valid none failure t u w h = absurd (cc)
  retry_valid (some due) failure t u w h =
      let (a, e, _) = >>=-eq-ok (assert_bounded_nonblank_string owner 160 invalid_argument) _ h in
      (due, refl, e)

  retry_missing :
      (due : ℕ) (failure : Option Text) (t u w : ℕ)
      → IsOwnerName owner
      → find job_key id s.jobs ≡ none
      → retry_job id owner token (some due) failure t u w s ≡ ok (refused not_found, s)
  unfolding retry_job
  retry_missing due failure t u w name n = rw (name, n)

  retry_here :
      (due : ℕ) (failure : Option Text) (t u w : ℕ) (j : Job)
      → IsOwnerName owner
      → find job_key id s.jobs ≡ some j
      → retry_job id owner token (some due) failure t u w s ≡ ok (result, s')
      → Sound s'
  retry_here due failure t u w j name here h = elim (Bool-cases (owns_lease id owner token t j)) [
    | inr m ↦
        subst Sound
          (same_store _ (retry_job_stale id owner token s v name j here failure due t u w m) h) v
    | inl m ↦ elim (Bool-cases (owns_lease id owner token u j)) [
      | inr l ↦
          subst Sound
            (same_store _ (retry_job_late id owner token s v name j here failure due t u w m l) h) v
      | inl l ↦ elim (Bool-cases (ltb j.attempt_count j.max_attempts)) [
        | inl left ↦
            let (ran, became) =
              retry_job_again id owner token s v name j here failure due t u w m l
                (ltb→lt _ _ left) in
            subst Sound (same_store _ ran h) became.sound
        | inr spent ↦
            let (ran, became) =
              retry_job_exhausted id owner token s v name j here failure due t u w m l
                (ground arith) in
            subst Sound (same_store _ ran h) became.sound
      ]
    ]
  ]

  pub retry_job-Sound :
      (at : Option ℕ) (failure : Option Text) (t u w : ℕ)
      → retry_job id owner token at failure t u w s ≡ ok (result, s')
      → Sound s'
  retry_job-Sound at failure t u w h =
      let (due, e, name) = retry_valid at failure t u w h in
      let h' = subst (λ o. retry_job id owner token o failure t u w s ≡ ok (result, s')) e h in
      elim (Option-cases (find job_key id s.jobs)) [
        | inl n ↦ subst Sound (same_store _ (retry_missing due failure t u w name n) h') v
        | inr (j, here) ↦ retry_here due failure t u w j name here h'
      ]
