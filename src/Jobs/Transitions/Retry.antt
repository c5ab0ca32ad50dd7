-- ===== src/Jobs/Transitions/Retry.antt =====
-- What retrying does, on every branch, in sound tables: `t` is the clock when the row is read,
-- `u` at the update of the job, `w` at that of its attempt.
use euphoria_api.Base.{
  ℕ, ◌≤◌, ◌<◌, ◌≡◌, true, false, not, ◌||◌, inl, inr, Bool-cases, holds, is_after, Option, some,
  Text, ok, arith, ltb, text_eq, nat_eq,
}
use euphoria_api.Sql.Keys.{find, find_key}
use euphoria_api.Jobs.Schema.{
  Job, JobStore, job_key, owns_lease, is_leased, transitioned, refused, dead_lettered,
  retry_scheduled, lease_lost, attempts_exhausted, failed,
}
use euphoria_api.Jobs.Checks.{sanitize-matches}
use euphoria_api.Jobs.Enqueue.{sanitize_failure_code}
use euphoria_api.Jobs.Finish.{
  retry_job, retry_prior, find_idempotent_transition, is_retry_planned, is_dead_lettered_failed,
  retried_job, retried_attempt, dead_lettered_job, dead_lettered_attempt,
}
use euphoria_api.Jobs.Sound.{Sound}
use euphoria_api.Jobs.Leases.{ended, finish_lease_owned, finish_lease_not_owned}
use euphoria_api.Jobs.Transitions.{
  IsOwnerName, Became, ended-Became, retried-Ending, dead_lettered-Ending,
}

-- The test of the row that was read says whether this worker holds the lease.
lapsed-owns_lease :
    (id : ℕ) (owner : Text) (token t : ℕ) (j : Job)
    → job_key j ≡ id
    → (not (is_leased j.state)
        || not (holds j.lease_owner owner)
        || not (holds j.lease_token token)
        || not (is_after j.lease_expires_at t))
      ≡ not (owns_lease id owner token t j)
unfolding owns_lease
lapsed-owns_lease id owner token t j h = ground arith

module _ (id : ℕ) (owner : Text) (token : ℕ) (s : JobStore) (v : Sound s) (name : IsOwnerName owner)
    (j : Job) (here : find job_key id s.jobs ≡ some j) (failure : Option Text) (at t u w : ℕ) where
  lapsed_here :
      (not (is_leased j.state)
        || not (holds j.lease_owner owner)
        || not (holds j.lease_token token)
        || not (is_after j.lease_expires_at t))
      ≡ not (owns_lease id owner token t j)
  lapsed_here = lapsed-owns_lease id owner token t j (find_key job_key id s.jobs j here)

  pub retry_job_again :
      owns_lease id owner token t j ≡ true
      → owns_lease id owner token u j ≡ true
      → j.attempt_count < j.max_attempts
      → let code = sanitize_failure_code failure in
        let s' = ended id owner token u (retried_job u at code) (retried_attempt w at code) s in
        (retry_job id owner token (some at) failure t u w s ≡ ok (transitioned retry_scheduled, s'))
        × Became id (retried_job u at code j) s s'
  unfolding retry_job
  retry_job_again current m lt =
      let code = sanitize_failure_code failure in
      let left : ltb j.attempt_count j.max_attempts ≡ true = ground arith in
      (
        rw (
          name,
          here,
          lapsed_here,
          current,
          left,
          finish_lease_owned id owner token u (retried_job u at code) (retried_attempt w at code) s
              j v here m,
        ),
        ended-Became id owner token s v u (retried_job u at code) (retried_attempt w at code) j
            (retried-Ending code (sanitize-matches failure) u w at) here m,
      )

  pub retry_job_exhausted :
      owns_lease id owner token t j ≡ true
      → owns_lease id owner token u j ≡ true
      → j.max_attempts ≤ j.attempt_count
      → let code = sanitize_failure_code failure in
        let set_job = dead_lettered_job u attempts_exhausted failed code in
        let s' = ended id owner token u set_job (dead_lettered_attempt w code) s in
        (retry_job id owner token (some at) failure t u w s ≡ ok (transitioned dead_lettered, s'))
        × Became id (set_job j) s s'
  unfolding retry_job
  retry_job_exhausted current m le =
      let code = sanitize_failure_code failure in
      let set_job = dead_lettered_job u attempts_exhausted failed code in
      let spent : ltb j.attempt_count j.max_attempts ≡ false = ground arith in
      (
        rw (
          name,
          here,
          lapsed_here,
          current,
          spent,
          finish_lease_owned id owner token u set_job (dead_lettered_attempt w code) s j v here m,
        ),
        ended-Became id owner token s v u set_job (dead_lettered_attempt w code) j
            (dead_lettered-Ending code (sanitize-matches failure) u w attempts_exhausted failed)
            here m,
      )

  -- A lease that runs out between the read and the write is lost, and nothing has changed.
  pub retry_job_late :
      owns_lease id owner token t j ≡ true
      → owns_lease id owner token u j ≡ false
      → retry_job id owner token (some at) failure t u w s ≡ ok (refused lease_lost, s)
  unfolding retry_job
  retry_job_late current m =
      let code = sanitize_failure_code failure in
      let set_job = dead_lettered_job u attempts_exhausted failed code in
      let again =
        finish_lease_not_owned id owner token u (retried_job u at code) (retried_attempt w at code)
          s j v here m in
      let dead =
        finish_lease_not_owned id owner token u set_job (dead_lettered_attempt w code) s j v here
          m in
      rw (name, here, lapsed_here, current)
        (elim (Bool-cases (ltb j.attempt_count j.max_attempts)) [
          | inl e ↦ rw (e, again)
          | inr e ↦ rw (e, dead)
        ])

  -- With a valid owner name, and a job of that id, a worker without the lease changes nothing: it is
  -- told how its attempt had ended, if it ended by a failure, and otherwise that the lease is lost.
  pub retry_job_stale :
      owns_lease id owner token t j ≡ false
      → retry_job id owner token (some at) failure t u w s
        ≡ ok (
          retry_prior (
              find_idempotent_transition
                (λ o. is_dead_lettered_failed o || is_retry_planned o)
                id
                token
                s),
          s,
        )
  unfolding retry_job
  retry_job_stale m = rw (name, here, lapsed_here, m)
