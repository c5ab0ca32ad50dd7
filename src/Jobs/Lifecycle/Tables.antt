-- ===== src/Jobs/Lifecycle/Tables.antt =====
-- Whatever enqueueing, claiming, requeueing and cleaning up return, the tables stay sound.
use euphoria_api.Base.{
  ℕ, suc, ◌≡◌, ◌<◌, refl, subst, Bool, true, false, not, ◌&&◌, ◌||◌, inl, inr, List, none, Result,
  ok, arith, Bool-cases, Option-cases, is_set, leb, guard, ◌>>◌, >>=-eq-ok,
}
use euphoria_api.Sql.Keys.{find}
use euphoria_api.Validate.{
  Number, assert_positive_integer, assert_nonnegative_integer, assert_bounded_nonblank_string,
  matches_failure_code,
}
use euphoria_api.Jobs.Schema.{
  Job, JobStore, JobFault, invalid_argument, constraint_violation, out_of_range, job_key,
  is_dead_letter, not_found,
}
use euphoria_api.Jobs.Enqueue.{EnqueueInput, enqueue_job, validate_job_identity, fits_int4}
use euphoria_api.Jobs.Claim.{ClaimInput, Readings, Claims, claim_jobs}
use euphoria_api.Jobs.Maintenance.{
  RequeueInput, RequeueResult, not_requeueable, requeue_job, cleanup_jobs,
}
use euphoria_api.Jobs.Sound.{Sound}
use euphoria_api.Jobs.Claims.Batch.{FreshTokens}
use euphoria_api.Jobs.Claims.Total.{claim_jobs_outcome}
use euphoria_api.Jobs.Upkeep.Enqueue.{enqueue_job_lem}
use euphoria_api.Jobs.Upkeep.Requeue.{
  requeue_job_dead, requeue_job_refused, requeue_job_out_of_range,
}
use euphoria_api.Jobs.Upkeep.Cleanup.{cleanup_jobs_total}
use euphoria_api.Jobs.Lifecycle.Workers.{same_store}

guard_of_ok :
    {B : Type 0} (b : Bool) (e : JobFault) (m : Result JobFault B) {x : B}
    → (guard b e >> m) ≡ ok x
    → (b ≡ true) × (m ≡ ok x)
guard_of_ok true e m h = (refl, h)
guard_of_ok false e m h = absurd (cc)

module _ (s s' : JobStore) (v : Sound s) where
  pub enqueue_job-Sound :
      (id started at : ℕ) (input : EnqueueInput) (j : Job)
      → enqueue_job id started at input s ≡ ok (j, s')
      → Sound s'
  unfolding enqueue_job validate_job_identity
  enqueue_job-Sound id started at input j h =
      let (version, identity, h1) =
        >>=-eq-ok (validate_job_identity input.job_kind input.job_version) _ h in
      let (named, kind, versioned) =
        >>=-eq-ok (assert_bounded_nonblank_string input.job_kind 120 invalid_argument) _ identity in
      let (delay, delayed, h2) =
        >>=-eq-ok (assert_nonnegative_integer input.available_in_seconds invalid_argument) _ h1 in
      let (most, limited, h3) =
        >>=-eq-ok (assert_positive_integer input.max_attempts invalid_argument) _ h2 in
      let (retention, retained, h4) =
        >>=-eq-ok (assert_positive_integer input.terminal_retention_seconds invalid_argument) _
          h3 in
      let (fits, h5) =
        guard_of_ok (fits_int4 version && fits_int4 most && fits_int4 retention) out_of_range _
          h4 in
      let (free, h6) =
        guard_of_ok (not (is_set (find job_key id s.jobs))) constraint_violation _ h5 in
      let unused : find job_key id s.jobs ≡ none = ground (arith, free) in
      let (t, ran, became) =
        enqueue_job_lem id started at input s v version delay most retention kind versioned delayed
          limited retained fits unused in
      subst Sound (same_store _ ran h) became.sound

  pub claim_jobs-Sound :
      (input : ClaimInput) (r : Readings) (c : Claims)
      → FreshTokens r.uuid s
      → claim_jobs input r s ≡ ok (c, s')
      → Sound s'
  claim_jobs-Sound input r c fresh h =
      let (version, limit, many, outcome) = claim_jobs_outcome input r s s' c v fresh h in
      outcome.sound

  pub cleanup_jobs-Sound :
      (locked : ℕ → Bool) (at : ℕ) (batch_size : Number) (ids : List ℕ)
      → cleanup_jobs locked at batch_size s ≡ ok (ids, s')
      → Sound s'
  unfolding cleanup_jobs
  cleanup_jobs-Sound locked at batch_size ids h =
      let (count, sized, _) = >>=-eq-ok (assert_positive_integer batch_size invalid_argument) _ h in
      let (ids', t, ran, sound, _, _) = cleanup_jobs_total locked at batch_size count s v sized in
      subst Sound (same_store _ ran h) sound

  pub requeue_job-Sound :
      (requeue_id started t u id : ℕ) (input : RequeueInput) (result : RequeueResult)
      → requeue_job requeue_id started t u id input s ≡ ok (result, s')
      → Sound s'
  unfolding requeue_job
  requeue_job-Sound requeue_id started t u id input result h =
      let (delay, delayed, h1) =
        >>=-eq-ok (assert_nonnegative_integer input.available_in_seconds invalid_argument) _ h in
      let (most, limited, h2) =
        >>=-eq-ok (assert_positive_integer input.max_attempts invalid_argument) _ h1 in
      let (named, name, h3) =
        >>=-eq-ok (assert_bounded_nonblank_string input.requested_by 160 invalid_argument) _ h2 in
      let (coded, h4) =
        guard_of_ok (matches_failure_code input.reason_code) invalid_argument _ h3 in
      elim (Option-cases (find job_key id s.jobs)) [
        | inl n ↦ subst Sound (same_store _ (missing delay most delayed limited name coded n) h) v
        | inr (c, here) ↦
            elim (Bool-cases (not (is_dead_letter c.state) || leb most c.attempt_count)) [
              | inl refusal ↦
                  subst Sound
                    (same_store _
                      (requeue_job_refused requeue_id started t u id input s v delay most delayed
                        limited name coded c here refusal)
                      h)
                    v
              | inr open_case ↦
                  let dead : is_dead_letter c.state ≡ true = ground arith in
                  let more : c.attempt_count < most = ground arith in
                  elim (Bool-cases (fits_int4 most && fits_int4 (suc c.manual_requeue_count))) [
                    | inl fits ↦
                        let (reason, outcome, p, q, s2, ran, became, rows) =
                          requeue_job_dead requeue_id started t u id input s v delay most delayed
                            limited name coded c here dead more fits in
                        subst Sound (same_store _ ran h) became.sound
                    | inr wide ↦ absurd (
                        cc (
                          h,
                          requeue_job_out_of_range requeue_id started t u id input s v delay most
                              delayed limited name coded c here dead more wide,
                        ))
                  ]
            ]
      ]
    where
      missing :
          (delay most : ℕ)
          → assert_nonnegative_integer input.available_in_seconds invalid_argument ≡ ok delay
          → assert_positive_integer input.max_attempts invalid_argument ≡ ok most
          → assert_bounded_nonblank_string input.requested_by 160 invalid_argument ≡ ok tt
          → matches_failure_code input.reason_code ≡ true
          → find job_key id s.jobs ≡ none
          → requeue_job requeue_id started t u id input s ≡ ok (not_requeueable not_found, s)
      missing delay most delayed limited name coded n = rw (delayed, limited, name, coded, n)
