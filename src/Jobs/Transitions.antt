-- ===== src/Jobs/Transitions.antt =====
-- What completing, retrying and dead-lettering do, on every branch, in sound tables.
mod Endings
pub mod Retry
pub mod Replay
use mathlib.Core.Option
use euphoria_api.Base.{
  ℕ, ◌≤◌, ◌<◌, ◌≡◌, refl, sym, ◌∙◌, ap, ◌≢◌, Bool, true, false, ◌⊎◌, inl, inr, Option, none, some,
  Text, Result, ok, arith, Bool-cases, Option-cases, nat_eqb, nat_eqb_iff, is_set, ltb, leb, first,
  if◌then◌else◌, ◌>>=◌, ◌>>◌,
}
use euphoria_api.Sql.{update}
use euphoria_api.Sql.Keys.{find, written, find-update, find_key}
use euphoria_api.Validate.{assert_bounded_nonblank_string}
use euphoria_api.Jobs.Schema.{
  Job, Attempt, JobStore, JobFault, invalid_argument, job_key, attempt_key, owns_lease,
  is_open_attempt, is_leased, TransitionResult, TransitionStatus, transitioned, refused,
  completed_now, already_completed, dead_lettered, already_dead_lettered, retry_scheduled,
  lease_lost, not_found, permanent_failure, attempts_exhausted, failed,
}
use euphoria_api.Jobs.Enqueue.{sanitize_failure_code}
use euphoria_api.Jobs.Finish.{
  complete_job, retry_job, dead_letter_job, find_idempotent_transition, is_finished,
  is_retry_planned, is_dead_lettered_failed, completed_job, completed_attempt, retried_job,
  retried_attempt, dead_lettered_job, dead_lettered_attempt, lost_or_missing,
}
use euphoria_api.Jobs.Checks.{sanitize-matches}
use euphoria_api.Jobs.Sound.{Sound}
use euphoria_api.Jobs.Leases.{
  ended, ended-Sound, finish_lease_owned, finish_lease_not_owned, finish_lease_missing,
  owns_lease_id,
}
use euphoria_api.Jobs.Leases.Keep.{Ending}
pub use Endings.{completed-Ending, retried-Ending, dead_lettered-Ending}

-- `owner` passes the check on the lease owner's name.
abbrev pub IsOwnerName : Text → Type 0
IsOwnerName owner = assert_bounded_nonblank_string owner 160 invalid_argument ≡ ok tt

-- The job `id` has become `j`, and every other job is as it was.
pub record Became (id : ℕ) (j : Job) (before after : JobStore) : Type 0 where
  pub row : find job_key id after.jobs ≡ some j
  pub others : (k : ℕ) → k ≢ id → find job_key k after.jobs ≡ find job_key k before.jobs
  pub sound : Sound after

module _ (id : ℕ) (owner : Text) (token : ℕ) (s : JobStore) (v : Sound s) where
  written_other :
      (t k : ℕ) (f : Job → Job) (o : Option Job)
      → find job_key k s.jobs ≡ o
      → k ≢ id
      → Option.map (written (owns_lease id owner token t) f) o ≡ o
  written_other t k f none h n = refl
  written_other t k f (some j) h n = elim (Bool-cases (owns_lease id owner token t j)) [
    | inl q ↦
        absurd (n (sym (find_key job_key k s.jobs j h) ∙ (owns_lease_id id owner token t j q).0))
    | inr q ↦ rw q
  ]

  pub ended-Became :
      (t : ℕ) (f : Job → Job) (g : Attempt → Attempt) (j : Job)
      → Ending f g
      → find job_key id s.jobs ≡ some j
      → owns_lease id owner token t j ≡ true
      → Became id (f j) s (ended id owner token t f g s)
  ended-Became t f g j e h m = record {
    row =
        find-update job_key (owns_lease id owner token t) f id s.jobs e.job_same
        ∙ ap (Option.map (written (owns_lease id owner token t) f)) h
        ∙ ap (λ b. some (if b then f j else j)) m;
    others = λ k n.
        find-update job_key (owns_lease id owner token t) f k s.jobs e.job_same
        ∙ written_other t k f (find job_key k s.jobs) refl n;
    sound = ended-Sound id owner token t f g s v e j h m;
  }

  module _ (name : IsOwnerName owner) (j : Job) (here : find job_key id s.jobs ≡ some j) where
    pub complete_job_owned :
        (t u : ℕ)
        → owns_lease id owner token t j ≡ true
        → (complete_job id owner token t u s
            ≡ ok (
              transitioned completed_now,
              ended id owner token t (completed_job t) (completed_attempt u) s,
            ))
          × Became id
              (completed_job t j)
              s
              (ended id owner token t (completed_job t) (completed_attempt u) s)
    unfolding complete_job
    complete_job_owned t u m = (
      rw (
        name,
        finish_lease_owned id owner token t (completed_job t) (completed_attempt u) s j v here m,
      ),
      ended-Became t (completed_job t) (completed_attempt u) j (completed-Ending t u) here m,
    )

    present : lost_or_missing id s ≡ refused lease_lost
    unfolding lost_or_missing
    present = rw here

    pub complete_job_stale :
        (t u : ℕ)
        → owns_lease id owner token t j ≡ false
        → complete_job id owner token t u s
          ≡ ok (
            (if is_set (find_idempotent_transition is_finished id token s)
                then transitioned already_completed
                else refused lease_lost),
            s,
          )
    unfolding complete_job
    complete_job_stale t u m =
        rw
          (
            name,
            finish_lease_not_owned id owner token t (completed_job t) (completed_attempt u) s j v
                here m,
          )
          (ground (arith, present))

    pub dead_letter_job_owned :
        (failure : Option Text) (t u : ℕ)
        → owns_lease id owner token t j ≡ true
        → let code = sanitize_failure_code failure in
          let set_job = dead_lettered_job t permanent_failure failed code in
          let s' = ended id owner token t set_job (dead_lettered_attempt u code) s in
          (dead_letter_job id owner token failure t u s ≡ ok (transitioned dead_lettered, s'))
          × Became id (set_job j) s s'
    unfolding dead_letter_job
    dead_letter_job_owned failure t u m =
        let code = sanitize_failure_code failure in
        let set_job = dead_lettered_job t permanent_failure failed code in
        (
          rw (
            name,
            finish_lease_owned id owner token t set_job (dead_lettered_attempt u code) s j v here m,
          ),
          ended-Became t set_job (dead_lettered_attempt u code) j
              (dead_lettered-Ending code (sanitize-matches failure) t u permanent_failure failed)
              here m,
        )

    pub dead_letter_job_stale :
        (failure : Option Text) (t u : ℕ)
        → owns_lease id owner token t j ≡ false
        → dead_letter_job id owner token failure t u s
          ≡ ok (
            (if is_set (find_idempotent_transition is_dead_lettered_failed id token s)
                then transitioned already_dead_lettered
                else refused lease_lost),
            s,
          )
    unfolding dead_letter_job
    dead_letter_job_stale failure t u m =
        let code = sanitize_failure_code failure in
        rw
          (
            name,
            finish_lease_not_owned id owner token t
                (dead_lettered_job t permanent_failure failed code) (dead_lettered_attempt u code) s
                j v here m,
          )
          (ground (arith, present))
