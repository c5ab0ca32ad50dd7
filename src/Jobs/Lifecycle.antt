-- ===== src/Jobs/Lifecycle.antt =====
-- Every sequence of operations, in any order and by any workers, from empty tables: one
-- transaction is one step. Transactions that throw are rolled back, and are no steps.
mod Workers
mod Tables
pub mod Fencing
use euphoria_api.Base.{
  ℕ, ◌<◌, ◌≡◌, refl, sym, ◌∙◌, ap, Bool, true, false, inl, inr, List, [], ◌∷◌, Option, none, some,
  Text, Result, ok, arith, All, some_inj, is_set, holds,
}
use euphoria_api.Sql.Keys.{find, find_key}
use euphoria_api.Validate.{Number}
use euphoria_api.Jobs.Schema.{
  Job, Attempt, JobStore, TransitionResult, job_key, attempt_key, is_leased, is_open,
}
use euphoria_api.Jobs.Enqueue.{EnqueueInput, enqueue_job}
use euphoria_api.Jobs.Claim.{ClaimInput, Readings, Claims, claim_jobs}
use euphoria_api.Jobs.Finish.{complete_job, retry_job, dead_letter_job}
use euphoria_api.Jobs.Maintenance.{RequeueInput, RequeueResult, requeue_job, cleanup_jobs}
use euphoria_api.Jobs.Sound.{Sound, HasOpenAttempt, HasJob}
use euphoria_api.Jobs.Claims.Batch.{FreshTokens}
use Workers.{complete_job-Sound, dead_letter_job-Sound, retry_job-Sound}
use Tables.{enqueue_job-Sound, claim_jobs-Sound, cleanup_jobs-Sound, requeue_job-Sound}

pub data JobStep (s s' : JobStore) : Type 0 where
  enqueues :
      (id started at : ℕ) (input : EnqueueInput) (j : Job)
      → enqueue_job id started at input s ≡ ok (j, s')
      → JobStep s s'
  claims :
      (input : ClaimInput) (r : Readings) (c : Claims)
      → FreshTokens r.uuid s
      → claim_jobs input r s ≡ ok (c, s')
      → JobStep s s'
  completes :
      (id : ℕ) (owner : Text) (token t u : ℕ) (result : TransitionResult)
      → complete_job id owner token t u s ≡ ok (result, s')
      → JobStep s s'
  retries :
      (id : ℕ) (owner : Text) (token : ℕ) (at : Option ℕ) (failure : Option Text) (t u w : ℕ)
      (result : TransitionResult)
      → retry_job id owner token at failure t u w s ≡ ok (result, s')
      → JobStep s s'
  dead_letters :
      (id : ℕ) (owner : Text) (token : ℕ) (failure : Option Text) (t u : ℕ)
      (result : TransitionResult)
      → dead_letter_job id owner token failure t u s ≡ ok (result, s')
      → JobStep s s'
  requeues :
      (requeue_id started t u id : ℕ) (input : RequeueInput) (result : RequeueResult)
      → requeue_job requeue_id started t u id input s ≡ ok (result, s')
      → JobStep s s'
  cleans :
      (locked : ℕ → Bool) (t : ℕ) (batch_size : Number) (ids : List ℕ)
      → cleanup_jobs locked t batch_size s ≡ ok (ids, s')
      → JobStep s s'

pub data Reach (s : JobStore) : JobStore → Type 0 where
  here : Reach s s
  next : {t u : JobStore} → Reach s t → JobStep t u → Reach s u

pub JobStep-Sound : (s s' : JobStore) → Sound s → JobStep s s' → Sound s'
JobStep-Sound s s' v (enqueues id started at input j h) =
    enqueue_job-Sound s s' v id started at input j h
JobStep-Sound s s' v (claims input r c fresh h) = claim_jobs-Sound s s' v input r c fresh h
JobStep-Sound s s' v (completes id owner token t u result h) =
    complete_job-Sound id owner token s s' v result t u h
JobStep-Sound s s' v (retries id owner token at failure t u w result h) =
    retry_job-Sound id owner token s s' v result at failure t u w h
JobStep-Sound s s' v (dead_letters id owner token failure t u result h) =
    dead_letter_job-Sound id owner token s s' v result failure t u h
JobStep-Sound s s' v (requeues requeue_id started t u id input result h) =
    requeue_job-Sound s s' v requeue_id started t u id input result h
JobStep-Sound s s' v (cleans locked t batch_size ids h) =
    cleanup_jobs-Sound s s' v locked t batch_size ids h

abbrev pub empty_store : JobStore
empty_store = record { jobs = []; attempts = []; requeues = [] }

empty-Sound : Sound empty_store
unfolding find
empty-Sound = record {
  jobs_distinct = tt;
  tokens_distinct = tt;
  jobs_checked = tt;
  attempts_checked = tt;
  leases_recorded = λ k j h l. absurd (cc);
  attempts_owned = λ t a h. absurd (cc);
}

Reach-keeps : {s t : JobStore} → Sound s → Reach s t → Sound t
Reach-keeps v here = v
Reach-keeps v (next {t} {u} r step) = JobStep-Sound t u (Reach-keeps v r) step

pub Reach-Sound : (s : JobStore) → Reach empty_store s → Sound s
Reach-Sound s r = Reach-keeps empty-Sound r

-- In every reachable state two open attempts of one job are one attempt.
pub one_open_attempt :
    (s : JobStore) (t u : ℕ) (a b : Attempt)
    → Reach empty_store s
    → find attempt_key t s.attempts ≡ some a
    → find attempt_key u s.attempts ≡ some b
    → is_open a.outcome ≡ true
    → is_open b.outcome ≡ true
    → a.job_id ≡ b.job_id
    → a ≡ b
one_open_attempt s t u a b r ha hb oa ob same =
    let v = Reach-Sound s r in
    let p : HasJob s a = v.attempts_owned t a ha in
    let q : HasJob s b = v.attempts_owned u b hb in
    let one : p.job ≡ q.job =
      some_inj (sym p.recorded ∙ ap (λ i. find job_key i s.jobs) same ∙ q.recorded) in
    let tokens : a.token ≡ b.token =
      some_inj (
        sym (p.token_while_open oa)
        ∙ ap (λ (j : Job). j.lease_token) one
        ∙ q.token_while_open ob) in
    some_inj (
      sym ha
      ∙ ap (λ i. find attempt_key i s.attempts)
          (sym (find_key attempt_key t s.attempts a ha)
            ∙ tokens
            ∙ find_key attempt_key u s.attempts b hb)
      ∙ hb)
