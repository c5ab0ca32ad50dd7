-- ===== src/Jobs/Lifecycle/Fencing.antt =====
-- A worker whose lease ran out and was claimed by another can no longer touch the job.
use euphoria_api.Base.{
  ℕ, ◌≡◌, ◌≢◌, sym, ◌∙◌, ap, true, false, inl, inr, Option, none, some, Text, Result, ok, arith,
  All, All-map, All-both, Bool-cases, is_after, is_due, holds, holds-some, some_inj, nat_eq,
}
use euphoria_api.Sql.Keys.{find}
use euphoria_api.Jobs.Schema.{
  Job, Attempt, JobStore, JobFault, TransitionResult, job_key, attempt_key, owns_lease, is_leased,
}
use euphoria_api.Jobs.Finish.{complete_job, retry_job, dead_letter_job}
use euphoria_api.Jobs.Claim.{ClaimInput, Readings, Claims, claim_jobs, is_claimable, is_spent_lease}
use euphoria_api.Jobs.Sound.{Sound}
use euphoria_api.Jobs.Transitions.{IsOwnerName, complete_job_stale, dead_letter_job_stale}
use euphoria_api.Jobs.Transitions.Retry.{retry_job_stale}
use euphoria_api.Jobs.Claims.Batch.{FreshTokens}
use euphoria_api.Jobs.Claims.Total.{Earned, claim_jobs_outcome}

-- The call goes through and leaves the tables as they are.
abbrev pub Leaves : JobStore → Result JobFault (TransitionResult × JobStore) → Type 0
Leaves s call = (answer : TransitionResult) × (call ≡ ok (answer, s))

-- No call of this worker under this token changes the tables, at any time.
pub record Fenced (id : ℕ) (owner : Text) (token : ℕ) (s : JobStore) : Type 0 where
  pub completing : (t u : ℕ) → Leaves s (complete_job id owner token t u s)
  pub retrying :
      (at : ℕ) (failure : Option Text) (t u w : ℕ)
      → Leaves s (retry_job id owner token (some at) failure t u w s)
  pub dead_lettering :
      (failure : Option Text) (t u : ℕ) → Leaves s (dead_letter_job id owner token failure t u s)

other_token :
    (id : ℕ) (owner : Text) (token t : ℕ) (j : Job)
    → holds j.lease_token token ≡ false
    → owns_lease id owner token t j ≡ false
unfolding owns_lease
other_token id owner token t j h = ground arith

module _ (id : ℕ) (owner : Text) (token : ℕ) (s : JobStore) (v : Sound s) (name : IsOwnerName owner)
    (j : Job) (found : find job_key id s.jobs ≡ some j) where
  Fenced-of_token : holds j.lease_token token ≡ false → Fenced id owner token s
  Fenced-of_token h = record {
    completing = λ t u. (
      _,
      complete_job_stale id owner token s v name j found t u (other_token id owner token t j h),
    );
    retrying = λ at failure t u w. (
      _,
      retry_job_stale id owner token s v name j found failure at t u w
          (other_token id owner token t j h),
    );
    dead_lettering = λ failure t u. (
      _,
      dead_letter_job_stale id owner token s v name j found failure t u
          (other_token id owner token t j h),
    );
  }

Fenced-row :
    (kind holder owner : Text) (version t token : ℕ) (uuid : ℕ → ℕ) (s s' : JobStore) (a : Attempt)
    (j : Job)
    → Sound s'
    → FreshTokens uuid s
    → IsOwnerName owner
    → find attempt_key token s.attempts ≡ some a
    → find job_key j.id s'.jobs ≡ some j
    → Earned kind holder version t uuid s s' j
    → Fenced j.id owner token s'
Fenced-row kind holder owner version t token uuid s s' a j v fresh name old found e =
    Fenced-of_token j.id owner token s' v name j found
      (elim (Bool-cases (holds j.lease_token token)) [
        | inr n ↦ n
        | inl q ↦
            let same : uuid e.draw ≡ token =
              some_inj (sym e.new_token ∙ holds-some j.lease_token token q) in
            absurd (cc (fresh.unused e.draw, old, ap (λ i. find attempt_key i s.attempts) same))
      ])

-- Once a batch has been claimed in sound tables, with tokens that were not in use, the token of any
-- earlier attempt is void for each claimed job: whoever still holds it, under a valid owner name,
-- can complete, retry or dead-letter nothing, at any time.
pub claim_jobs-fences :
    (input : ClaimInput) (r : Readings) (s s' : JobStore) (c : Claims) (token : ℕ) (owner : Text)
    (a : Attempt)
    → Sound s
    → FreshTokens r.uuid s
    → claim_jobs input r s ≡ ok (c, s')
    → IsOwnerName owner
    → find attempt_key token s.attempts ≡ some a
    → All (λ j. Fenced j.id owner token s') c.claimed
claim_jobs-fences input r s s' c token owner a v fresh ran name old =
    let (version, limit, many, o) = claim_jobs_outcome input r s s' c v fresh ran in
    All-map
      (λ j q.
        Fenced-row input.job_kind input.lease_owner owner version r.claim_query token r.uuid s s' a
          j o.sound fresh name old q.0 q.1)
      c.claimed (All-both (λ j. find job_key j.id s'.jobs ≡ some j) _ c.claimed o.stored o.earned)

not_due : (expires : Option ℕ) (t : ℕ) → is_after expires t ≡ true → is_due expires t ≡ false
not_due none t h = cc
not_due (some x) t h = ground arith

live_not_claimable :
    (kind : Text) (version t : ℕ) (j : Job)
    → is_leased j.state ≡ true
    → is_after j.lease_expires_at t ≡ true
    → is_claimable kind version t j ≡ false
unfolding is_claimable
live_not_claimable kind version t j l h = ground (arith, not_due j.lease_expires_at t)

live_not_spent :
    (kind : Text) (version t : ℕ) (j : Job)
    → is_leased j.state ≡ true
    → is_after j.lease_expires_at t ≡ true
    → is_spent_lease kind version t j ≡ false
unfolding is_spent_lease
live_not_spent kind version t j l h = ground (arith, not_due j.lease_expires_at t)

-- In sound tables, and with tokens that were not in use, a lease that has not run out when the two
-- queries look is left alone by a claim that comes through: its job is not among the claimed ones,
-- and its row is as it was.
pub claim_jobs_spares_live :
    (input : ClaimInput) (r : Readings) (s s' : JobStore) (c : Claims) (k : ℕ) (j : Job)
    → Sound s
    → FreshTokens r.uuid s
    → claim_jobs input r s ≡ ok (c, s')
    → find job_key k s.jobs ≡ some j
    → is_leased j.state ≡ true
    → is_after j.lease_expires_at r.spent_query ≡ true
    → is_after j.lease_expires_at r.claim_query ≡ true
    → (find job_key k s'.jobs ≡ some j) × All (λ x. x.id ≢ k) c.claimed
claim_jobs_spares_live input r s s' c k j v fresh ran h l live0 live =
    let (version, limit, many, o) = claim_jobs_outcome input r s s' c v fresh ran in
    let free = live_not_claimable input.job_kind version r.claim_query j l live in
    (
      o.untouched k j h (live_not_spent input.job_kind version r.spent_query j l live0) free,
      All-map
          (λ x (e : Earned input.job_kind input.lease_owner version r.claim_query r.uuid s s' x).
            λ same.
              let row : e.before ≡ j =
                some_inj (sym e.was ∙ ap (λ i. find job_key i s.jobs) same ∙ h) in
              absurd (
                cc (
                  free,
                  e.was_claimable,
                  ap (is_claimable input.job_kind version r.claim_query) row,
                )))
          c.claimed o.earned,
    )
