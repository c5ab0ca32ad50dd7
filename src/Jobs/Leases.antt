-- ===== src/Jobs/Leases.antt =====
-- What it takes to end a lease, and what that does to the tables.

pub mod Keep
use euphoria_api.Base.{
  ℕ, ◌≤◌, ◌≡◌, refl, sym, ◌∙◌, ap, ◌≢◌, Bool, true, false, ◌&&◌, ◌⊎◌, inl, inr, List, [], ◌∷◌, map,
  Option, none, some, Text, Result, ok, arith, some_inj, All, first, is_set, holds, holds-some,
  is_after, ◌==◌, nat_eq, text_eq, text_eqb_iff, text_eqb, Bool-cases, if◌then◌else◌, and-true,
  eq_self,
}
use euphoria_api.Sql.{select, update, updated, All-update}
use euphoria_api.Sql.Keys.{
  Distinct, find, only, written, find_key, find-update, select-find, Distinct-update, find-All,
}
use euphoria_api.Jobs.Schema.{
  Job, Attempt, JobStore, JobFault, job_key, attempt_key, is_leased, is_open, owns_lease,
  is_open_attempt, close_attempt,
}
use euphoria_api.Jobs.Checks.{JobChecks, AttemptChecks}
use euphoria_api.Jobs.Sound.{Sound, HasOpenAttempt, HasJob}
use euphoria_api.Jobs.Finish.{finish_lease}
use Keep.{Ending, Targets, written-Sound, written_attempt}

pub owns_lease_id :
    (id : ℕ) (owner : Text) (token t : ℕ) (j : Job)
    → owns_lease id owner token t j ≡ true
    → (job_key j ≡ id)
      × (is_leased j.state ≡ true)
      × (j.lease_owner ≡ some owner)
      × (j.lease_token ≡ some token)
      × (is_after j.lease_expires_at t ≡ true)
unfolding owns_lease
owns_lease_id id owner token t j h =
    ground (arith, holds-some j.lease_owner owner, holds-some j.lease_token token)

pub is_open_attempt_token :
    (id token : ℕ) (owner : Text) (a : Attempt)
    → is_open_attempt id token owner a ≡ true
    → (attempt_key a ≡ token) × (a.job_id ≡ id) × (a.owner ≡ owner) × (is_open a.outcome ≡ true)
unfolding is_open_attempt
is_open_attempt_token id token owner a h = ground (arith, text_eqb_iff a.owner owner)

pub is_open_attempt_intro :
    (id token : ℕ) (owner : Text) (a : Attempt)
    → attempt_key a ≡ token
    → a.job_id ≡ id
    → a.owner ≡ owner
    → is_open a.outcome ≡ true
    → is_open_attempt id token owner a ≡ true
unfolding is_open_attempt
is_open_attempt_intro id token owner a p q r h = ground (arith, text_eqb_iff a.owner owner)

-- An update about one key returns at most the row of that key.
pub updated-only {ℓ} :
    {A : Type ℓ} (key : A → ℕ) (p : A → Bool) (f : A → A) (k : ℕ) (xs : List A)
    → ((x : A) → p x ≡ true → key x ≡ k)
    → Distinct key xs
    → updated p f xs ≡ map f (only p (find key k xs))
unfolding updated
updated-only key p f k xs about d = rw (select-find key p k xs about d)

module _ (id : ℕ) (owner : Text) (token t : ℕ) (f : Job → Job) (g : Attempt → Attempt)
    (s : JobStore) where
  abbrev pub mine : Job → Bool
  mine = owns_lease id owner token t

  abbrev pub closing : Attempt → Bool
  closing = is_open_attempt id token owner

  -- The tables after the lease has ended.
  abbrev pub ended : JobStore
  ended = record s { jobs = update mine f s.jobs; attempts = update closing g s.attempts }

  returned_jobs :
      (j : Job)
      → Sound s
      → find job_key id s.jobs ≡ some j
      → updated mine f s.jobs ≡ map f (only mine (some j))
  returned_jobs j v e =
      updated-only job_key mine f id s.jobs (λ x h. (owns_lease_id id owner token t x h).0)
        v.jobs_distinct
      ∙ ap (λ o. map f (only mine o)) e

  returned_attempts :
      (a : Attempt)
      → Sound s
      → find attempt_key token s.attempts ≡ some a
      → updated closing g s.attempts ≡ map g (only closing (some a))
  returned_attempts a v e =
      updated-only attempt_key closing g token s.attempts
        (λ x h. (is_open_attempt_token id token owner x h).0) v.tokens_distinct
      ∙ ap (λ o. map g (only closing o)) e

  -- The worker that holds the lease ends it, and its attempt is always there to close.
  pub finish_lease_owned :
      (j : Job)
      → Sound s
      → find job_key id s.jobs ≡ some j
      → owns_lease id owner token t j ≡ true
      → finish_lease id owner token t f g s ≡ ok (some ended)
  unfolding finish_lease close_attempt
  finish_lease_owned j v e h =
      let facts = owns_lease_id id owner token t j h in
      let o : HasOpenAttempt s j = v.leases_recorded id j e facts.1 in
      let same : o.held ≡ token = some_inj (sym o.token_held ∙ facts.3) in
      let owned : o.owner ≡ owner = some_inj (sym o.owner_held ∙ facts.2) in
      let open_row : closing o.attempt ≡ true =
        is_open_attempt_intro id token owner o.attempt
          (find_key attempt_key o.held s.attempts o.attempt o.recorded ∙ same)
          (o.same_job ∙ facts.0) (o.same_owner ∙ owned) o.still_open in
      rw (returned_jobs j v e, h, returned_attempts o.attempt v (rw same at o.recorded), open_row)

  -- Any other worker changes nothing.
  pub finish_lease_not_owned :
      (j : Job)
      → Sound s
      → find job_key id s.jobs ≡ some j
      → owns_lease id owner token t j ≡ false
      → finish_lease id owner token t f g s ≡ ok none
  unfolding finish_lease
  finish_lease_not_owned j v e h = rw (returned_jobs j v e, h)

  pub finish_lease_missing :
      Sound s → find job_key id s.jobs ≡ none → finish_lease id owner token t f g s ≡ ok none
  unfolding finish_lease
  finish_lease_missing v e = rw (
    updated-only job_key mine f id s.jobs (λ x h. (owns_lease_id id owner token t x h).0)
        v.jobs_distinct,
    e,
  )

  owns-Targets : Targets id token mine closing s
  owns-Targets = record {
    job_facts = λ j h. let o = owns_lease_id id owner token t j h in (o.0, o.1, o.3);
    attempt_facts = λ a h. let o = is_open_attempt_token id token owner a h in (o.0, o.1, o.3);
    attempt_found = λ j h o.
        let facts = owns_lease_id id owner token t j h in
        is_open_attempt_intro id token owner o.attempt
          (find_key attempt_key o.held s.attempts o.attempt o.recorded
            ∙ some_inj (sym o.token_held ∙ facts.3))
          (o.same_job ∙ facts.0) (o.same_owner ∙ some_inj (sym o.owner_held ∙ facts.2))
          o.still_open;
  }

  pub ended-Sound :
      Sound s
      → Ending f g
      → (j : Job) → find job_key id s.jobs ≡ some j
      → owns_lease id owner token t j ≡ true
      → Sound ended
  ended-Sound v e j here m = written-Sound id token mine closing f g s v e owns-Targets j here m

  -- The attempt of the lease is found closed afterwards.
  pub ended_attempt :
      Sound s
      → Ending f g
      → (j : Job) → find job_key id s.jobs ≡ some j
      → owns_lease id owner token t j ≡ true
      → (a : Attempt) × (find attempt_key token ended.attempts ≡ some (g a)) × (a.job_id ≡ id)
  ended_attempt v e j here m = written_attempt id token mine closing f g s v e owns-Targets j here m
