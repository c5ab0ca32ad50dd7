-- ===== src/Jobs/Leases/Keep.antt =====
-- Ending a lease keeps the job tables sound.
use mathlib.Core.Option
use euphoria_api.Base.{
  ℕ, ◌≡◌, sym, ◌∙◌, ap, subst, Bool, true, false, inl, inr, some, arith, some_inj, map-eq-some,
  Bool-cases, if◌then◌else◌,
}
use euphoria_api.Sql.{update, All-update}
use euphoria_api.Sql.Keys.{find, written, find_key, find-update, Distinct-update}
use euphoria_api.Jobs.Schema.{Job, Attempt, JobStore, job_key, attempt_key, is_leased, is_open}
use euphoria_api.Jobs.Checks.{JobChecks, AttemptChecks}
use euphoria_api.Jobs.Sound.{Sound, HasOpenAttempt, HasJob}

-- A write that ends a lease: the job is released and the attempt is closed, and neither loses its
-- identity or its checks.
pub record Ending (f : Job → Job) (g : Attempt → Attempt) : Type 0 where
  pub job_same : (j : Job) → (f j).id ≡ j.id
  pub count_same : (j : Job) → (f j).attempt_count ≡ j.attempt_count
  pub released : (j : Job) → is_leased (f j).state ≡ false
  pub job_checked : (j : Job) → JobChecks j → is_leased j.state ≡ true → JobChecks (f j)
  pub attempt_same : (a : Attempt) → (g a).token ≡ a.token
  pub attempt_job : (a : Attempt) → (g a).job_id ≡ a.job_id
  pub number_same : (a : Attempt) → (g a).attempt_number ≡ a.attempt_number
  pub closed : (a : Attempt) → is_open (g a).outcome ≡ false
  pub attempt_checked :
      (a : Attempt) → AttemptChecks a → is_open a.outcome ≡ true → AttemptChecks (g a)

-- The two tests of such a write: one job, the attempt of one lease, and each finds the other.
pub record Targets (id token : ℕ) (is_mine : Job → Bool) (is_closing : Attempt → Bool)
    (s : JobStore) : Type 0 where
  pub job_facts :
      (j : Job)
      → is_mine j ≡ true
      → (job_key j ≡ id) × (is_leased j.state ≡ true) × (j.lease_token ≡ some token)
  pub attempt_facts :
      (a : Attempt)
      → is_closing a ≡ true
      → (attempt_key a ≡ token) × (a.job_id ≡ id) × (is_open a.outcome ≡ true)
  pub attempt_found :
      (j : Job) → is_mine j ≡ true → (o : HasOpenAttempt s j) → is_closing o.attempt ≡ true

-- The tables after the two writes.
abbrev pub both_written :
    (Job → Bool) → (Attempt → Bool) → (Job → Job) → (Attempt → Attempt) → JobStore → JobStore
both_written is_mine is_closing f g s = record s {
  jobs = update is_mine f s.jobs;
  attempts = update is_closing g s.attempts;
}

module _ (id token : ℕ) (is_mine : Job → Bool) (is_closing : Attempt → Bool) (f : Job → Job)
    (g : Attempt → Attempt) (s : JobStore) (v : Sound s) (e : Ending f g)
    (w : Targets id token is_mine is_closing s) where
  abbrev after : JobStore
  after = both_written is_mine is_closing f g s

  find_job :
      (k : ℕ) (j : Job)
      → find job_key k s.jobs ≡ some j
      → find job_key k after.jobs ≡ some (written is_mine f j)
  find_job k j h =
      find-update job_key is_mine f k s.jobs e.job_same ∙ ap (Option.map (written is_mine f)) h

  find_attempt :
      (k : ℕ) (a : Attempt)
      → find attempt_key k s.attempts ≡ some a
      → find attempt_key k after.attempts ≡ some (written is_closing g a)
  find_attempt k a h =
      find-update attempt_key is_closing g k s.attempts e.attempt_same
      ∙ ap (Option.map (written is_closing g)) h

  -- A job that this worker does not hold keeps its open attempt.
  kept_attempt :
      (k : ℕ) (j job : Job)
      → find job_key id s.jobs ≡ some job
      → is_mine job ≡ true
      → find job_key k s.jobs ≡ some j
      → is_mine j ≡ false
      → HasOpenAttempt s j
      → HasOpenAttempt after j
  kept_attempt k j job here m h n o = elim (Bool-cases (is_closing o.attempt)) [
    | inl q ↦
        let at_id : j.id ≡ id = sym o.same_job ∙ (w.attempt_facts o.attempt q).1 in
        let at_k : k ≡ id = sym (find_key job_key k s.jobs j h) ∙ at_id in
        let same : j ≡ job = some_inj (sym h ∙ ap (λ i. find job_key i s.jobs) at_k ∙ here) in
        absurd (cc (ap is_mine same, m, n))
    | inr q ↦ record {
      held = o.held;
      owner = o.owner;
      attempt = o.attempt;
      token_held = o.token_held;
      owner_held = o.owner_held;
      recorded =
          find_attempt o.held o.attempt o.recorded
          ∙ ap (λ b. some (if b then g o.attempt else o.attempt)) q;
      same_job = o.same_job;
      same_owner = o.same_owner;
      still_open = o.still_open;
    }
  ]

  lease_kept :
      (k : ℕ) (j job : Job)
      → find job_key id s.jobs ≡ some job
      → is_mine job ≡ true
      → find job_key k s.jobs ≡ some j
      → is_leased (written is_mine f j).state ≡ true
      → HasOpenAttempt after (written is_mine f j)
  lease_kept k j job here m h l = elim (Bool-cases (is_mine j)) [
    | inl q ↦ absurd (cc (e.released j, rw q at l))
    | inr q ↦ rw q (kept_attempt k j job here m h q (v.leases_recorded k j h (rw q at l)))
  ]

  -- An attempt that stays open is not that of this worker's lease.
  not_mine :
      (a : Attempt) (job : Job)
      → find attempt_key a.token s.attempts ≡ some a
      → find job_key a.job_id s.jobs ≡ some job
      → is_open a.outcome ≡ true
      → is_leased job.state ≡ true
      → job.lease_token ≡ some a.token
      → is_closing a ≡ false
      → is_mine job ≡ false
  not_mine a job ha hj o l tok n = elim (Bool-cases (is_mine job)) [
    | inr q ↦ q
    | inl q ↦
        let r : HasOpenAttempt s job = v.leases_recorded a.job_id job hj l in
        let same : r.held ≡ a.token = some_inj (sym r.token_held ∙ tok) in
        let row : r.attempt ≡ a =
          some_inj (sym r.recorded ∙ ap (λ i. find attempt_key i s.attempts) same ∙ ha) in
        absurd (cc (n, w.attempt_found job q r, ap is_closing row))
  ]

  owned_kept :
      (k : ℕ) (a : Attempt)
      → find attempt_key k s.attempts ≡ some a
      → HasJob s a
      → HasJob after (written is_closing g a)
  owned_kept k a h r =
      let hj : find job_key a.job_id after.jobs ≡ some (written is_mine f r.job) =
        find_job a.job_id r.job r.recorded in
      let ha : find attempt_key a.token s.attempts ≡ some a =
        ap (λ i. find attempt_key i s.attempts) (find_key attempt_key k s.attempts a h) ∙ h in
      elim (Bool-cases (is_closing a)) [
        | inl q ↦ rw q (record {
          job = written is_mine f r.job;
          recorded = ap (λ i. find job_key i after.jobs) (e.attempt_job a) ∙ hj;
          number_bounded = ground (arith, e.number_same a, e.count_same r.job, r.number_bounded);
          leased_while_open = λ o. absurd (cc (o, e.closed a));
          token_while_open = λ o. absurd (cc (o, e.closed a));
        })
        | inr q ↦ rw q (record {
          job = written is_mine f r.job;
          recorded = hj;
          number_bounded = ground (arith, e.count_same r.job, r.number_bounded);
          leased_while_open = λ o.
              let n =
                not_mine a r.job ha r.recorded o (r.leased_while_open o) (r.token_while_open o) q in
              rw n (r.leased_while_open o);
          token_while_open = λ o.
              let n =
                not_mine a r.job ha r.recorded o (r.leased_while_open o) (r.token_while_open o) q in
              rw n (r.token_while_open o);
        })
      ]

  pub written-Sound :
      (job : Job) → find job_key id s.jobs ≡ some job → is_mine job ≡ true → Sound after
  written-Sound job here m = record {
    jobs_distinct = Distinct-update job_key is_mine f s.jobs e.job_same v.jobs_distinct;
    tokens_distinct =
        Distinct-update attempt_key is_closing g s.attempts e.attempt_same v.tokens_distinct;
    jobs_checked =
        All-update JobChecks is_mine f s.jobs (λ j c q. e.job_checked j c (w.job_facts j q).1)
          v.jobs_checked;
    attempts_checked =
        All-update AttemptChecks is_closing g s.attempts
          (λ a c q. e.attempt_checked a c (w.attempt_facts a q).2) v.attempts_checked;
    leases_recorded = λ k j h l.
        let (row, found, same) =
          map-eq-some (written is_mine f) (find job_key k s.jobs)
            (sym (find-update job_key is_mine f k s.jobs e.job_same) ∙ h) in
        subst (HasOpenAttempt after) same (
          lease_kept k row job here m found
            (subst (λ (x : Job). is_leased x.state ≡ true) (sym same) l));
    attempts_owned = λ k a h.
        let (row, found, same) =
          map-eq-some (written is_closing g) (find attempt_key k s.attempts)
            (sym (find-update attempt_key is_closing g k s.attempts e.attempt_same) ∙ h) in
        subst (HasJob after) same (owned_kept k row found (v.attempts_owned k row found));
  }

  -- The attempt of the lease is found closed afterwards.
  pub written_attempt :
      (job : Job)
      → find job_key id s.jobs ≡ some job
      → is_mine job ≡ true
      → (a : Attempt) × (find attempt_key token after.attempts ≡ some (g a)) × (a.job_id ≡ id)
  written_attempt job here m =
      let facts = w.job_facts job m in
      let o : HasOpenAttempt s job = v.leases_recorded id job here facts.1 in
      let same : o.held ≡ token = some_inj (sym o.token_held ∙ facts.2) in
      (
        o.attempt,
        find_attempt token o.attempt
              (ap (λ i. find attempt_key i s.attempts) (sym same) ∙ o.recorded)
            ∙ ap (λ b. some (if b then g o.attempt else o.attempt)) (w.attempt_found job m o),
        o.same_job ∙ facts.0,
      )
