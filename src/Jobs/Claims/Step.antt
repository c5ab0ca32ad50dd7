-- ===== src/Jobs/Claims/Step.antt =====
-- One claim: it does not fail in sound tables, and it keeps them sound.
use mathlib.Core.Option
use euphoria_api.Base.{
  ℕ, ◌+◌, ◌<◌, ◌≡◌, refl, sym, ◌∙◌, ap, subst, ◌≢◌, Bool, true, false, ◌&&◌, ◌||◌, inl, inr, List,
  [], ◌∷◌, Option, none, some, Text, arith, All-both, All-append, some_inj, Bool-cases, nat_eqb,
  nat_eqb_iff, if◌then◌else◌, ◌==◌, nat_eq,
}
use euphoria_api.Sql.{update, insert, All-update, All-update_cases}
use euphoria_api.Sql.Keys.{
  find, written, find_key, find-update, find-update_row, find-update-none, find-update_from,
  find-insert, Distinct-insert, Distinct-update, All-find,
}
use euphoria_api.Jobs.Schema.{
  Job, Attempt, JobStore, job_key, attempt_key, is_leased, is_pending, is_open, is_open_lease,
  open_lease, seconds,
}
use euphoria_api.Jobs.Checks.{
  JobChecks, AttemptChecks, claimed_job-JobChecks, expired_attempt-AttemptChecks, outcome_check,
}
use euphoria_api.Jobs.Claim.{claimed_job, expired_attempt}
use euphoria_api.Jobs.Sound.{Sound, HasOpenAttempt, HasJob}

pub is_open_lease_facts :
    (id token : ℕ) (a : Attempt)
    → is_open_lease id token a ≡ true
    → (a.job_id ≡ id) × (attempt_key a ≡ token) × (is_open a.outcome ≡ true)
unfolding is_open_lease
is_open_lease_facts id token a h = ground arith

pub is_open_lease_intro :
    (id token : ℕ) (a : Attempt)
    → a.job_id ≡ id
    → attempt_key a ≡ token
    → is_open a.outcome ≡ true
    → is_open_lease id token a ≡ true
unfolding is_open_lease
is_open_lease_intro id token a p q h = ground arith

-- The test of the reclaiming update: nothing for a job that is not leased.
abbrev pub reclaiming : Job → Attempt → Bool
reclaiming c a =
    is_leased c.state
    && (elim c.lease_token [ none ↦ false | some token ↦ is_open_lease c.id token a ])

abbrev pub opened_attempt : Job → Text → ℕ → ℕ → ℕ → Attempt
opened_attempt c owner token t duration = record {
  token = token;
  job_id = c.id;
  attempt_number = c.attempt_count + 1;
  owner = owner;
  leased_at = t;
  lease_expires_at = t + seconds duration;
  outcome = open_lease;
  failure_code = none;
  next_available_at = none;
  finished_at = none;
}

module _ (r t : ℕ) (owner : Text) (token duration : ℕ) (c : Job) (s : JobStore) (v : Sound s)
    (here : find job_key c.id s.jobs ≡ some c)
    (fresh : find attempt_key token s.attempts ≡ none) where
  abbrev this : Job → Bool
  this j = j.id == c.id

  abbrev claim : Job → Job
  claim = claimed_job t owner token duration

  abbrev kept : List Attempt
  kept = update (reclaiming c) (expired_attempt r) s.attempts

  -- The tables after the claim.
  abbrev pub claimed_store : JobStore
  claimed_store = record s {
    jobs = update this claim s.jobs;
    attempts = insert (opened_attempt c owner token t duration) kept;
  }

  claim_id : (j : Job) → (claim j).id ≡ j.id
  unfolding claimed_job
  claim_id j = refl

  expire_token : (a : Attempt) → (expired_attempt r a).token ≡ a.token
  unfolding expired_attempt
  expire_token a = refl

  fresh_kept : find attempt_key token kept ≡ none
  fresh_kept =
      find-update-none attempt_key (reclaiming c) (expired_attempt r) token s.attempts expire_token
        fresh

  find_attempt :
      (k : ℕ)
      → find attempt_key k claimed_store.attempts ≡ (
          if nat_eqb token k
          then some (opened_attempt c owner token t duration)
          else find attempt_key k kept)
  find_attempt k =
      find-insert attempt_key (opened_attempt c owner token t duration) k kept fresh_kept

  -- An attempt of another token that was there is still there.
  find_other :
      (k : ℕ) (a : Attempt)
      → find attempt_key k s.attempts ≡ some a
      → find attempt_key k claimed_store.attempts
        ≡ some (written (reclaiming c) (expired_attempt r) a)
  find_other k a h = elim (Bool-cases (nat_eqb token k)) [
    | inl e ↦
        absurd (cc (h, fresh, ap (λ i. find attempt_key i s.attempts) ((nat_eqb_iff token k).0 e)))
    | inr e ↦
        find_attempt k
        ∙ ap
            (λ b.
              if b then some (opened_attempt c owner token t duration) else find attempt_key k kept)
            e
        ∙ find-update_row attempt_key (reclaiming c) (expired_attempt r) k s.attempts a expire_token
            h
  ]

  pub claim_stored : find job_key c.id claimed_store.jobs ≡ some (claim c)
  claim_stored =
      find-update_row job_key this claim c.id s.jobs c claim_id here
      ∙ ap (λ b. some (if b then claim c else c)) ((nat_eqb_iff c.id c.id).1 refl)

  claimed_other_row :
      (k : ℕ) (o : Option Job)
      → find job_key k s.jobs ≡ o
      → k ≢ c.id
      → Option.map (written this claim) o ≡ o
  claimed_other_row k none h n = refl
  claimed_other_row k (some j) h n = elim (Bool-cases (this j)) [
    | inl q ↦ absurd (n (sym (find_key job_key k s.jobs j h) ∙ (nat_eqb_iff _ _).0 q))
    | inr q ↦ rw q
  ]

  pub claimed_others :
      (k : ℕ) → k ≢ c.id → find job_key k claimed_store.jobs ≡ find job_key k s.jobs
  claimed_others k n =
      find-update job_key this claim k s.jobs claim_id
      ∙ claimed_other_row k (find job_key k s.jobs) refl n

  pub claimed_no_token :
      (k : ℕ)
      → k ≢ token
      → find attempt_key k s.attempts ≡ none
      → find attempt_key k claimed_store.attempts ≡ none
  claimed_no_token k n h = elim (Bool-cases (nat_eqb token k)) [
    | inl e ↦ absurd (n (sym ((nat_eqb_iff token k).0 e)))
    | inr e ↦
        find_attempt k
        ∙ ap
            (λ b.
              if b then some (opened_attempt c owner token t duration) else find attempt_key k kept)
            e
        ∙ find-update-none attempt_key (reclaiming c) (expired_attempt r) k s.attempts expire_token
            h
  ]

  this_row : (k : ℕ) (j : Job) → find job_key k s.jobs ≡ some j → this j ≡ true → j ≡ c
  this_row k j h q =
      let at_id : j.id ≡ c.id = (nat_eqb_iff _ _).0 q in
      some_inj (
        sym h
        ∙ ap (λ i. find job_key i s.jobs) (sym (find_key job_key k s.jobs j h) ∙ at_id)
        ∙ here)

  reclaiming_job :
      (a : Attempt) → reclaiming c a ≡ true → (a.job_id ≡ c.id) × (is_open a.outcome ≡ true)
  unfolding is_open_lease
  reclaiming_job a h = ground arith

  claimed_opened : HasOpenAttempt claimed_store (claim c)
  unfolding claimed_job
  claimed_opened = record {
    held = token;
    owner = owner;
    attempt = opened_attempt c owner token t duration;
    token_held = refl;
    owner_held = refl;
    recorded =
        find_attempt token
        ∙ ap
            (λ b.
              if b
              then some (opened_attempt c owner token t duration)
              else find attempt_key token kept)
            ((nat_eqb_iff token token).1 refl);
    same_job = refl;
    same_owner = refl;
    still_open = refl;
  }

  other_opened : (j : Job) → this j ≡ false → HasOpenAttempt s j → HasOpenAttempt claimed_store j
  other_opened j n o = elim (Bool-cases (reclaiming c o.attempt)) [
    | inl q ↦
        absurd (cc (n, (nat_eqb_iff j.id c.id).1 (sym o.same_job ∙ (reclaiming_job o.attempt q).0)))
    | inr q ↦ record {
      held = o.held;
      owner = o.owner;
      attempt = o.attempt;
      token_held = o.token_held;
      owner_held = o.owner_held;
      recorded =
          find_other o.held o.attempt o.recorded
          ∙ ap (λ b. some (if b then expired_attempt r o.attempt else o.attempt)) q;
      same_job = o.same_job;
      same_owner = o.same_owner;
      still_open = o.still_open;
    }
  ]

  opened_owned : HasJob claimed_store (opened_attempt c owner token t duration)
  unfolding claimed_job
  opened_owned = record {
    job = claim c;
    recorded = claim_stored;
    number_bounded = omega arith;
    leased_while_open = λ _. refl;
    token_while_open = λ _. refl;
  }

  -- An attempt that stays open is not of the claimed job.
  other_job :
      (a : Attempt)
      → reclaiming c a ≡ false
      → is_open a.outcome ≡ true
      → (h : HasJob s a) → this h.job ≡ false
  other_job a n o h = elim (Bool-cases (this h.job)) [
    | inr q ↦ q
    | inl q ↦
        let same : h.job ≡ c = this_row a.job_id h.job h.recorded q in
        let at_id : a.job_id ≡ c.id =
          sym (find_key job_key a.job_id s.jobs h.job h.recorded) ∙ (nat_eqb_iff _ _).0 q in
        let leased : is_leased c.state ≡ true =
          subst (λ (j : Job). is_leased j.state ≡ true) same (h.leased_while_open o) in
        let held : c.lease_token ≡ some a.token =
          subst (λ (j : Job). j.lease_token ≡ some a.token) same (h.token_while_open o) in
        absurd (ground (arith, is_open_lease_intro c.id a.token a at_id refl o))
  ]

  kept_owned :
      (a : Attempt)
      → HasJob s a
      → HasJob claimed_store (written (reclaiming c) (expired_attempt r) a)
  unfolding claimed_job expired_attempt
  kept_owned a h =
      let row : find job_key a.job_id claimed_store.jobs ≡ some (written this claim h.job) =
        find-update_row job_key this claim a.job_id s.jobs h.job claim_id h.recorded in
      elim (Bool-cases (reclaiming c a)) [
        | inl q ↦ rw q (record {
          job = written this claim h.job;
          recorded = row;
          number_bounded = ground (arith, h.number_bounded);
          leased_while_open = λ o. absurd (cc);
          token_while_open = λ o. absurd (cc);
        })
        | inr q ↦ rw q (record {
          job = written this claim h.job;
          recorded = row;
          number_bounded = ground (arith, h.number_bounded);
          leased_while_open = λ o. rw (other_job a q o h) (h.leased_while_open o);
          token_while_open = λ o. rw (other_job a q o h) (h.token_while_open o);
        })
      ]

  module _ (claimable : (is_pending c.state || is_leased c.state) ≡ true)
      (left : c.attempt_count < c.max_attempts) (positive : 0 < duration) where
    checked_row :
        (j : Job)
        → JobChecks j × (find job_key j.id s.jobs ≡ some j)
        → this j ≡ true
        → JobChecks (claim j)
    checked_row j (k, h) q =
        let same : j ≡ c = this_row j.id j h q in
        subst (λ (j : Job). JobChecks (claim j)) (sym same)
          (claimed_job-JobChecks t owner token duration c (subst JobChecks same k) claimable left
            positive)

    opened_checked : AttemptChecks (opened_attempt c owner token t duration)
    unfolding outcome_check
    opened_checked = record {
      number_positive = omega arith;
      lease_forward = omega arith;
      code_clean = refl;
      outcome_clean = refl;
    }

    -- A claim keeps the tables sound.
    pub claimed-Sound : Sound claimed_store
    claimed-Sound = record {
      jobs_distinct = Distinct-update job_key this claim s.jobs claim_id v.jobs_distinct;
      tokens_distinct =
          Distinct-insert attempt_key (opened_attempt c owner token t duration) kept fresh_kept (
            Distinct-update attempt_key (reclaiming c) (expired_attempt r) s.attempts expire_token
              v.tokens_distinct);
      jobs_checked =
          All-update_cases (λ j. JobChecks j × (find job_key j.id s.jobs ≡ some j)) JobChecks this
            claim s.jobs checked_row (λ j k n. k.0)
            (All-both JobChecks (λ j. find job_key j.id s.jobs ≡ some j) s.jobs v.jobs_checked
              (All-find job_key s.jobs v.jobs_distinct));
      attempts_checked =
          All-append AttemptChecks kept (opened_attempt c owner token t duration ∷ [])
            (All-update AttemptChecks (reclaiming c) (expired_attempt r) s.attempts
              (λ a k q. expired_attempt-AttemptChecks r a k (reclaiming_job a q).1)
              v.attempts_checked)
            (opened_checked, tt);
      leases_recorded = λ k j h l.
          let (row, found, same) = find-update_from job_key this claim k s.jobs j claim_id h in
          subst (HasOpenAttempt claimed_store) same
            (leases_after k row found (subst (λ (x : Job). is_leased x.state ≡ true) (sym same) l));
      attempts_owned = λ k a h. attempts_after k a h;
    }
      where
        leases_after :
            (k : ℕ) (row : Job)
            → find job_key k s.jobs ≡ some row
            → is_leased (written this claim row).state ≡ true
            → HasOpenAttempt claimed_store (written this claim row)
        leases_after k row found l = elim (Bool-cases (this row)) [
          | inl q ↦ rw q (
              subst (λ (j : Job). HasOpenAttempt claimed_store (claim j))
                (sym (this_row k row found q)) claimed_opened)
          | inr q ↦ rw q (other_opened row q (v.leases_recorded k row found (rw q at l)))
        ]

        attempts_after :
            (k : ℕ) (a : Attempt)
            → find attempt_key k claimed_store.attempts ≡ some a
            → HasJob claimed_store a
        attempts_after k a h = elim (Bool-cases (nat_eqb token k)) [
          | inl e ↦
              subst (HasJob claimed_store)
                (some_inj (
                  sym (
                    ap
                      (λ b.
                        if b
                        then some (opened_attempt c owner token t duration)
                        else find attempt_key k kept)
                      e)
                  ∙ sym (find_attempt k)
                  ∙ h))
                opened_owned
          | inr e ↦
              let (row, found, same) =
                find-update_from attempt_key (reclaiming c) (expired_attempt r) k s.attempts a
                  expire_token
                  (sym (
                      ap
                        (λ b.
                          if b
                          then some (opened_attempt c owner token t duration)
                          else find attempt_key k kept)
                        e)
                    ∙ sym (find_attempt k)
                    ∙ h) in
              subst (HasJob claimed_store) same (kept_owned row (v.attempts_owned k row found))
        ]
