-- ===== src/Jobs/Upkeep/Requeue.antt =====
-- What a manual requeue promises.
use mathlib.Core.Option
use euphoria_api.Base.{
  ℕ, suc, ◌+◌, ◌<◌, ◌≡◌, refl, sym, ◌∙◌, ap, subst, ◌≢◌, true, false, not, ◌&&◌, ◌||◌, inl, inr,
  Option, none, some, List, [], ◌∷◌, ok, err, arith, All-both, some_inj, some_of_set, Bool-cases,
  is_null, leb, if◌then◌else◌, map, nat_eq,
}
use euphoria_api.Sql.{update, updated, insert, All-update_cases}
use euphoria_api.Sql.Keys.{
  find, find_key, find-All, written, only, find-update, find-update_row, find-update_from,
  Distinct-update, All-find,
}
use euphoria_api.Validate.{
  assert_positive_integer, assert_nonnegative_integer, assert_bounded_nonblank_string,
  matches_failure_code,
}
use euphoria_api.Jobs.Schema.{
  Job, Attempt, JobStore, JobFault, ManualRequeue, DeadLetterReason, DeadLetterOutcome,
  invalid_argument, invalid_transition, job_key, is_leased, is_dead_letter, seconds,
}
use euphoria_api.Jobs.Enqueue.{fits_int4}
use euphoria_api.Jobs.Maintenance.{
  RequeueInput, requeued, not_requeueable, requeued_job, requeue_job, is_dead_row, write_requeue,
}
use euphoria_api.Jobs.Checks.{JobChecks, state_check, requeued_job-JobChecks}
use euphoria_api.Jobs.Leases.{updated-only}
use euphoria_api.Jobs.Sound.{Sound, HasOpenAttempt, HasJob}
use euphoria_api.Jobs.Transitions.{Became}

is_dead_row_facts :
    (id : ℕ) (j : Job)
    → is_dead_row id j ≡ true
    → (job_key j ≡ id) × (is_dead_letter j.state ≡ true)
unfolding is_dead_row
is_dead_row_facts id j h = ground arith

dead_not_leased : (j : Job) → is_dead_letter j.state ≡ true → is_leased j.state ≡ false
dead_not_leased j h = ground arith

-- The state check of a dead letter: its reason and its outcome are set.
dead_letter_set :
    (j : Job)
    → JobChecks j
    → is_dead_letter j.state ≡ true
    → (is_null j.dead_letter_reason ≡ false) × (is_null j.dead_letter_outcome ≡ false)
unfolding state_check
dead_letter_set j c h = ground arith

-- The tables after the write of a dead letter back to pending.
abbrev pub put_back : ℕ → (Job → Job) → List ManualRequeue → JobStore → JobStore
put_back id f requeues s = record s { jobs = update (is_dead_row id) f s.jobs; requeues = requeues }

module _ (id : ℕ) (f : Job → Job) (requeues : List ManualRequeue) (s : JobStore) (v : Sound s)
    (same : (j : Job) → (f j).id ≡ j.id) (count : (j : Job) → (f j).attempt_count ≡ j.attempt_count)
    (free : (j : Job) → is_leased (f j).state ≡ false) (c : Job)
    (here : find job_key id s.jobs ≡ some c) (dead : is_dead_letter c.state ≡ true)
    (checked : JobChecks c → JobChecks (f c)) where
  abbrev after : JobStore
  after = put_back id f requeues s

  row_is : (j : Job) → find job_key j.id s.jobs ≡ some j → is_dead_row id j ≡ true → j ≡ c
  row_is j h q =
      some_inj (sym h ∙ ap (λ i. find job_key i s.jobs) (is_dead_row_facts id j q).0 ∙ here)

  dead_here : is_dead_row id c ≡ true
  unfolding is_dead_row
  dead_here = ground (arith, find_key job_key id s.jobs c here)

  other_row :
      (k : ℕ) (o : Option Job)
      → find job_key k s.jobs ≡ o
      → k ≢ id
      → Option.map (written (is_dead_row id) f) o ≡ o
  other_row k none h n = refl
  other_row k (some j) h n = elim (Bool-cases (is_dead_row id j)) [
    | inl q ↦ absurd (n (sym (find_key job_key k s.jobs j h) ∙ (is_dead_row_facts id j q).0))
    | inr q ↦ rw q
  ]

  lease_kept :
      (k : ℕ) (j : Job)
      → find job_key k s.jobs ≡ some j
      → is_leased (written (is_dead_row id) f j).state ≡ true
      → HasOpenAttempt after (written (is_dead_row id) f j)
  lease_kept k j h l = elim (Bool-cases (is_dead_row id j)) [
    | inl q ↦ absurd (cc (free j, rw q at l))
    | inr q ↦
        let o : HasOpenAttempt s j = v.leases_recorded k j h (rw q at l) in
        rw q (record {
          held = o.held;
          owner = o.owner;
          attempt = o.attempt;
          token_held = o.token_held;
          owner_held = o.owner_held;
          recorded = o.recorded;
          same_job = o.same_job;
          same_owner = o.same_owner;
          still_open = o.still_open;
        })
  ]

  job_kept : (a : Attempt) → HasJob s a → HasJob after a
  job_kept a o =
      let row = find-update_row job_key (is_dead_row id) f a.job_id s.jobs o.job same o.recorded in
      elim (Bool-cases (is_dead_row id o.job)) [
        | inl q ↦
            let idle = dead_not_leased o.job (is_dead_row_facts id o.job q).1 in
            record {
              job = f o.job;
              recorded = row ∙ ap (λ b. some (if b then f o.job else o.job)) q;
              number_bounded = omega (arith, o.number_bounded, count o.job);
              leased_while_open = λ h. absurd (cc (idle, o.leased_while_open h));
              token_while_open = λ h. absurd (cc (idle, o.leased_while_open h));
            }
        | inr q ↦ record {
          job = o.job;
          recorded = row ∙ ap (λ b. some (if b then f o.job else o.job)) q;
          number_bounded = o.number_bounded;
          leased_while_open = o.leased_while_open;
          token_while_open = o.token_while_open;
        }
      ]

  put_back-Became : Became id (f c) s after
  put_back-Became = record {
    row =
        find-update_row job_key (is_dead_row id) f id s.jobs c same here
        ∙ ap (λ b. some (if b then f c else c)) dead_here;
    others = λ k n.
        find-update job_key (is_dead_row id) f k s.jobs same
        ∙ other_row k (find job_key k s.jobs) refl n;
    sound = record {
      jobs_distinct = Distinct-update job_key (is_dead_row id) f s.jobs same v.jobs_distinct;
      tokens_distinct = v.tokens_distinct;
      jobs_checked =
          All-update_cases (λ j. JobChecks j × (find job_key j.id s.jobs ≡ some j)) JobChecks
            (is_dead_row id) f s.jobs
            (λ j k q.
              let e = row_is j k.1 q in
              subst (λ (j : Job). JobChecks (f j)) (sym e) (checked (subst JobChecks e k.0)))
            (λ j k n. k.0)
            (All-both JobChecks (λ j. find job_key j.id s.jobs ≡ some j) s.jobs v.jobs_checked
              (All-find job_key s.jobs v.jobs_distinct));
      attempts_checked = v.attempts_checked;
      leases_recorded = λ k j h l.
          let (row, found, e) = find-update_from job_key (is_dead_row id) f k s.jobs j same h in
          subst (HasOpenAttempt after) e
            (lease_kept k row found (subst (λ (x : Job). is_leased x.state ≡ true) (sym e) l));
      attempts_owned = λ t a h. job_kept a (v.attempts_owned t a h);
    };
  }

  put_back_returned : updated (is_dead_row id) f s.jobs ≡ f c ∷ []
  put_back_returned =
      updated-only job_key (is_dead_row id) f id s.jobs (λ j h. (is_dead_row_facts id j h).0)
        v.jobs_distinct
      ∙ ap (λ o. map f (only (is_dead_row id) o)) here
      ∙ ap (λ b. map f (if b then c ∷ [] else [])) dead_here

module _ (requeue_id started t u id : ℕ) (input : RequeueInput) (s : JobStore) (v : Sound s)
    (delay max_attempts : ℕ)
    (delayed : assert_nonnegative_integer input.available_in_seconds invalid_argument ≡ ok delay)
    (limited : assert_positive_integer input.max_attempts invalid_argument ≡ ok max_attempts)
    (named : assert_bounded_nonblank_string input.requested_by 160 invalid_argument ≡ ok tt)
    (coded : matches_failure_code input.reason_code ≡ true) (c : Job)
    (here : find job_key id s.jobs ≡ some c) where
  abbrev pub audit_of : DeadLetterReason → DeadLetterOutcome → ManualRequeue
  audit_of reason outcome = record {
    requeue_id = requeue_id;
    job_id = id;
    requested_by = input.requested_by;
    reason_code = input.reason_code;
    previous_dead_letter_reason = reason;
    previous_dead_letter_outcome = outcome;
    previous_attempt_count = c.attempt_count;
    next_max_attempts = max_attempts;
    next_available_at = t + seconds delay;
    created_at = started;
  }

  module _ (dead : is_dead_letter c.state ≡ true) (more : c.attempt_count < max_attempts)
      (fits : (fits_int4 max_attempts && fits_int4 (suc c.manual_requeue_count)) ≡ true) where
    Became-pending :
        (reason : DeadLetterReason) (outcome : DeadLetterOutcome)
        → Became id (requeued_job u (audit_of reason outcome) c) s (
            put_back id
              (requeued_job u (audit_of reason outcome))
              (insert (audit_of reason outcome) s.requeues)
              s)
    unfolding requeued_job
    Became-pending reason outcome =
        put_back-Became id (requeued_job u (audit_of reason outcome))
          (insert (audit_of reason outcome) s.requeues) s v (λ j. refl) (λ j. refl) (λ j. refl) c
          here dead (λ k. requeued_job-JobChecks u (audit_of reason outcome) c k dead more)

    requeue_ran :
        (reason : DeadLetterReason) (outcome : DeadLetterOutcome)
        → c.dead_letter_reason ≡ some reason
        → c.dead_letter_outcome ≡ some outcome
        → requeue_job requeue_id started t u id input s
          ≡ ok (
            requeued (audit_of reason outcome) (requeued_job u (audit_of reason outcome) c),
            put_back id
                (requeued_job u (audit_of reason outcome))
                (insert (audit_of reason outcome) s.requeues)
                s,
          )
    unfolding requeue_job
    requeue_ran reason outcome has_reason has_outcome =
        let f = requeued_job u (audit_of reason outcome) in
        let written_row : updated (is_dead_row id) f s.jobs ≡ f c ∷ [] =
          put_back_returned id f (insert (audit_of reason outcome) s.requeues) s v
            (λ j. unfold requeued_job in refl) (λ j. unfold requeued_job in refl)
            (λ j. unfold requeued_job in refl) c here dead
            (λ k. requeued_job-JobChecks u (audit_of reason outcome) c k dead more) in
        let enough : leb max_attempts c.attempt_count ≡ false = ground arith in
        simp (delayed, limited, named, coded, here, dead, has_reason, has_outcome, enough, fits)
          (rw written_row)

    pub requeue_job_dead :
        (reason : DeadLetterReason) × (outcome : DeadLetterOutcome) × (c.dead_letter_reason
          ≡ some reason)
        × (c.dead_letter_outcome ≡ some outcome)
        × (s' : JobStore) × (requeue_job requeue_id started t u id input s
            ≡ ok (
              requeued (audit_of reason outcome) (requeued_job u (audit_of reason outcome) c),
              s',
            ))
        × Became id (requeued_job u (audit_of reason outcome) c) s s'
        × (s'.requeues ≡ insert (audit_of reason outcome) s.requeues)
    requeue_job_dead =
        let set =
          dead_letter_set c (find-All job_key JobChecks id s.jobs c v.jobs_checked here) dead in
        let (reason, has_reason) = some_of_set c.dead_letter_reason set.0 in
        let (outcome, has_outcome) = some_of_set c.dead_letter_outcome set.1 in
        (
          reason,
          outcome,
          has_reason,
          has_outcome,
          put_back id (requeued_job u (audit_of reason outcome))
              (insert (audit_of reason outcome) s.requeues) s,
          requeue_ran reason outcome has_reason has_outcome,
          Became-pending reason outcome,
          refl,
        )

  -- With valid arguments, a job that is no dead letter, or a limit that its attempts have reached,
  -- is refused as an invalid transition, and nothing changes.
  pub requeue_job_refused :
      (not (is_dead_letter c.state) || leb max_attempts c.attempt_count) ≡ true
      → requeue_job requeue_id started t u id input s ≡ ok (not_requeueable invalid_transition, s)
  unfolding requeue_job
  requeue_job_refused h = simp (delayed, limited, named, coded, here) (ground arith)

  -- Numbers that the integer columns cannot hold are thrown back by the database.
  pub requeue_job_out_of_range :
      is_dead_letter c.state ≡ true
      → c.attempt_count < max_attempts
      → (fits_int4 max_attempts && fits_int4 (suc c.manual_requeue_count)) ≡ false
      → requeue_job requeue_id started t u id input s ≡ err JobFault.out_of_range
  unfolding requeue_job write_requeue
  requeue_job_out_of_range dead more n =
      let set =
        dead_letter_set c (find-All job_key JobChecks id s.jobs c v.jobs_checked here) dead in
      let (reason, has_reason) = some_of_set c.dead_letter_reason set.0 in
      let (outcome, has_outcome) = some_of_set c.dead_letter_outcome set.1 in
      let enough : leb max_attempts c.attempt_count ≡ false = ground arith in
      simp (delayed, limited, named, coded, here, dead, has_reason, has_outcome, enough, n)
