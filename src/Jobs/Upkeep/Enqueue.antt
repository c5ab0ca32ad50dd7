-- ===== src/Jobs/Upkeep/Enqueue.antt =====
-- What enqueueing promises.
use euphoria_api.Base.{
  ℕ, ◌≡◌, refl, sym, ◌∙◌, ap, true, false, ◌&&◌, inl, inr, none, some, [], ◌∷◌, ok, err, arith,
  All-append, some_inj, Bool-cases, nat_eqb, nat_eqb_iff, is_empty, trim, if◌then◌else◌, Text,
}
use euphoria_api.Sql.{insert}
use euphoria_api.Sql.Keys.{find, find-insert, Distinct-insert}
use euphoria_api.Validate.{
  assert_positive_integer, assert_nonnegative_integer, assert_bounded_nonblank_string,
  assert_positive_integer_bounds,
}
use euphoria_api.Jobs.Schema.{Job, JobStore, JobFault, invalid_argument, job_key, is_leased}
use euphoria_api.Jobs.Enqueue.{EnqueueInput, enqueue_job, new_job, validate_job_identity, fits_int4}
use euphoria_api.Jobs.Checks.{JobChecks, state_check}
use euphoria_api.Jobs.Sound.{Sound, HasOpenAttempt, HasJob}
use euphoria_api.Jobs.Transitions.{Became}

-- A new row beside sound tables.
module _ (j : Job) (s : JobStore) (v : Sound s) (unused : find job_key j.id s.jobs ≡ none)
    (free : is_leased j.state ≡ false) (checked : JobChecks j) where
  abbrev added : JobStore
  added = record s { jobs = insert j s.jobs }

  find_added :
      (k : ℕ)
      → find job_key k added.jobs ≡ (if nat_eqb j.id k then some j else find job_key k s.jobs)
  find_added k = find-insert job_key j k s.jobs unused

  find_old : (k : ℕ) (x : Job) → find job_key k s.jobs ≡ some x → find job_key k added.jobs ≡ some x
  find_old k x h = elim (Bool-cases (nat_eqb j.id k)) [
    | inl e ↦ absurd (cc (h, unused, ap (λ i. find job_key i s.jobs) ((nat_eqb_iff j.id k).0 e)))
    | inr e ↦ find_added k ∙ ap (λ b. if b then some j else find job_key k s.jobs) e ∙ h
  ]

  lease_old :
      (k : ℕ) (x : Job)
      → find job_key k added.jobs ≡ some x
      → is_leased x.state ≡ true
      → HasOpenAttempt added x
  lease_old k x h l = elim (Bool-cases (nat_eqb j.id k)) [
    | inl e ↦
        let same : j ≡ x = some_inj (
          ap (λ b. if b then some j else find job_key k s.jobs) (sym e) ∙ sym (find_added k) ∙ h) in
        absurd (cc (free, l, ap (λ (y : Job). is_leased y.state) same))
    | inr e ↦
        let o : HasOpenAttempt s x =
          v.leases_recorded k x
            (ap (λ b. if b then some j else find job_key k s.jobs) (sym e) ∙ sym (find_added k) ∙ h)
            l in
        record {
          held = o.held;
          owner = o.owner;
          attempt = o.attempt;
          token_held = o.token_held;
          owner_held = o.owner_held;
          recorded = o.recorded;
          same_job = o.same_job;
          same_owner = o.same_owner;
          still_open = o.still_open;
        }
  ]

  pub added-Became : Became j.id j s added
  added-Became = record {
    row =
        find_added j.id
        ∙ ap (λ b. if b then some j else find job_key j.id s.jobs) ((nat_eqb_iff j.id j.id).1 refl);
    others = λ k n. elim (Bool-cases (nat_eqb j.id k)) [
      | inl e ↦ absurd (n (sym ((nat_eqb_iff j.id k).0 e)))
      | inr e ↦ find_added k ∙ ap (λ b. if b then some j else find job_key k s.jobs) e
    ];
    sound = record {
      jobs_distinct = Distinct-insert job_key j s.jobs unused v.jobs_distinct;
      tokens_distinct = v.tokens_distinct;
      jobs_checked = All-append JobChecks s.jobs (j ∷ []) v.jobs_checked (checked, tt);
      attempts_checked = v.attempts_checked;
      leases_recorded = lease_old;
      attempts_owned = λ t a h.
          let o : HasJob s a = v.attempts_owned t a h in
          record {
            job = o.job;
            recorded = find_old a.job_id o.job o.recorded;
            number_bounded = o.number_bounded;
            leased_while_open = o.leased_while_open;
            token_while_open = o.token_while_open;
          };
    };
  }

nonblank_of_ok :
    (value : Text) (n : ℕ)
    → assert_bounded_nonblank_string value n invalid_argument ≡ ok tt
    → is_empty (trim value) ≡ false
unfolding assert_bounded_nonblank_string
nonblank_of_ok value n h = ground arith

module _ (id started at : ℕ) (input : EnqueueInput) (s : JobStore) (v : Sound s)
    (version delay max_attempts retention : ℕ)
    (kind : assert_bounded_nonblank_string input.job_kind 120 invalid_argument ≡ ok tt)
    (versioned : assert_positive_integer input.job_version invalid_argument ≡ ok version)
    (delayed : assert_nonnegative_integer input.available_in_seconds invalid_argument ≡ ok delay)
    (limited : assert_positive_integer input.max_attempts invalid_argument ≡ ok max_attempts)
    (retained : assert_positive_integer input.terminal_retention_seconds invalid_argument
      ≡ ok retention) where
  abbrev created : Job
  created = new_job id started at input.job_kind version input.payload delay max_attempts retention

  created_checked : JobChecks created
  unfolding new_job state_check
  created_checked = record {
    kind_not_blank = nonblank_of_ok input.job_kind 120 kind;
    version_positive =
        (assert_positive_integer_bounds input.job_version invalid_argument version versioned).1;
    max_positive =
        (assert_positive_integer_bounds input.max_attempts invalid_argument max_attempts limited).1;
    count_bounded = omega arith;
    retention_positive =
        (assert_positive_integer_bounds input.terminal_retention_seconds invalid_argument retention
          retained).1;
    code_clean = refl;
    state_clean = refl;
  }

  pub enqueue_job_lem :
      (fits_int4 version && fits_int4 max_attempts && fits_int4 retention) ≡ true
      → find job_key id s.jobs ≡ none
      → (s' : JobStore) × (enqueue_job id started at input s ≡ ok (created, s'))
        × Became id created s s'
  unfolding enqueue_job validate_job_identity
  enqueue_job_lem fits unused = (
    record s { jobs = insert created s.jobs },
    rw (kind, versioned, delayed, limited, retained, fits, unused),
    added-Became created s v unused refl created_checked,
  )

  -- A number that an integer column cannot hold is thrown back by the database.
  pub enqueue_job_out_of_range :
      (fits_int4 version && fits_int4 max_attempts && fits_int4 retention) ≡ false
      → enqueue_job id started at input s ≡ err JobFault.out_of_range
  unfolding enqueue_job validate_job_identity
  enqueue_job_out_of_range n = rw (kind, versioned, delayed, limited, retained, n)
