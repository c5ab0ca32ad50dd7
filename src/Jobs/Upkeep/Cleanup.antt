-- ===== src/Jobs/Upkeep/Cleanup.antt =====
-- What the cleanup of terminal jobs promises.
use euphoria_api.Base.{
  suc, ℕ, ◌≤◌, ◌≡◌, refl, sym, ◌∙◌, ap, Bool, true, false, not, ◌&&◌, ◌⊎◌, inl, inr, none, some,
  List, [], ◌∷◌, ok, arith, All, All-both, some_inj, Bool-cases, Option-cases, nat_eqb, nat_eqb_iff,
  length, if◌then◌else◌, nat_eq, and-true,
}
use euphoria_api.Sql.{delete, All-select}
use euphoria_api.Sql.Keys.{find, find_key, find-select, find-select-none, All-find, Distinct-select}
use euphoria_api.Validate.{Number, assert_positive_integer}
use euphoria_api.Jobs.Schema.{Job, Attempt, JobStore, invalid_argument, job_key, attempt_key}
use euphoria_api.Jobs.Claim.{lock_rows}
use euphoria_api.Jobs.Maintenance.{
  cleanup_jobs, delete_jobs, is_among, is_expired_terminal, retention_before, job_ids,
}
use euphoria_api.Jobs.Checks.{JobChecks, AttemptChecks}
use euphoria_api.Jobs.Sound.{Sound, HasOpenAttempt, HasJob}
use euphoria_api.Jobs.Claims.Rows.{lock_rows-All, lock_rows-free, length-lock_rows}

-- Deleting jobs with their attempts.
module _ (ids : List ℕ) (s : JobStore) (v : Sound s) where
  abbrev rest : JobStore
  rest = delete_jobs ids s

  abbrev keeps_job : Job → Bool
  keeps_job j = not (is_among ids j.id)

  abbrev keeps_attempt : Attempt → Bool
  keeps_attempt a = not (is_among ids a.job_id)

  pub find_kept :
      (k : ℕ) (j : Job)
      → find job_key k s.jobs ≡ some j
      → find job_key k rest.jobs ≡ (if not (is_among ids k) then some j else none)
  unfolding delete_jobs delete
  find_kept k j h =
      find-select job_key keeps_job k s.jobs j v.jobs_distinct h
      ∙ ap (λ i. if not (is_among ids i) then some j else none) (find_key job_key k s.jobs j h)

  pub find_gone : (k : ℕ) → find job_key k s.jobs ≡ none → find job_key k rest.jobs ≡ none
  unfolding delete_jobs delete
  find_gone k h = find-select-none job_key keeps_job k s.jobs h

  find_job_from :
      (k : ℕ) (j : Job)
      → find job_key k rest.jobs ≡ some j
      → (find job_key k s.jobs ≡ some j) × (is_among ids k ≡ false)
  find_job_from k j h = elim (Option-cases (find job_key k s.jobs)) [
    | inl n ↦ absurd (cc (find_gone k n))
    | inr (x, e) ↦ ground (arith, find_kept k x e)
  ]

  find_attempt_kept :
      (k : ℕ) (a : Attempt)
      → find attempt_key k s.attempts ≡ some a
      → find attempt_key k rest.attempts ≡ (if keeps_attempt a then some a else none)
  unfolding delete_jobs delete
  find_attempt_kept k a h = find-select attempt_key keeps_attempt k s.attempts a v.tokens_distinct h

  find_attempt_from :
      (k : ℕ) (a : Attempt)
      → find attempt_key k rest.attempts ≡ some a
      → (find attempt_key k s.attempts ≡ some a) × (keeps_attempt a ≡ true)
  unfolding delete_jobs delete
  find_attempt_from k a h = elim (Option-cases (find attempt_key k s.attempts)) [
    | inl n ↦ absurd (cc (find-select-none attempt_key keeps_attempt k s.attempts n))
    | inr (x, e) ↦
        ground (arith, find-select attempt_key keeps_attempt k s.attempts x v.tokens_distinct e)
  ]

  pub delete_jobs-Sound : Sound rest
  unfolding delete_jobs delete
  delete_jobs-Sound = record {
    jobs_distinct = Distinct-select job_key keeps_job s.jobs v.jobs_distinct;
    tokens_distinct = Distinct-select attempt_key keeps_attempt s.attempts v.tokens_distinct;
    jobs_checked = All-select JobChecks keeps_job s.jobs v.jobs_checked;
    attempts_checked = All-select AttemptChecks keeps_attempt s.attempts v.attempts_checked;
    leases_recorded = λ k j h l.
        let (was, kept) = find_job_from k j h in
        let o : HasOpenAttempt s j = v.leases_recorded k j was l in
        let mine : o.attempt.job_id ≡ k = o.same_job ∙ find_key job_key k s.jobs j was in
        let stays : keeps_attempt o.attempt ≡ true =
          ap (λ i. not (is_among ids i)) mine ∙ ap not kept in
        record {
          held = o.held;
          owner = o.owner;
          attempt = o.attempt;
          token_held = o.token_held;
          owner_held = o.owner_held;
          recorded =
              find_attempt_kept o.held o.attempt o.recorded
              ∙ ap (λ b. if b then some o.attempt else none) stays;
          same_job = o.same_job;
          same_owner = o.same_owner;
          still_open = o.still_open;
        };
    attempts_owned = λ t a h.
        let (was, kept) = find_attempt_from t a h in
        let o : HasJob s a = v.attempts_owned t a was in
        record {
          job = o.job;
          recorded =
              find_kept a.job_id o.job o.recorded ∙ ap (λ b. if b then some o.job else none) kept;
          number_bounded = o.number_bounded;
          leased_while_open = o.leased_while_open;
          token_while_open = o.token_while_open;
        };
  }

among_row :
    (P : Job → Type 0) (k : ℕ) (rows : List Job)
    → All P rows
    → is_among (job_ids rows) k ≡ true
    → (j : Job) × (j.id ≡ k) × P j
among_row P k [] h q = absurd (cc)
among_row P k (x ∷ xs) (h, hs) q = elim (Bool-cases (nat_eqb x.id k)) [
  | inl e ↦ (x, (nat_eqb_iff x.id k).0 e, h)
  | inr n ↦ among_row P k xs hs (rw n at q)
]

length-job_ids : (rows : List Job) → length (job_ids rows) ≡ length rows
length-job_ids [] = refl
length-job_ids (x ∷ xs) = ap suc (length-job_ids xs)

-- What a cleanup may do to the job `k`, which was `j`.
abbrev pub KeptOrExpired : (locked : ℕ → Bool) (t k : ℕ) → Job → JobStore → Type 0
KeptOrExpired locked t k j s' =
    (find job_key k s'.jobs ≡ some j)
    ⊎ ((find job_key k s'.jobs ≡ none) × (is_expired_terminal t j ≡ true) × (locked k ≡ false))

module _ (locked : ℕ → Bool) (t : ℕ) (batch_size : Number) (count : ℕ) (s : JobStore) (v : Sound s)
    (sized : assert_positive_integer batch_size invalid_argument ≡ ok count) where
  abbrev expired_rows : List Job
  expired_rows = lock_rows locked retention_before (is_expired_terminal t) count s.jobs

  expired_facts :
      All
        (λ j.
          (find job_key j.id s.jobs ≡ some j)
          × ((is_expired_terminal t j && not (locked j.id)) ≡ true))
        expired_rows
  expired_facts =
      All-both (λ j. find job_key j.id s.jobs ≡ some j) _ expired_rows
        (lock_rows-All locked retention_before (is_expired_terminal t) count s.jobs _
          (All-find job_key s.jobs v.jobs_distinct))
        (lock_rows-free locked retention_before (is_expired_terminal t) count s.jobs)

  kept_or_expired :
      (k : ℕ) (j : Job)
      → find job_key k s.jobs ≡ some j
      → KeptOrExpired locked t k j (delete_jobs (job_ids expired_rows) s)
  kept_or_expired k j h = elim (Bool-cases (is_among (job_ids expired_rows) k)) [
    | inr n ↦
        inl
          (find_kept (job_ids expired_rows) s v k j h ∙ ap (λ b. if not b then some j else none) n)
    | inl q ↦
        let (x, at_k, row) = among_row _ k expired_rows expired_facts q in
        let (found, free) = row in
        let same : x ≡ j = some_inj (sym found ∙ ap (λ i. find job_key i s.jobs) at_k ∙ h) in
        let parts = and-true (is_expired_terminal t x) (not (locked x.id)) free in
        inr (
          find_kept (job_ids expired_rows) s v k j h ∙ ap (λ b. if not b then some j else none) q,
          ap (is_expired_terminal t) (sym same) ∙ parts.0,
          ground (arith, parts.1, ap locked at_k),
        )
  ]

  pub cleanup_jobs_total :
      (ids : List ℕ) × (s' : JobStore) × (cleanup_jobs locked t batch_size s ≡ ok (ids, s'))
      × Sound s'
      × (length ids ≤ count)
      × ((k : ℕ) (j : Job) → find job_key k s.jobs ≡ some j → KeptOrExpired locked t k j s')
  unfolding cleanup_jobs
  cleanup_jobs_total = (
    job_ids expired_rows,
    delete_jobs (job_ids expired_rows) s,
    rw sized,
    delete_jobs-Sound (job_ids expired_rows) s v,
    omega (
      arith,
      length-job_ids expired_rows,
      length-lock_rows locked retention_before (is_expired_terminal t) count s.jobs,
    ),
    kept_or_expired,
  )
