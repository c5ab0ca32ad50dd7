-- ===== src/Jobs/Claims/Total.antt =====
-- claimDeliveryJobsInTransaction as a whole.
use euphoria_api.Base.{
  ℕ, ◌+◌, ◌≤◌, ◌≡◌, refl, sym, ◌∙◌, ap, subst, Bool, true, false, not, ◌&&◌, inl, inr, List, some,
  Text, ok, arith, some_inj, All, All-map, All-both, length, and-true, >>=-eq-ok, ok_inj,
}
use euphoria_api.Sql.Keys.{Distinct, find, All-find}
use euphoria_api.Validate.{
  assert_positive_integer, assert_positive_integer_bounds, assert_bounded_nonblank_string,
}
use euphoria_api.Jobs.Schema.{Job, JobStore, invalid_argument, job_key, is_leased, is_dead_letter}
use euphoria_api.Jobs.Enqueue.{validate_job_identity}
use euphoria_api.Jobs.Claim.{
  ClaimInput, Readings, Claims, claim_jobs, claimed_job, dead_letter_all_spent, claim_all,
  lock_rows, is_claimable, is_spent_lease, claim_before, spent_before,
}
use euphoria_api.Jobs.Sound.{Sound}
use euphoria_api.Jobs.Claims.Rows.{
  lock_rows-All, lock_rows-free, lock_rows-Distinct, length-lock_rows,
}
use euphoria_api.Jobs.Claims.Spent.{Rounds, dead_letter_all_spent_total}
use euphoria_api.Jobs.Claims.Batch.{
  FreshTokens, IsClaimable, Claimed, claimed_rows, claim_all_total, claimed_rows-All,
  length-claimed_rows, claimed_rows-Distinct,
}

spent_leased :
    (kind : Text) (version t : ℕ) (j : Job)
    → is_spent_lease kind version t j ≡ true
    → is_leased j.state ≡ true
unfolding is_spent_lease
spent_leased kind version t j h = ground arith

IsClaimable-facts :
    (kind : Text) (version t : ℕ) (j : Job)
    → is_claimable kind version t j ≡ true
    → IsClaimable j × (is_dead_letter j.state ≡ false)
unfolding is_claimable
IsClaimable-facts kind version t j h = ground arith

-- A row that a query found is not one that it passes over.
row_clash :
    (p : Job → Bool) (k : ℕ) (jobs : List Job) (c j : Job)
    → (find job_key c.id jobs ≡ some c) × (p c ≡ true)
    → find job_key k jobs ≡ some j
    → p j ≡ false
    → job_key c ≡ k
    → ⊥
row_clash p k jobs c j f h n e =
    let same : c ≡ j = some_inj (sym f.0 ∙ ap (λ i. find job_key i jobs) e ∙ h) in
    cc (f.1, n, ap p same)

-- The claimed row, against the row of the job before.
pub record Earned (kind owner : Text) (version t : ℕ) (uuid : ℕ → ℕ) (s s' : JobStore) (j : Job)
    : Type 0 where
  pub before : Job
  pub was : find job_key j.id s.jobs ≡ some before
  pub was_claimable : is_claimable kind version t before ≡ true
  pub counted : j.attempt_count ≡ before.attempt_count + 1
  pub owned : j.lease_owner ≡ some owner
  pub draw : ℕ
  pub new_token : j.lease_token ≡ some (uuid draw)
  pub is_now_leased : is_leased j.state ≡ true

pub record ClaimOutcome (kind owner : Text) (version limit t0 t : ℕ) (uuid : ℕ → ℕ) (s : JobStore)
    (c : Claims) (s' : JobStore) : Type 0 where
  pub sound : Sound s'
  pub bounded : length c.claimed ≤ limit
  pub distinct : Distinct job_key c.claimed
  pub stored : All (λ j. find job_key j.id s'.jobs ≡ some j) c.claimed
  pub earned : All (Earned kind owner version t uuid s s') c.claimed
  pub untouched :
      (k : ℕ) (j : Job)
      → find job_key k s.jobs ≡ some j
      → is_spent_lease kind version t0 j ≡ false
      → is_claimable kind version t j ≡ false
      → find job_key k s'.jobs ≡ some j

module _ (input : ClaimInput) (r : Readings) (s : JobStore) (v : Sound s)
    (fresh : FreshTokens r.uuid s) (version duration limit : ℕ)
    (identity : validate_job_identity input.job_kind input.job_version ≡ ok version)
    (name : assert_bounded_nonblank_string input.lease_owner 160 invalid_argument ≡ ok tt)
    (lasting : assert_positive_integer input.lease_duration_seconds invalid_argument ≡ ok duration)
    (many : assert_positive_integer input.limit invalid_argument ≡ ok limit) where
  abbrev spent_rows : List Job
  spent_rows =
      lock_rows r.locked spent_before (is_spent_lease input.job_kind version r.spent_query) limit
        s.jobs

  spent_found :
      All
        (λ j.
          (find job_key j.id s.jobs ≡ some j)
          × ((is_spent_lease input.job_kind version r.spent_query j && not (r.locked j.id)) ≡ true))
        spent_rows
  spent_found =
      let p = is_spent_lease input.job_kind version r.spent_query in
      All-both (λ j. find job_key j.id s.jobs ≡ some j) _ spent_rows
        (lock_rows-All r.locked spent_before p limit s.jobs _
          (All-find job_key s.jobs v.jobs_distinct))
        (lock_rows-free r.locked spent_before p limit s.jobs)

  spent_settles :
      (ids : List ℕ) × (s1 : JobStore) × (dead_letter_all_spent r.spent_loop spent_rows s
        ≡ ok (ids, s1))
      × Rounds spent_rows s s1
  spent_settles =
      let p = is_spent_lease input.job_kind version r.spent_query in
      dead_letter_all_spent_total r.spent_loop spent_rows s v
        (lock_rows-Distinct r.locked spent_before p limit s.jobs v.jobs_distinct)
        (All-map
          (λ j q.
            (q.0, spent_leased input.job_kind version r.spent_query j (and-true (p j) _ q.1).0))
          spent_rows spent_found)

  module _ (ids : List ℕ) (s1 : JobStore) (settled : Rounds spent_rows s s1) where
    abbrev free_rows : List Job
    free_rows =
        lock_rows r.locked claim_before (is_claimable input.job_kind version r.claim_query) limit
          s1.jobs

    abbrev IsFree : Job → Type 0
    IsFree j =
        (find job_key j.id s1.jobs ≡ some j)
        × (is_claimable input.job_kind version r.claim_query j ≡ true)

    IsFree-found : All IsFree free_rows
    IsFree-found =
        let p = is_claimable input.job_kind version r.claim_query in
        All-map (λ j q. (q.0, (and-true (p j) _ q.1).0)) free_rows
          (All-both (λ j. find job_key j.id s1.jobs ≡ some j) _ free_rows
            (lock_rows-All r.locked claim_before p limit s1.jobs _
              (All-find job_key s1.jobs settled.sound.jobs_distinct))
            (lock_rows-free r.locked claim_before p limit s1.jobs))

    -- A claimable row was there before the dead-lettering.
    Earned-row :
        (s' : JobStore) (t i : ℕ) (c : Job)
        → IsFree c
        → Earned input.job_kind input.lease_owner version r.claim_query r.uuid s s'
            (claimed_job t input.lease_owner (r.uuid i) duration c)
    unfolding claimed_job
    Earned-row s' t i c q =
        let facts = IsClaimable-facts input.job_kind version r.claim_query c q.1 in
        let was : find job_key c.id s.jobs ≡ some c = elim (settled.from c.id c q.0) [
          | inl p ↦ p
          | inr p ↦ absurd (cc (p, facts.1))
        ] in
        record {
          before = c;
          was = was;
          was_claimable = q.1;
          counted = refl;
          owned = refl;
          draw = i;
          new_token = refl;
          is_now_leased = refl;
        }

    abbrev final_rows : List Job
    final_rows = claimed_rows r.claim_loop r.uuid input.lease_owner duration free_rows

    claims_run :
        (s' : JobStore) × (claim_all r.claim_loop r.uuid input.lease_owner duration free_rows s1
          ≡ ok (final_rows, s'))
        × Claimed free_rows final_rows s1 s'
    claims_run =
        let p = is_claimable input.job_kind version r.claim_query in
        claim_all_total input.lease_owner duration
          (assert_positive_integer_bounds input.lease_duration_seconds invalid_argument duration
            lasting).1
          r.claim_loop r.uuid free_rows s1 settled.sound
          (record {
            unused = λ i. settled.no_tokens (r.uuid i) (fresh.unused i);
            distinct = fresh.distinct;
          })
          (lock_rows-Distinct r.locked claim_before p limit s1.jobs settled.sound.jobs_distinct)
          (All-map (λ j q. (q.0, (IsClaimable-facts input.job_kind version r.claim_query j q.1).0))
            free_rows IsFree-found)

    untouched_row :
        (s' : JobStore) (k : ℕ) (j : Job)
        → Claimed free_rows final_rows s1 s'
        → find job_key k s.jobs ≡ some j
        → is_spent_lease input.job_kind version r.spent_query j ≡ false
        → is_claimable input.job_kind version r.claim_query j ≡ false
        → find job_key k s'.jobs ≡ some j
    untouched_row s' k j done h no_spent no_claim =
        let p = is_spent_lease input.job_kind version r.spent_query in
        let q = is_claimable input.job_kind version r.claim_query in
        let still : find job_key k s1.jobs ≡ some j =
          settled.untouched k (
            All-map
              (λ c f.
                λ e. absurd (row_clash p k s.jobs c j (f.0, (and-true (p c) _ f.1).0) h no_spent e))
              spent_rows spent_found)
          ∙ h in
        done.untouched k (
          All-map (λ c f. λ e. absurd (row_clash q k s1.jobs c j f still no_claim e)) free_rows
            IsFree-found)
        ∙ still

    claims_outcome :
        (s' : JobStore)
        → Claimed free_rows final_rows s1 s'
        → ClaimOutcome input.job_kind input.lease_owner version limit r.spent_query r.claim_query
            r.uuid s
            (record { dead_lettered_ids = ids; claimed = final_rows })
            s'
    claims_outcome s' done =
        let p = is_claimable input.job_kind version r.claim_query in
        record {
          sound = done.sound;
          bounded = omega (
            arith,
            length-claimed_rows r.claim_loop r.uuid input.lease_owner duration free_rows,
            length-lock_rows r.locked claim_before p limit s1.jobs,
          );
          distinct =
              claimed_rows-Distinct r.claim_loop r.uuid input.lease_owner duration free_rows (
                lock_rows-Distinct r.locked claim_before p limit s1.jobs
                  settled.sound.jobs_distinct);
          stored = done.stored;
          earned =
              claimed_rows-All IsFree
                (Earned input.job_kind input.lease_owner version r.claim_query r.uuid s s')
                r.claim_loop r.uuid input.lease_owner duration free_rows (Earned-row s')
                IsFree-found;
          untouched = λ k j. untouched_row s' k j done;
        }

  -- In sound tables, with valid arguments and lease tokens that are not in use, claiming does not
  -- throw. It returns at most `limit` jobs, no two the same, each
  -- stored as returned; each was claimable before (pending and due, or under an expired lease, with
  -- attempts left), now is leased to the caller, and counts one attempt more. The tables stay sound.
  pub claim_jobs_total :
      (c : Claims) × (s' : JobStore) × (claim_jobs input r s ≡ ok (c, s'))
      × ClaimOutcome input.job_kind input.lease_owner version limit r.spent_query r.claim_query
          r.uuid s c s'
  unfolding claim_jobs
  claim_jobs_total =
      let (ids, s1, ran, settled) = spent_settles in
      let (s', ran', done) = claims_run ids s1 settled in
      (
        record { dead_lettered_ids = ids; claimed = final_rows ids s1 settled },
        s',
        rw (identity, name, lasting, many) (rw ran (rw ran')),
        claims_outcome ids s1 settled s' done,
      )

-- The same of every call that returns: the arguments that it was given passed their checks.
pub claim_jobs_outcome :
    (input : ClaimInput) (r : Readings) (s s' : JobStore) (c : Claims)
    → Sound s
    → FreshTokens r.uuid s
    → claim_jobs input r s ≡ ok (c, s')
    → (version : ℕ) × (limit : ℕ) × (assert_positive_integer input.limit invalid_argument
        ≡ ok limit)
      × ClaimOutcome input.job_kind input.lease_owner version limit r.spent_query r.claim_query
          r.uuid s c s'
unfolding claim_jobs
claim_jobs_outcome input r s s' c v fresh h =
    let (version, identity, h1) =
      >>=-eq-ok (validate_job_identity input.job_kind input.job_version) _ h in
    let (named, name, h2) =
      >>=-eq-ok (assert_bounded_nonblank_string input.lease_owner 160 invalid_argument) _ h1 in
    let (duration, lasting, h3) =
      >>=-eq-ok (assert_positive_integer input.lease_duration_seconds invalid_argument) _ h2 in
    let (limit, many, h4) = >>=-eq-ok (assert_positive_integer input.limit invalid_argument) _ h3 in
    let (c', t, ran, outcome) =
      claim_jobs_total input r s v fresh version duration limit identity name lasting many in
    let same : (c', t) ≡ (c, s') = ok_inj (claim_jobs input r s) ran h in
    (
      version,
      limit,
      many,
      subst
          (λ p.
            ClaimOutcome input.job_kind input.lease_owner version limit r.spent_query r.claim_query
              r.uuid s p.0 p.1)
          same outcome,
    )
