-- ===== src/Jobs/Claim.antt =====
-- claimDeliveryJobsInTransaction and deadLetterExpiredFinalAttemptLeasesInTransaction. `clock` is
-- the stream of clock_timestamp() readings, one for each statement, `uuid` that of randomUUID(),
-- and `locked` says which rows other transactions hold, which `skipLocked` passes over.
pub use euphoria_api.Sql.{ordered_by, nulls_last}
use euphoria_api.Base.{
  ℕ, ◌+◌, Bool, true, false, not, ◌&&◌, ◌||◌, List, [], ◌∷◌, none, some, Text, text, Result, ok,
  ◌>>=◌, ◌>>◌, or_throw, guard, first, is_set, is_due, holds, ltb, leb, take, ◌==◌, nat_eq, text_eq,
  if◌then◌else◌,
}
use euphoria_api.Sql.{select, update, updated, order_by, insert}
use euphoria_api.Sql.Keys.{find}
use euphoria_api.Validate.{Number, assert_positive_integer, assert_bounded_nonblank_string}
use euphoria_api.Jobs.Enqueue.{validate_job_identity}
use euphoria_api.Jobs.Finish.{dead_lettered_job}
use euphoria_api.Jobs.Schema.{
  Job, Attempt, JobStore, JobFault, leased, open_lease, dead_lettered_unknown, lease_expired,
  lease_expired_after_final_claim, unknown, invalid_argument, missing_lease_token, not_claimed,
  missing_lease_metadata, constraint_violation, attempt_key, seconds, is_leased, is_pending,
  is_open_lease, close_attempt,
}

abbrev pub lease_expired_code : Text
lease_expired_code = text "lease_expired"

abbrev pub final_claim_code : Text
final_claim_code = text "lease_expired_after_final_claim"

-- The rows of the first query: an expired lease on the last attempt.
unfoldable pub is_spent_lease : Text → ℕ → ℕ → Job → Bool
is_spent_lease job_kind job_version now j =
    j.job_kind == job_kind
    && j.job_version == job_version
    && is_leased j.state
    && is_due j.lease_expires_at now
    && leb j.max_attempts j.attempt_count

-- The rows of the second: due and waiting, or under an expired lease, with attempts left.
unfoldable pub is_claimable : Text → ℕ → ℕ → Job → Bool
is_claimable job_kind job_version now j =
    j.job_kind == job_kind
    && j.job_version == job_version
    && ((is_pending j.state && leb j.available_at now && ltb j.attempt_count j.max_attempts)
        || (is_leased j.state
            && is_due j.lease_expires_at now
            && ltb j.attempt_count j.max_attempts))

unfoldable pub spent_before : Job → Job → Bool
spent_before x y = nulls_last x.lease_expires_at y.lease_expires_at (leb x.id y.id)

unfoldable pub claim_before : Job → Job → Bool
claim_before x y =
    ordered_by x.available_at y.available_at (ordered_by x.created_at y.created_at (leb x.id y.id))

-- for("update", { skipLocked: true }).limit(limit)
unfoldable pub lock_rows : (ℕ → Bool) → (Job → Job → Bool) → (Job → Bool) → ℕ → List Job → List Job
unfolding select order_by
lock_rows locked before p limit jobs =
    take limit (order_by before (select (λ j. p j && not (locked j.id)) jobs))

abbrev pub later : ℕ → (ℕ → ℕ) → ℕ → ℕ
later n clock i = clock (n + i)

-- The guard of the dead-letter update, against the row as it is now.
unfoldable pub is_still_spent : ℕ → ℕ → ℕ → Job → Bool
is_still_spent id token now j =
    j.id == id
    && is_leased j.state
    && holds j.lease_token token
    && is_due j.lease_expires_at now
    && leb j.max_attempts j.attempt_count

unfoldable pub spent_attempt : ℕ → Attempt → Attempt
spent_attempt t a = record a {
  outcome = dead_lettered_unknown;
  failure_code = some final_claim_code;
  finished_at = some t;
}

abbrev pub spent_job : ℕ → Job → Job
spent_job t = dead_lettered_job t lease_expired_after_final_claim unknown final_claim_code

-- One round of the loop: the store after it, and whether the job was dead-lettered (`continue`
-- when the update found nothing).
unfoldable pub dead_letter_spent :
    (clock : ℕ → ℕ) → Job → JobStore → Result JobFault (Bool × JobStore)
unfolding is_still_spent updated update dead_lettered_job close_attempt is_open_lease spent_attempt
dead_letter_spent clock candidate s = do
  token ← or_throw candidate.lease_token missing_lease_token
  let spent = is_still_spent candidate.id token (clock 0)
  let rows = record s { jobs = update spent (spent_job (clock 0)) s.jobs }
  if is_set (first (updated spent (spent_job (clock 0)) s.jobs))
      then (do
        closed ← close_attempt (is_open_lease candidate.id token) (spent_attempt (clock 1)) rows
        ok (true, closed))
      else ok (false, s)

unfoldable pub dead_letter_all_spent :
    (clock : ℕ → ℕ) → List Job → JobStore → Result JobFault (List ℕ × JobStore)
unfolding dead_letter_spent
dead_letter_all_spent clock [] s = ok ([], s)
dead_letter_all_spent clock (candidate ∷ rest) s =
    dead_letter_spent clock candidate s >>= λ (done, s').
    dead_letter_all_spent (later 2 clock) rest s' >>= λ (ids, s'').
    ok ((if done then candidate.id ∷ ids else ids), s'')

unfoldable pub claimed_job : ℕ → Text → ℕ → ℕ → Job → Job
claimed_job t lease_owner lease_token duration j = record j {
  state = leased;
  attempt_count = j.attempt_count + 1;
  lease_owner = some lease_owner;
  lease_token = some lease_token;
  leased_at = some t;
  lease_expires_at = some (t + seconds duration);
  updated_at = t;
}

unfoldable pub expired_attempt : ℕ → Attempt → Attempt
expired_attempt t a = record a {
  outcome = lease_expired;
  failure_code = some lease_expired_code;
  finished_at = some t;
}

-- `if (candidate.state === "leased")`: close the attempt of the lease that ran out.
unfoldable pub reclaim : ℕ → Job → JobStore → Result JobFault JobStore
unfolding close_attempt is_open_lease expired_attempt
reclaim t candidate s =
    if is_leased candidate.state
    then (do
      token ← or_throw candidate.lease_token missing_lease_token
      close_attempt (is_open_lease candidate.id token) (expired_attempt t) s)
    else ok s

-- The insert into delivery_job_attempt, with its primary key and its unique index on the job and
-- the attempt number. The columns of the claimed job are checked to be set on the way.
unfoldable pub record_attempt : Job → JobStore → Result JobFault JobStore
unfolding find
record_attempt claimed s = do
  token ← or_throw claimed.lease_token missing_lease_metadata
  leased_at ← or_throw claimed.leased_at missing_lease_metadata
  lease_expires_at ← or_throw claimed.lease_expires_at missing_lease_metadata
  owner ← or_throw claimed.lease_owner missing_lease_metadata
  guard (not (is_set (find attempt_key token s.attempts))) constraint_violation
  guard
      (not (
        is_set (
          first (
            select (λ a. a.job_id == claimed.id && a.attempt_number == claimed.attempt_count)
              s.attempts))))
      constraint_violation
  ok (record s {
    attempts =
        insert
          (record {
            token = token;
            job_id = claimed.id;
            attempt_number = claimed.attempt_count;
            owner = owner;
            leased_at = leased_at;
            lease_expires_at = lease_expires_at;
            outcome = open_lease;
            failure_code = none;
            next_available_at = none;
            finished_at = none;
          })
          s.attempts;
  })

unfoldable pub claim_job :
    (clock : ℕ → ℕ) (lease_owner : Text) (lease_token duration : ℕ)
    → Job
    → JobStore
    → Result JobFault (Job × JobStore)
unfolding reclaim updated update claimed_job record_attempt
claim_job clock lease_owner lease_token duration candidate s = do
  reclaimed ← reclaim (clock 0) candidate s
  let this = λ (j : Job). j.id == candidate.id
  let claim = claimed_job (clock 1) lease_owner lease_token duration
  claimed ← or_throw (first (updated this claim reclaimed.jobs)) not_claimed
  stored ← record_attempt claimed (record reclaimed { jobs = update this claim reclaimed.jobs })
  ok (claimed, stored)

unfoldable pub claim_all :
    (clock uuid : ℕ → ℕ) (lease_owner : Text) (duration : ℕ)
    → List Job
    → JobStore
    → Result JobFault (List Job × JobStore)
unfolding claim_job
claim_all clock uuid lease_owner duration [] s = ok ([], s)
claim_all clock uuid lease_owner duration (candidate ∷ rest) s =
    claim_job clock lease_owner (uuid 0) duration candidate s >>= λ (claimed, s').
    claim_all (later 2 clock) (later 1 uuid) lease_owner duration rest s' >>= λ (jobs, s'').
    ok (claimed ∷ jobs, s'')

pub record ClaimInput : Type 0 where
  pub job_kind : Text
  pub job_version : Number
  pub lease_duration_seconds : Number
  pub lease_owner : Text
  pub limit : Number

-- Three streams of clock readings: `t` and `u` for the two queries, and one for each loop.
pub record Readings : Type 0 where
  pub spent_query : ℕ
  pub spent_loop : ℕ → ℕ
  pub claim_query : ℕ
  pub claim_loop : ℕ → ℕ
  pub uuid : ℕ → ℕ
  pub locked : ℕ → Bool

pub record Claims : Type 0 where
  pub dead_lettered_ids : List ℕ
  pub claimed : List Job

unfoldable pub claim_jobs : ClaimInput → Readings → JobStore → Result JobFault (Claims × JobStore)
unfolding validate_job_identity assert_bounded_nonblank_string assert_positive_integer lock_rows
    is_spent_lease is_claimable spent_before claim_before dead_letter_all_spent claim_all
claim_jobs input r s = do
  job_version ← validate_job_identity input.job_kind input.job_version
  assert_bounded_nonblank_string input.lease_owner 160 invalid_argument
  duration ← assert_positive_integer input.lease_duration_seconds invalid_argument
  limit ← assert_positive_integer input.limit invalid_argument
  let spent = is_spent_lease input.job_kind job_version r.spent_query
  (ids, s') ←
      dead_letter_all_spent r.spent_loop (lock_rows r.locked spent_before spent limit s.jobs) s
  let free = is_claimable input.job_kind job_version r.claim_query
  (jobs, s'') ←
      claim_all r.claim_loop r.uuid input.lease_owner duration
        (lock_rows r.locked claim_before free limit s'.jobs) s'
  ok (record { dead_lettered_ids = ids; claimed = jobs }, s'')
