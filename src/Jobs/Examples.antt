-- ===== src/Jobs/Examples.antt =====
-- A job in the life of one worker and another, and the theorems at its stages.
mod Endings
mod Upkeep
use euphoria_api.Base.{
  ℕ, ◌+◌, is_after, ◌<◌, ◌≡◌, refl, ap, Bool, true, false, List, [], ◌∷◌, Option, none, some, Text,
  text, Result, ok, err, arith, trim, text_eqb, All, is_space, trim_start,
}
use euphoria_api.Sql.{select, update, updated, order_by, place}
use euphoria_api.Sql.Keys.{find}
use euphoria_api.Validate.{
  Number, natural, assert_positive_integer, assert_nonnegative_integer,
  assert_bounded_nonblank_string,
}
use euphoria_api.Jobs.Schema.{
  Job, Attempt, JobStore, JobFault, invalid_argument, job_key, attempt_key, owns_lease, is_leased,
}
use euphoria_api.Jobs.Enqueue.{EnqueueInput, enqueue_job, new_job, validate_job_identity}
use euphoria_api.Jobs.Claim.{ClaimInput, Readings, Claims, claim_jobs, claimed_job, expired_attempt}
use euphoria_api.Jobs.Sound.{Sound}
use euphoria_api.Jobs.Claims.Batch.{FreshTokens}
use euphoria_api.Jobs.Lifecycle.{
  JobStep, Reach, Reach-Sound, empty_store, enqueues, claims, here, next, one_open_attempt,
}
use euphoria_api.Jobs.Claims.Step.{opened_attempt}
use euphoria_api.Jobs.Claims.Total.{ClaimOutcome, claim_jobs_total}
use euphoria_api.Jobs.Transitions.{IsOwnerName}
use euphoria_api.Jobs.Lifecycle.Fencing.{Fenced, claim_jobs-fences, claim_jobs_spares_live}

abbrev pub push_kind : Text
push_kind = text "notification.push.deliver"

abbrev pub worker_name : Text
worker_name = text "worker-1"

abbrev pub push_input : EnqueueInput
push_input = record {
  available_in_seconds = natural 0;
  job_kind = push_kind;
  job_version = natural 1;
  max_attempts = natural 2;
  payload = text "{}";
  terminal_retention_seconds = natural 60;
}

abbrev pub queued_job : Job
queued_job = new_job 7 100 101 push_kind 1 (text "{}") 0 2 60

abbrev pub queued_store : JobStore
queued_store = record { jobs = queued_job ∷ []; attempts = []; requeues = [] }

enqueued : enqueue_job 7 100 101 push_input empty_store ≡ ok (queued_job, queued_store)
unfolding enqueue_job
enqueued = refl

abbrev claim_input : ClaimInput
claim_input = record {
  job_kind = push_kind;
  job_version = natural 1;
  lease_duration_seconds = natural 30;
  lease_owner = worker_name;
  limit = natural 5;
}

abbrev first_readings : Readings
first_readings = record {
  spent_query = 200;
  spent_loop = λ i. 201 + i;
  claim_query = 210;
  claim_loop = λ i. 211 + i;
  uuid = λ i. 1000 + i;
  locked = λ k. false;
}

abbrev pub leased_job : Job
leased_job = claimed_job 212 worker_name 1000 30 queued_job

abbrev pub leased_store : JobStore
leased_store = record {
  jobs = leased_job ∷ [];
  attempts = opened_attempt queued_job worker_name 1000 212 30 ∷ [];
  requeues = [];
}

first_ran :
    claim_jobs claim_input first_readings queued_store
    ≡ ok (record { dead_lettered_ids = []; claimed = leased_job ∷ [] }, leased_store)
unfolding claim_jobs new_job text_eqb
first_ran = refl

queued_fresh : FreshTokens first_readings.uuid queued_store
unfolding find
queued_fresh = record { unused = λ i. refl; distinct = λ i k h. omega arith }

queued_Reach : Reach empty_store queued_store
queued_Reach = next here (enqueues 7 100 101 push_input queued_job enqueued)

leased_Reach : Reach empty_store leased_store
leased_Reach = next queued_Reach (claims claim_input first_readings _ queued_fresh first_ran)

pub queued_Sound : Sound queued_store
queued_Sound = Reach-Sound queued_store queued_Reach

pub leased_Sound : Sound leased_store
leased_Sound = Reach-Sound leased_store leased_Reach

pub found_leased : find job_key 7 leased_store.jobs ≡ some leased_job
unfolding find claimed_job new_job
found_leased = refl

abbrev pub open_row : Attempt
open_row = opened_attempt queued_job worker_name 1000 212 30

found_open : find attempt_key 1000 leased_store.attempts ≡ some open_row
unfolding find new_job
found_open = refl

one_open_attempt_example : open_row ≡ open_row
one_open_attempt_example =
    one_open_attempt leased_store 1000 1000 open_row open_row leased_Reach found_open found_open
      refl refl refl

push_identity : validate_job_identity push_kind (natural 1) ≡ ok 1
unfolding validate_job_identity
push_identity = refl

pub worker_named : IsOwnerName worker_name
unfolding assert_bounded_nonblank_string
worker_named = refl

positive_30 : assert_positive_integer (natural 30) invalid_argument ≡ ok 30
unfolding assert_positive_integer
positive_30 = refl

positive_5 : assert_positive_integer (natural 5) invalid_argument ≡ ok 5
unfolding assert_positive_integer
positive_5 = refl

claim_jobs_total_example :
    (c : Claims) × (s' : JobStore) × (claim_jobs claim_input first_readings queued_store
      ≡ ok (c, s'))
    × ClaimOutcome push_kind worker_name 1 5 200 210 first_readings.uuid queued_store c s'
claim_jobs_total_example =
    claim_jobs_total claim_input first_readings queued_store queued_Sound queued_fresh 1 30 5
      push_identity worker_named positive_30 positive_5

-- The second worker comes after the first lease has run out.
abbrev second_readings : Readings
second_readings = record {
  spent_query = 40000000;
  spent_loop = λ i. 40000001 + i;
  claim_query = 40000010;
  claim_loop = λ i. 40000011 + i;
  uuid = λ i. 2000 + i;
  locked = λ k. false;
}

abbrev pub reclaimed_job : Job
reclaimed_job = claimed_job 40000012 worker_name 2000 30 leased_job

abbrev pub reclaimed_store : JobStore
reclaimed_store = record {
  jobs = reclaimed_job ∷ [];
  attempts =
      expired_attempt 40000011 open_row
      ∷ opened_attempt leased_job worker_name 2000 40000012 30
      ∷ [];
  requeues = [];
}

second_ran :
    claim_jobs claim_input second_readings leased_store
    ≡ ok (record { dead_lettered_ids = []; claimed = reclaimed_job ∷ [] }, reclaimed_store)
unfolding claim_jobs new_job text_eqb
second_ran = refl

leased_fresh : FreshTokens second_readings.uuid leased_store
unfolding find
leased_fresh = record { unused = λ i. ground arith; distinct = λ i k h. omega arith }

reclaimed_Reach : Reach empty_store reclaimed_store
reclaimed_Reach = next leased_Reach (claims claim_input second_readings _ leased_fresh second_ran)

pub reclaimed_Sound : Sound reclaimed_store
reclaimed_Sound = Reach-Sound reclaimed_store reclaimed_Reach

claim_jobs-fences_example : Fenced 7 worker_name 1000 reclaimed_store × Unit {0}
unfolding claimed_job new_job
claim_jobs-fences_example =
    claim_jobs-fences claim_input second_readings leased_store reclaimed_store _ 1000 worker_name
      open_row leased_Sound leased_fresh second_ran worker_named found_open

live_lease : is_after leased_job.lease_expires_at 220 ≡ true
unfolding claimed_job new_job
live_lease = refl

-- A third worker, too early: nothing is handed out.
abbrev early_readings : Readings
early_readings = record {
  spent_query = 220;
  spent_loop = λ i. 221 + i;
  claim_query = 220;
  claim_loop = λ i. 221 + i;
  uuid = λ i. 3000 + i;
  locked = λ k. false;
}

early_ran :
    claim_jobs claim_input early_readings leased_store
    ≡ ok (record { dead_lettered_ids = []; claimed = [] }, leased_store)
unfolding claim_jobs new_job text_eqb
early_ran = refl

early_fresh : FreshTokens early_readings.uuid leased_store
unfolding find
early_fresh = record { unused = λ i. ground arith; distinct = λ i k h. omega arith }

claim_jobs_spares_live_example : (find job_key 7 leased_store.jobs ≡ some leased_job) × Unit {0}
unfolding claimed_job
claim_jobs_spares_live_example =
    claim_jobs_spares_live claim_input early_readings leased_store leased_store _ 7 leased_job
      leased_Sound early_fresh early_ran found_leased refl live_lease live_lease
