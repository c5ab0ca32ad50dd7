-- ===== src/Jobs/Examples/Upkeep.antt =====
-- A dead letter of the example is requeued, refused, and removed.
use euphoria_api.Base.{◌≡◌, refl, true, text, ok}
use euphoria_api.Validate.{
  natural, assert_positive_integer, assert_nonnegative_integer, assert_bounded_nonblank_string,
  matches_failure_code,
}
use euphoria_api.Jobs.Examples.{
  worker_name, leased_job, leased_store, found_leased, leased_Sound, worker_named,
}
use euphoria_api.Jobs.Examples.Endings.{owned, timeout_code, cleaned, buried_store}
use euphoria_api.Jobs.Schema.{
  Job, ManualRequeue, DeadLetterReason, DeadLetterOutcome, permanent_failure, failed,
  invalid_argument, invalid_transition,
}
use euphoria_api.Jobs.Claim.{claimed_job}
use euphoria_api.Jobs.Finish.{dead_lettered_job}
use euphoria_api.Jobs.Maintenance.{RequeueInput, not_requeueable, requeue_job}
use euphoria_api.Jobs.Sound.{Sound}
use euphoria_api.Jobs.Transitions.{Became, dead_letter_job_owned}
use euphoria_api.Jobs.Upkeep.Requeue.{audit_of, requeue_job_refused}

abbrev buried_job : Job
buried_job = dead_lettered_job 300 permanent_failure failed cleaned leased_job

buried : Became 7 buried_job leased_store buried_store
buried =
    let (ran, became) =
      dead_letter_job_owned 7 worker_name 1000 leased_store leased_Sound worker_named leased_job
        found_leased timeout_code 300 301 owned in
    became

abbrev requeue_input : RequeueInput
requeue_input = record {
  available_in_seconds = natural 5;
  max_attempts = natural 3;
  reason_code = text "operator_retry";
  requested_by = text "ops";
}

delayed : assert_nonnegative_integer (natural 5) invalid_argument ≡ ok 5
unfolding assert_nonnegative_integer
delayed = refl

limited : assert_positive_integer (natural 3) invalid_argument ≡ ok 3
unfolding assert_positive_integer
limited = refl

requester : assert_bounded_nonblank_string (text "ops") 160 invalid_argument ≡ ok tt
unfolding assert_bounded_nonblank_string
requester = refl

coded : matches_failure_code (text "operator_retry") ≡ true
unfolding matches_failure_code
coded = refl

abbrev audit : DeadLetterReason → DeadLetterOutcome → ManualRequeue
audit =
    audit_of 50 498 500 501 7 requeue_input buried_store buried.sound 5 3 delayed limited requester
      coded buried_job buried.row

live_job_not_requeued :
    requeue_job 50 498 500 501 7 requeue_input leased_store
    ≡ ok (not_requeueable invalid_transition, leased_store)
unfolding claimed_job
live_job_not_requeued =
    requeue_job_refused 50 498 500 501 7 requeue_input leased_store leased_Sound 5 3 delayed limited
      requester coded leased_job found_leased refl
