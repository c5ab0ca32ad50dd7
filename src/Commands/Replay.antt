-- ===== src/Commands/Replay.antt =====
-- A command runs once for each key: what runIdempotentCommand does with a new key and a known one.
use euphoria_api.Base.{
  ℕ, nat_eqb_iff, ◌<◌, ◌≡◌, refl, ap, subst, >>=-eq-ok, Bool, true, false, ◌&&◌, List, [], ◌∷◌,
  none, some, Text, Result, ok, arith, leb, All, All-map, All-append, first, if◌then◌else◌, ◌==◌,
  nat_eq, text_eq, eq_self,
}
use euphoria_api.Sql.{select, insert, updated, select-insert, update-insert, select-All_none}
use euphoria_api.Sql.Keys.{find, Distinct-insert}
use euphoria_api.Validate.{
  max_int4, assert_positive_integer, assert_positive_integer_bounds, assert_bounded_nonblank_string,
}
use euphoria_api.Commands.Schema.{
  Command, CommandOutcome, CommandFault, RawOutcome, replied, refused, idempotency_conflict,
  command_key, is_completed,
}
use euphoria_api.Commands.Run.{
  CommandInput, check_command, create_fingerprint, normalize_outcome, stored_outcome, has_key,
  claimed_row, completed_row, is_claim, answer_existing, execute_claimed, run_command,
}
use euphoria_api.Commands.Settled.{
  Settled, Completed, Completed-is_claim, completed_row-Completed, OneEach-insert,
}

-- The arguments pass the checks, and the request has this fingerprint.
pub record Accepted (sha256 : Text → Text) (input : CommandInput) (version retention : ℕ)
    (fingerprint : Text) : Type 0 where
  pub checked : check_command sha256 input ≡ ok (version, retention, fingerprint)
  pub fits : leb version max_int4 ≡ true

abbrev pub of_key : CommandInput → Command → Bool
of_key input = has_key input.actor_user_id input.command_name input.idempotency_key

-- The row that a new key leaves behind.
abbrev pub persisted_row :
    (id started t version retention : ℕ) (fingerprint : Text)
    → CommandInput
    → CommandOutcome
    → Command
persisted_row id started t version retention fingerprint input o = completed_row t retention o (
    claimed_row id started version input.actor_user_id input.command_name input.idempotency_key
      fingerprint)

check_command_retention :
    (sha256 : Text → Text) (input : CommandInput) (version retention : ℕ) (fingerprint : Text)
    → check_command sha256 input ≡ ok (version, retention, fingerprint)
    → 0 < retention
unfolding check_command
check_command_retention sha256 input version retention fingerprint h =
    let bad = CommandFault.invalid_argument in
    let (_, _, h1) = >>=-eq-ok (assert_bounded_nonblank_string input.actor_user_id 1024 bad) _ h in
    let (_, _, h2) = >>=-eq-ok (assert_bounded_nonblank_string input.command_name 120 bad) _ h1 in
    let (_, _, h3) =
      >>=-eq-ok (assert_bounded_nonblank_string input.idempotency_key 255 bad) _ h2 in
    let (v, _, h4) = >>=-eq-ok (assert_positive_integer input.command_version bad) _ h3 in
    let (r, retained, h5) = >>=-eq-ok (assert_positive_integer input.retention_seconds bad) _ h4 in
    let (f, _, h6) =
      >>=-eq-ok (create_fingerprint sha256 input.command_name input.command_version input.request) _
        h5 in
    let same : r ≡ retention = cc in
    subst (λ n. 0 < n) same
      (assert_positive_integer_bounds input.retention_seconds bad r retained).1

first-none : {A : Type 0} (xs : List A) → first xs ≡ none → xs ≡ []
first-none [] h = refl
first-none (x ∷ xs) h = absurd (cc)

module _ (sha256 : Text → Text) (input : CommandInput) (version retention : ℕ) (fingerprint : Text)
    (valid : Accepted sha256 input version retention fingerprint) {World : Type 0}
    (execute : World → Result CommandFault (RawOutcome × World))
    (after_persisted : World → Result CommandFault World) (rows : List Command)
    (settled : Settled rows) (w : World) (id started t : ℕ) where
  pub run_command_known :
      (existing : Command) (o : CommandOutcome)
      → first (select (of_key input) rows) ≡ some existing
      → is_completed existing.state ≡ true
      → stored_outcome existing ≡ ok o
      → run_command sha256 id started t input execute after_persisted rows w
        ≡ ok (
          (if existing.command_version == version && existing.request_fingerprint == fingerprint
              then replied existing.id true o
              else refused idempotency_conflict),
          (rows, w),
        )
  unfolding run_command answer_existing
  run_command_known existing o h c r = rw (valid.checked, valid.fits, h, c, r) (ground arith)

  module _ (new : first (select (of_key input) rows) ≡ none)
      (unused : find command_key id rows ≡ none) (raw : RawOutcome) (o : CommandOutcome)
      (executed persisted : World) (ran : execute w ≡ ok (raw, executed))
      (normal : normalize_outcome raw ≡ ok o)
      (after : after_persisted executed ≡ ok persisted) where
    abbrev claim : Command
    claim =
        claimed_row id started version input.actor_user_id input.command_name input.idempotency_key
          fingerprint

    no_claims : All (λ r. is_claim id r ≡ false) rows
    no_claims = All-map (λ r c. Completed-is_claim id r c) rows settled.all_completed

    claim-is_claim : is_claim id claim ≡ true
    unfolding is_claim claimed_row
    claim-is_claim = ground (arith, (nat_eqb_iff id id).1 refl)

    -- A new key: the command is executed, its outcome is stored under the key beside the other
    -- rows, and what it and the callback did to the other tables stays.
    pub run_command_new :
        run_command sha256 id started t input execute after_persisted rows w
        ≡ ok (
          replied id false o,
          (
            insert (persisted_row id started t version retention fingerprint input o) rows,
            persisted,
          ),
        )
    unfolding run_command execute_claimed updated completed_row
    run_command_new =
        let f = completed_row t retention o in
        simp (valid.checked, valid.fits, new, unused, ran, normal, after)
          (rw
            (
              select-insert (is_claim id) claim rows (select-All_none (is_claim id) rows no_claims)
                  claim-is_claim,
              update-insert (is_claim id) f claim rows no_claims claim-is_claim,
            )
            refl)

    abbrev persisted_rows : List Command
    persisted_rows = insert (persisted_row id started t version retention fingerprint input o) rows

    of_key_persisted :
        of_key input (persisted_row id started t version retention fingerprint input o) ≡ true
    unfolding has_key completed_row claimed_row
    of_key_persisted = ground (
      arith,
      eq_self input.actor_user_id,
      eq_self input.command_name,
      eq_self input.idempotency_key,
    )

    pub persisted-Settled : Settled persisted_rows
    unfolding completed_row claimed_row
    persisted-Settled = record {
      ids_distinct =
          Distinct-insert command_key
            (persisted_row id started t version retention fingerprint input o) rows unused
            settled.ids_distinct;
      keys_distinct =
          OneEach-insert (persisted_row id started t version retention fingerprint input o) rows
            (first-none (select (of_key input) rows) new) settled.keys_distinct;
      all_completed =
          All-append Completed rows
            (persisted_row id started t version retention fingerprint input o ∷ [])
            settled.all_completed
            (
              completed_row-Completed t retention o claim (
                  check_command_retention sha256 input version retention fingerprint valid.checked),
              tt,
            );
    }

    pub found_persisted :
        first (select (of_key input) persisted_rows)
        ≡ some (persisted_row id started t version retention fingerprint input o)
    found_persisted = ap first (
        select-insert (of_key input)
          (persisted_row id started t version retention fingerprint input o) rows
          (first-none (select (of_key input) rows) new) of_key_persisted)
