-- ===== src/Commands/Once.antt =====
-- Running the same command again, and what every call leaves behind.
use euphoria_api.Base.{
  ℕ, ◌≡◌, refl, sym, subst, ◌∙◌, ap, ◌≢◌, Bool, true, false, not, inl, inr, List, [], ◌∷◌, Option,
  none, some, Text, Result, ok, leb, All, Option-cases, first, is_set, if◌then◌else◌, >>=-eq-ok,
  ok_inj, some_inj, or_throw, guard, nat_eq, text_eq, eq_self,
}
use euphoria_api.Sql.{select, insert, updated, All-select}
use euphoria_api.Sql.Keys.{find}
use euphoria_api.Validate.{max_int4}
use euphoria_api.Commands.Schema.{
  Command, CommandOutcome, CommandFault, CommandAnswer, RawOutcome, replied, refused,
  idempotency_conflict, idempotency_in_progress, constraint_violation, out_of_range, not_completed,
  command_key,
}
use euphoria_api.Commands.Run.{
  CommandInput, check_command, normalize_outcome, claimed_row, completed_row, is_claim,
  claim_or_answer, execute_claimed, run_command,
}
use euphoria_api.Commands.Settled.{Settled, Completed, stored-completed}
use euphoria_api.Commands.Replay.{
  Accepted, of_key, persisted_row, persisted-Settled, found_persisted, run_command_known,
  run_command_new,
}

module _ (sha256 : Text → Text) (input : CommandInput) (version retention : ℕ) (fingerprint : Text)
    (valid : Accepted sha256 input version retention fingerprint) {World : Type 0}
    (execute : World → Result CommandFault (RawOutcome × World))
    (after_persisted : World → Result CommandFault World) (rows : List Command)
    (settled : Settled rows) (w : World) (id started t : ℕ)
    (new : first (select (of_key input) rows) ≡ none) (unused : find command_key id rows ≡ none)
    (raw : RawOutcome) (o : CommandOutcome) (executed persisted : World)
    (ran : execute w ≡ ok (raw, executed)) (normal : normalize_outcome raw ≡ ok o)
    (after : after_persisted executed ≡ ok persisted) where
  -- On settled rows, with accepted arguments, a new key and an unused id: if the command and the
  -- callback come through, so does the call; and the same call after it, at any time, in any state
  -- of the other tables, and whatever the command would do then, gets the first outcome and
  -- changes nothing.
  pub run_command_again :
      (execute' : World → Result CommandFault (RawOutcome × World))
      (after' : World → Result CommandFault World) (w' : World) (id' started' t' : ℕ)
      → let rows' =
          insert (persisted_row id started t version retention fingerprint input o) rows in
        (run_command sha256 id started t input execute after_persisted rows w
          ≡ ok (replied id false o, (rows', persisted)))
        × (run_command sha256 id' started' t' input execute' after' rows' w'
            ≡ ok (replied id true o, (rows', w')))
  run_command_again execute' after' w' id' started' t' =
      let row = persisted_row id started t version retention fingerprint input o in
      let rows' = insert row rows in
      let settled' =
        persisted-Settled sha256 input version retention fingerprint valid execute after_persisted
          rows settled w id started t new unused raw o executed persisted ran normal after in
      let found =
        found_persisted sha256 input version retention fingerprint valid execute after_persisted
          rows settled w id started t new unused raw o executed persisted ran normal after in
      (
        run_command_new sha256 input version retention fingerprint valid execute after_persisted
            rows settled w id started t new unused raw o executed persisted ran normal after,
        run_command_known sha256 input version retention fingerprint valid execute' after' rows'
              settled' w' id' started' t' row o found (unfold completed_row in refl)
              (stored-completed t retention o _)
            ∙ unfold completed_row in
              unfold claimed_row in rw (eq_self version, eq_self fingerprint) refl,
      )

first_All :
    (P : Command → Type 0) (rows : List Command) (r : Command)
    → All P rows
    → first rows ≡ some r
    → P r
first_All P [] r h e = absurd (cc)
first_All P (x ∷ xs) r (h, hs) e = subst P (some_inj e) h

known_not_waiting :
    (b : Bool) (id : ℕ) (o : CommandOutcome)
    → (if b then replied id true o else refused idempotency_conflict)
      ≢ refused idempotency_in_progress
known_not_waiting true id o = λ q. cc
known_not_waiting false id o = λ q. cc

fresh_not_waiting :
    (id : ℕ) (o : CommandOutcome) → replied id false o ≢ refused idempotency_in_progress
fresh_not_waiting id o = λ q. cc

guarded : (b : Bool) → guard b out_of_range ≡ ok tt → b ≡ true
guarded true h = refl
guarded false h = absurd (cc)

free_id : (o : Option Command) → guard (not (is_set o)) constraint_violation ≡ ok tt → o ≡ none
free_id none h = refl
free_id (some r) h = absurd (cc)

-- A call that comes through leaves settled rows, and no caller is told to wait.
abbrev pub Answered : {World : Type 0} → CommandAnswer → List Command × World → Type 0
Answered answer after = Settled after.0 × (answer ≢ refused idempotency_in_progress)

module _ (sha256 : Text → Text) (input : CommandInput) {World : Type 0}
    (execute : World → Result CommandFault (RawOutcome × World))
    (after_persisted : World → Result CommandFault World) (rows : List Command)
    (settled : Settled rows) (w : World) (id started t : ℕ) (answer : CommandAnswer)
    (out : List Command × World) where
  run-Accepted :
      (version retention : ℕ) (fingerprint : Text)
      → Accepted sha256 input version retention fingerprint
      → run_command sha256 id started t input execute after_persisted rows w
        ≡ claim_or_answer id started t version retention fingerprint input execute after_persisted
            rows w
            (first (select (of_key input) rows))
  unfolding run_command
  run-Accepted version retention fingerprint valid = rw (valid.checked, valid.fits) refl

  Answered-known :
      (version retention : ℕ) (fingerprint : Text)
      → Accepted sha256 input version retention fingerprint
      → (existing : Command) → first (select (of_key input) rows) ≡ some existing
      → run_command sha256 id started t input execute after_persisted rows w ≡ ok (answer, out)
      → Answered answer out
  Answered-known version retention fingerprint valid existing found h =
      let c : Completed existing =
        first_All Completed (select (of_key input) rows) existing
          (All-select Completed (of_key input) rows settled.all_completed) found in
      let known =
        run_command_known sha256 input version retention fingerprint valid execute after_persisted
          rows settled w id started t existing c.stored found c.state_completed c.readable in
      let same =
        ok_inj (run_command sha256 id started t input execute after_persisted rows w) known h in
      (
        subst (λ (x : List Command × World). Settled x.0) (ap (λ p. p.1) same) settled,
        λ q. known_not_waiting _ existing.id c.stored (ap (λ p. p.0) same ∙ q),
      )

  Answered-new :
      (version retention : ℕ) (fingerprint : Text)
      → Accepted sha256 input version retention fingerprint
      → first (select (of_key input) rows) ≡ none
      → run_command sha256 id started t input execute after_persisted rows w ≡ ok (answer, out)
      → Answered answer out
  unfolding execute_claimed
  Answered-new version retention fingerprint valid new h =
      let claim =
        claimed_row id started version input.actor_user_id input.command_name input.idempotency_key
          fingerprint in
      let entered : claim_or_answer id started t version retention fingerprint input execute
            after_persisted rows w none
          ≡ ok (answer, out) =
        sym (
          run-Accepted version retention fingerprint valid
          ∙ ap
              (claim_or_answer id started t version retention fingerprint input execute
                after_persisted rows w)
              new)
        ∙ h in
      let (_, free, h1) =
        >>=-eq-ok (guard (not (is_set (find command_key id rows))) constraint_violation) _
          entered in
      let (x, ran, h2) = >>=-eq-ok (execute w) _ h1 in
      let (o, normal, h3) = >>=-eq-ok (normalize_outcome x.0) _ h2 in
      let (row, written, h4) =
        >>=-eq-ok
          (or_throw
            (first (updated (is_claim id) (completed_row t retention o) (insert claim rows)))
            not_completed)
          _ h3 in
      let (persisted, after, h5) = >>=-eq-ok (after_persisted x.1) _ h4 in
      let unused = free_id (find command_key id rows) free in
      let same =
        ok_inj (run_command sha256 id started t input execute after_persisted rows w)
          (run_command_new sha256 input version retention fingerprint valid execute after_persisted
            rows settled w id started t new unused x.0 o x.1 persisted ran normal after)
          h in
      (
        subst (λ (x : List Command × World). Settled x.0) (ap (λ p. p.1) same)
            (persisted-Settled sha256 input version retention fingerprint valid execute
              after_persisted rows settled w id started t new unused x.0 o x.1 persisted ran normal
              after),
        λ q. fresh_not_waiting id o (ap (λ p. p.0) same ∙ q),
      )

  -- Whatever a call of runIdempotentCommand on settled rows returns, the rows that it leaves are settled (one for
  -- each key, all completed), and it never answers that the command is still in progress.
  pub run_command-Settled :
      run_command sha256 id started t input execute after_persisted rows w ≡ ok (answer, out)
      → Settled out.0 × (answer ≢ refused idempotency_in_progress)
  unfolding run_command
  run_command-Settled h =
      let (x, checked, h1) = >>=-eq-ok (check_command sha256 input) _ h in
      let (u, fits, h2) = >>=-eq-ok (guard (leb x.0 max_int4) out_of_range) _ h1 in
      let valid : Accepted sha256 input x.0 x.1 x.2 = record {
        checked = checked;
        fits = guarded _ fits;
      } in
      elim (Option-cases (first (select (of_key input) rows))) [
        | inl n ↦ Answered-new x.0 x.1 x.2 valid n h
        | inr (r, e) ↦ Answered-known x.0 x.1 x.2 valid r e h
      ]
