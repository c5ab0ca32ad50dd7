-- ===== src/Jobs/Claims/Spent.antt =====
-- Dead-lettering the leases that ran out on the last attempt never fails and keeps the tables sound.
use mathlib.Core.Option
use euphoria_api.Base.{
  ℕ, ◌≡◌, refl, sym, ◌∙◌, ap, ◌≢◌, Bool, true, false, ◌⊎◌, inl, inr, List, [], ◌∷◌, map, Option,
  none, some, ok, arith, All, All-map, All-both, some_inj, Bool-cases, nat_eqb, nat_eqb_iff,
  holds-some, if◌then◌else◌, nat_eq,
}
use euphoria_api.Sql.{updated}
use euphoria_api.Sql.Keys.{
  Distinct, find, only, written, find_key, find-update_row, find-update, find-update-none,
}
use euphoria_api.Jobs.Schema.{
  Job, Attempt, JobStore, job_key, attempt_key, is_leased, is_dead_letter, is_open_lease,
  close_attempt, lease_expired_after_final_claim, unknown,
}
use euphoria_api.Jobs.Checks.{dead_lettered_job-JobChecks, spent_attempt-AttemptChecks}
use euphoria_api.Jobs.Finish.{dead_lettered_job}
use euphoria_api.Jobs.Claim.{
  dead_letter_spent, dead_letter_all_spent, is_still_spent, spent_attempt, final_claim_code,
  spent_job, later,
}
use euphoria_api.Validate.{matches_failure_code}
use euphoria_api.Jobs.Leases.{updated-only}
use euphoria_api.Jobs.Leases.Keep.{Ending, Targets, both_written, written-Sound}
use euphoria_api.Jobs.Sound.{Sound, HasOpenAttempt}
use euphoria_api.Jobs.Claims.Step.{is_open_lease_facts, is_open_lease_intro}

spent-Ending : (t u : ℕ) → Ending (spent_job t) (spent_attempt u)
unfolding dead_lettered_job spent_attempt matches_failure_code
spent-Ending t u = record {
  job_same = λ j. refl;
  count_same = λ j. refl;
  released = λ j. refl;
  job_checked = λ j c l.
      dead_lettered_job-JobChecks t lease_expired_after_final_claim unknown final_claim_code j c l
        refl;
  attempt_same = λ a. refl;
  attempt_job = λ a. refl;
  number_same = λ a. refl;
  closed = λ a. refl;
  attempt_checked = spent_attempt-AttemptChecks u;
}

is_still_spent_facts :
    (id token t : ℕ) (j : Job)
    → is_still_spent id token t j ≡ true
    → (job_key j ≡ id) × (is_leased j.state ≡ true) × (j.lease_token ≡ some token)
unfolding is_still_spent
is_still_spent_facts id token t j h = ground (arith, holds-some j.lease_token token)

-- The tables after a round of the loop for the job `c`.
pub record Round (c : Job) (t : ℕ) (done : Bool) (s s' : JobStore) : Type 0 where
  pub row : find job_key c.id s'.jobs ≡ some (if done then spent_job t c else c)
  pub others : (k : ℕ) → k ≢ c.id → find job_key k s'.jobs ≡ find job_key k s.jobs
  pub no_tokens :
      (k : ℕ) → find attempt_key k s.attempts ≡ none → find attempt_key k s'.attempts ≡ none
  pub sound : Sound s'

module _ (clock : ℕ → ℕ) (c : Job) (s : JobStore) (v : Sound s)
    (here : find job_key c.id s.jobs ≡ some c) where
  abbrev set_job : Job → Job
  set_job = spent_job (clock 0)

  abbrev set_attempt : Attempt → Attempt
  set_attempt = spent_attempt (clock 1)

  module _ (token : ℕ) (held : c.lease_token ≡ some token) where
    abbrev spent : Job → Bool
    spent = is_still_spent c.id token (clock 0)

    abbrev closing : Attempt → Bool
    closing = is_open_lease c.id token

    abbrev settled : JobStore
    settled = both_written spent closing set_job set_attempt s

    spent-Targets : Targets c.id token spent closing s
    spent-Targets = record {
      job_facts = is_still_spent_facts c.id token (clock 0);
      attempt_facts = λ a h. let o = is_open_lease_facts c.id token a h in (o.1, o.0, o.2);
      attempt_found = λ j h o.
          let facts = is_still_spent_facts c.id token (clock 0) j h in
          is_open_lease_intro c.id token o.attempt (o.same_job ∙ facts.0)
            (find_key attempt_key o.held s.attempts o.attempt o.recorded
              ∙ some_inj (sym o.token_held ∙ facts.2))
            o.still_open;
    }

    returned : updated spent set_job s.jobs ≡ map set_job (only spent (some c))
    returned =
        updated-only job_key spent set_job c.id s.jobs
          (λ j h. (is_still_spent_facts c.id token (clock 0) j h).0) v.jobs_distinct
        ∙ ap (λ o. map set_job (only spent o)) here

    returned_if :
        (b : Bool)
        → spent c ≡ b
        → updated spent set_job s.jobs ≡ map set_job (if b then c ∷ [] else [])
    returned_if b m = returned ∙ ap (λ b. map set_job (if b then c ∷ [] else [])) m

    settled_other :
        (k : ℕ) (o : Option Job)
        → find job_key k s.jobs ≡ o
        → k ≢ c.id
        → Option.map (written spent set_job) o ≡ o
    settled_other k none h n = refl
    settled_other k (some j) h n = elim (Bool-cases (spent j)) [
      | inl q ↦ absurd (
          n (
            sym (find_key job_key k s.jobs j h)
            ∙ (is_still_spent_facts c.id token (clock 0) j q).0))
      | inr q ↦ rw q
    ]

    module _ (m : spent c ≡ true) where
      settled_ran : dead_letter_spent clock c s ≡ ok (true, settled)
      unfolding dead_letter_spent close_attempt
      settled_ran =
          let facts = is_still_spent_facts c.id token (clock 0) c m in
          let o : HasOpenAttempt s c = v.leases_recorded c.id c here facts.1 in
          let same : o.held ≡ token = some_inj (sym o.token_held ∙ held) in
          let attempts =
            updated-only attempt_key closing set_attempt token s.attempts
              (λ a h. (is_open_lease_facts c.id token a h).1) v.tokens_distinct
            ∙ ap (λ q. map set_attempt (only closing q))
                (ap (λ i. find attempt_key i s.attempts) (sym same) ∙ o.recorded) in
          simp (held, returned_if true m, attempts, spent-Targets.attempt_found c m o)

      settled-Round : Round c (clock 0) true s settled
      settled-Round = record {
        row =
            find-update_row job_key spent set_job c.id s.jobs c
              (spent-Ending (clock 0) (clock 1)).job_same here
            ∙ ap (λ b. some (if b then set_job c else c)) m;
        others = λ k n.
            find-update job_key spent set_job k s.jobs (spent-Ending (clock 0) (clock 1)).job_same
            ∙ settled_other k (find job_key k s.jobs) refl n;
        no_tokens = λ k h.
            find-update-none attempt_key closing set_attempt k s.attempts
              (spent-Ending (clock 0) (clock 1)).attempt_same h;
        sound =
            written-Sound c.id token spent closing set_job set_attempt s v
              (spent-Ending (clock 0) (clock 1)) spent-Targets c here m;
      }

    skipped_ran : spent c ≡ false → dead_letter_spent clock c s ≡ ok (false, s)
    unfolding dead_letter_spent
    skipped_ran m = simp (held, returned_if false m)

  skipped_Round : Round c (clock 0) false s s
  skipped_Round = record { row = here; others = λ k n. refl; no_tokens = λ k h. h; sound = v }

  -- One round does not fail, whether the lease is still spent or not.
  pub dead_letter_spent_total :
      is_leased c.state ≡ true
      → (done : Bool) × (s' : JobStore) × (dead_letter_spent clock c s ≡ ok (done, s'))
        × Round c (clock 0) done s s'
  dead_letter_spent_total l =
      let o : HasOpenAttempt s c = v.leases_recorded c.id c here l in
      elim (Bool-cases (spent o.held o.token_held c)) [
        | inl m ↦ (
          true,
          settled o.held o.token_held,
          settled_ran o.held o.token_held m,
          settled-Round o.held o.token_held m,
        )
        | inr m ↦ (false, s, skipped_ran o.held o.token_held m, skipped_Round)
      ]

-- A round leaves a row as it was, or makes it a dead letter.
Round-from :
    (c : Job) (t : ℕ) (done : Bool) (s s' : JobStore) (k : ℕ) (j : Job)
    → Round c t done s s'
    → find job_key c.id s.jobs ≡ some c
    → find job_key k s'.jobs ≡ some j
    → (find job_key k s.jobs ≡ some j) ⊎ (is_dead_letter j.state ≡ true)
unfolding dead_lettered_job
Round-from c t done s s' k j r here h = elim (Bool-cases (nat_eqb k c.id)) [
  | inr n ↦ inl (sym (r.others k (λ q. absurd (cc (n, (nat_eqb_iff k c.id).1 q)))) ∙ h)
  | inl e ↦
      let same : k ≡ c.id = (nat_eqb_iff k c.id).0 e in
      let row : (if done then spent_job t c else c) ≡ j =
        some_inj (sym r.row ∙ ap (λ i. find job_key i s'.jobs) (sym same) ∙ h) in
      let before : find job_key k s.jobs ≡ some c = ap (λ i. find job_key i s.jobs) same ∙ here in
      elim (Bool-cases done) [
        | inl q ↦ inr (rw (← row, q))
        | inr q ↦ inl (before ∙ ap some (ap (λ b. if b then spent_job t c else c) (sym q) ∙ row))
      ]
]

-- What a loop over several jobs leaves.
pub record Rounds (cs : List Job) (s s' : JobStore) : Type 0 where
  pub untouched :
      (k : ℕ) → All (λ c. job_key c ≢ k) cs → find job_key k s'.jobs ≡ find job_key k s.jobs
  pub from :
      (k : ℕ) (j : Job)
      → find job_key k s'.jobs ≡ some j
      → (find job_key k s.jobs ≡ some j) ⊎ (is_dead_letter j.state ≡ true)
  pub no_tokens :
      (k : ℕ) → find attempt_key k s.attempts ≡ none → find attempt_key k s'.attempts ≡ none
  pub sound : Sound s'

-- Nor does the whole loop.
pub dead_letter_all_spent_total :
    (clock : ℕ → ℕ) (cs : List Job) (s : JobStore)
    → Sound s
    → Distinct job_key cs
    → All (λ c. (find job_key c.id s.jobs ≡ some c) × (is_leased c.state ≡ true)) cs
    → (ids : List ℕ) × (s' : JobStore) × (dead_letter_all_spent clock cs s ≡ ok (ids, s'))
      × Rounds cs s s'
unfolding dead_letter_all_spent
dead_letter_all_spent_total clock [] s v d h = (
  [],
  s,
  refl,
  record { untouched = λ k n. refl; from = λ k j h. inl h; no_tokens = λ k h. h; sound = v },
)
dead_letter_all_spent_total clock (c ∷ cs) s v (d, ds) (h, hs) =
    let (done, s', ran, r) = dead_letter_spent_total clock c s v h.0 h.1 in
    let still =
      All-map (λ j q. (r.others j.id q.0 ∙ q.1.0, q.1.1)) cs
        (All-both (λ j. job_key j ≢ job_key c)
          (λ j. (find job_key j.id s.jobs ≡ some j) × (is_leased j.state ≡ true)) cs d hs) in
    let (ids, s'', ran', rs) = dead_letter_all_spent_total (later 2 clock) cs s' r.sound ds still in
    (
      (if done then c.id ∷ ids else ids),
      s'',
      rw (ran, ran'),
      record {
        untouched = λ k n. rs.untouched k n.1 ∙ r.others k (λ q. n.0 (sym q));
        from = λ k j q. elim (rs.from k j q) [
          | inl p ↦ Round-from c (clock 0) done s s' k j r h.0 p
          | inr p ↦ inr p
        ];
        no_tokens = λ k h. rs.no_tokens k (r.no_tokens k h);
        sound = rs.sound;
      },
    )
