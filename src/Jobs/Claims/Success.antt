-- ===== src/Jobs/Claims/Success.antt =====
-- A claim of a row of sound tables succeeds, whatever the state of its former lease.
use euphoria_api.Base.{
  ℕ, ◌+◌, ◌≡◌, refl, fun_ext, sym, ◌∙◌, ap, Bool, true, false, ◌&&◌, inl, inr, List, [], ◌∷◌, map,
  none, some, Text, ok, arith, All, some_inj, Bool-cases, nat_eqb, nat_eqb_iff, if◌then◌else◌, ◌==◌,
  nat_eq,
}
use euphoria_api.Sql.{
  update, updated, select-All_none, All-update_cases, update-All_none, All-always,
}
use euphoria_api.Sql.Keys.{find, only, find_key, find-update-none, All-find}
use euphoria_api.Jobs.Schema.{
  Job, Attempt, JobStore, job_key, attempt_key, is_leased, is_open_lease, close_attempt,
}
use euphoria_api.Jobs.Claim.{claim_job, claimed_job, expired_attempt, record_attempt, reclaim}
use euphoria_api.Jobs.Leases.{updated-only}
use euphoria_api.Jobs.Sound.{Sound, HasOpenAttempt, HasJob}
use euphoria_api.Jobs.Claims.Step.{
  reclaiming, claimed_store, is_open_lease_facts, is_open_lease_intro,
}

reclaiming_leased :
    (c : Job) (held : ℕ) (a : Attempt)
    → is_leased c.state ≡ true
    → c.lease_token ≡ some held
    → is_open_lease c.id held a ≡ reclaiming c a
reclaiming_leased c held a l h = ground arith

module _ (r : ℕ) (c : Job) (s : JobStore) (v : Sound s)
    (here : find job_key c.id s.jobs ≡ some c) where
  reclaim_leased :
      (o : HasOpenAttempt s c)
      → is_leased c.state ≡ true
      → reclaim r c s
        ≡ ok (record s { attempts = update (reclaiming c) (expired_attempt r) s.attempts })
  unfolding reclaim close_attempt
  reclaim_leased o l =
      let row =
        updated-only attempt_key (is_open_lease c.id o.held) (expired_attempt r) o.held s.attempts
          (λ a h. (is_open_lease_facts c.id o.held a h).1) v.tokens_distinct in
      let open_row : is_open_lease c.id o.held o.attempt ≡ true =
        is_open_lease_intro c.id o.held o.attempt o.same_job
          (find_key attempt_key o.held s.attempts o.attempt o.recorded) o.still_open in
      simp (l, o.token_held, row, o.recorded, open_row)
        (ap (λ p. ok (record s { attempts = update p (expired_attempt r) s.attempts }))
          (fun_ext (λ a. reclaiming_leased c o.held a l o.token_held)))

  reclaim_lem :
      reclaim r c s
      ≡ ok (record s { attempts = update (reclaiming c) (expired_attempt r) s.attempts })
  unfolding reclaim
  reclaim_lem = elim (Bool-cases (is_leased c.state)) [
    | inl l ↦ reclaim_leased (v.leases_recorded c.id c here l) l
    | inr n ↦
        let same : update (reclaiming c) (expired_attempt r) s.attempts ≡ s.attempts =
          update-All_none (reclaiming c) (expired_attempt r) s.attempts
            (All-always _ s.attempts (λ a. rw n)) in
        rw (n, same)
  ]

module _ (clock : ℕ → ℕ) (owner : Text) (token duration : ℕ) (c : Job) (s : JobStore) (v : Sound s)
    (here : find job_key c.id s.jobs ≡ some c)
    (fresh : find attempt_key token s.attempts ≡ none) where
  abbrev this : Job → Bool
  this j = j.id == c.id

  abbrev kept : List Attempt
  kept = update (reclaiming c) (expired_attempt (clock 0)) s.attempts

  abbrev numbered : Attempt → Bool
  numbered a = a.job_id == c.id && a.attempt_number == (c.attempt_count + 1)

  -- No attempt of the job has the next number yet.
  unnumbered : (a : Attempt) → find attempt_key a.token s.attempts ≡ some a → numbered a ≡ false
  unnumbered a h =
      let o : HasJob s a = v.attempts_owned a.token a h in
      elim (Bool-cases (nat_eqb a.job_id c.id)) [
        | inr n ↦ rw n
        | inl e ↦
            let same : o.job ≡ c =
              some_inj
                (sym o.recorded ∙ ap (λ i. find job_key i s.jobs) ((nat_eqb_iff _ _).0 e) ∙ here) in
            ground (arith, o.number_bounded, ap (λ (j : Job). j.attempt_count) same)
      ]

  unnumbered_kept : All (λ a. numbered a ≡ false) kept
  unfolding expired_attempt
  unnumbered_kept =
      All-update_cases (λ a. find attempt_key a.token s.attempts ≡ some a) (λ a. numbered a ≡ false)
        (reclaiming c) (expired_attempt (clock 0)) s.attempts (λ a h _. unnumbered a h)
        (λ a h _. unnumbered a h) (All-find attempt_key s.attempts v.tokens_distinct)

  returned :
      updated this (claimed_job (clock 1) owner token duration) s.jobs
      ≡ claimed_job (clock 1) owner token duration c ∷ []
  returned =
      updated-only job_key this (claimed_job (clock 1) owner token duration) c.id s.jobs
        (λ j h. (nat_eqb_iff _ _).0 h) v.jobs_distinct
      ∙ ap (λ o. map (claimed_job (clock 1) owner token duration) (only this o)) here
      ∙ ap (λ b. map (claimed_job (clock 1) owner token duration) (if b then c ∷ [] else []))
          ((nat_eqb_iff c.id c.id).1 refl)

  -- The claim goes through: the job gets the lease, and the attempt is recorded.
  pub claim_job_lem :
      claim_job clock owner token duration c s
      ≡ ok (
        claimed_job (clock 1) owner token duration c,
        claimed_store (clock 0) (clock 1) owner token duration c s v here fresh,
      )
  unfolding claim_job record_attempt claimed_job
  claim_job_lem =
      let gone =
        find-update-none attempt_key (reclaiming c) (expired_attempt (clock 0)) token s.attempts
          (λ a. unfold expired_attempt in refl) fresh in
      rw (reclaim_lem (clock 0) c s v here)
        (rw returned (rw (gone, select-All_none numbered kept unnumbered_kept)))
