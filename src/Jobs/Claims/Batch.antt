-- ===== src/Jobs/Claims/Batch.antt =====
-- The loop over the claimed jobs.
use euphoria_api.Base.{
  suc, ℕ, ◌+◌, ◌<◌, ◌≡◌, refl, sym, ◌∙◌, ap, ◌≢◌, true, ◌||◌, List, [], ◌∷◌, none, some, Text, ok,
  arith, All, All-map, All-both, length,
}
use euphoria_api.Sql.Keys.{Distinct, find}
use euphoria_api.Jobs.Schema.{Job, JobStore, job_key, attempt_key, is_leased, is_pending}
use euphoria_api.Jobs.Claim.{claim_all, claimed_job, later}
use euphoria_api.Jobs.Sound.{Sound}
use euphoria_api.Jobs.Claims.Step.{
  claimed_store, claimed-Sound, claim_stored, claimed_others, claimed_no_token,
}
use euphoria_api.Jobs.Claims.Success.{claim_job_lem}

-- randomUUID() never repeats itself, nor a token that is on record.
pub record FreshTokens (uuid : ℕ → ℕ) (s : JobStore) : Type 0 where
  pub unused : (i : ℕ) → find attempt_key (uuid i) s.attempts ≡ none
  pub distinct : (i k : ℕ) → uuid i ≡ uuid k → i ≡ k

-- The rows that the loop returns.
abbrev pub claimed_rows : (clock uuid : ℕ → ℕ) → Text → ℕ → List Job → List Job
claimed_rows clock uuid owner duration [] = []
claimed_rows clock uuid owner duration (c ∷ cs) =
    claimed_job (clock 1) owner (uuid 0) duration c
    ∷ claimed_rows (later 2 clock) (later 1 uuid) owner duration cs

abbrev pub IsClaimable : Job → Type 0
IsClaimable c =
    ((is_pending c.state || is_leased c.state) ≡ true) × (c.attempt_count < c.max_attempts)

pub record Claimed (cs rows : List Job) (s s' : JobStore) : Type 0 where
  pub stored : All (λ j. find job_key j.id s'.jobs ≡ some j) rows
  pub untouched :
      (k : ℕ) → All (λ c. job_key c ≢ k) cs → find job_key k s'.jobs ≡ find job_key k s.jobs
  pub sound : Sound s'

module _ (owner : Text) (duration : ℕ) (positive : 0 < duration) where
  -- It claims every row that it is given, in turn.
  pub claim_all_total :
      (clock uuid : ℕ → ℕ) (cs : List Job) (s : JobStore)
      → Sound s
      → FreshTokens uuid s
      → Distinct job_key cs
      → All (λ c. (find job_key c.id s.jobs ≡ some c) × IsClaimable c) cs
      → (s' : JobStore) × (claim_all clock uuid owner duration cs s
          ≡ ok (claimed_rows clock uuid owner duration cs, s'))
        × Claimed cs (claimed_rows clock uuid owner duration cs) s s'
  unfolding claim_all
  claim_all_total clock uuid [] s v fresh d h =
      (s, refl, record { stored = tt; untouched = λ k n. refl; sound = v })
  claim_all_total clock uuid (c ∷ cs) s v fresh (d, ds) (h, hs) =
      let token = uuid 0 in
      let unused = fresh.unused 0 in
      let s' = claimed_store (clock 0) (clock 1) owner token duration c s v h.0 unused in
      let sound : Sound s' =
        claimed-Sound (clock 0) (clock 1) owner token duration c s v h.0 unused h.1.0 h.1.1
          positive in
      let others = claimed_others (clock 0) (clock 1) owner token duration c s v h.0 unused in
      let later_fresh : FreshTokens (later 1 uuid) s' = record {
        unused = λ i.
            claimed_no_token (clock 0) (clock 1) owner token duration c s v h.0 unused
              (uuid (1 + i)) (λ q. absurd (omega (arith, fresh.distinct (1 + i) 0 q)))
              (fresh.unused (1 + i));
        distinct = λ i k q. omega (arith, fresh.distinct (1 + i) (1 + k) q);
      } in
      let still =
        All-map (λ j q. (others j.id q.0 ∙ q.1.0, q.1.1)) cs
          (All-both (λ j. job_key j ≢ job_key c)
            (λ j. (find job_key j.id s.jobs ≡ some j) × IsClaimable j) cs d hs) in
      let (s'', ran, r) =
        claim_all_total (later 2 clock) (later 1 uuid) cs s' sound later_fresh ds still in
      (
        s'',
        rw (claim_job_lem clock owner token duration c s v h.0 unused, ran),
        record {
          stored = (
            r.untouched c.id d
                ∙ claim_stored (clock 0) (clock 1) owner token duration c s v h.0 unused,
            r.stored,
          );
          untouched = λ k n. r.untouched k n.1 ∙ others k (λ q. n.0 (sym q));
          sound = r.sound;
        },
      )

-- What holds of every claimed row, by what held of the row before.
pub claimed_rows-All {κ κ'} :
    (P : Job → Type κ) (Q : Job → Type κ') (clock uuid : ℕ → ℕ) (owner : Text) (duration : ℕ)
    (cs : List Job)
    → ((t i : ℕ) (c : Job) → P c → Q (claimed_job t owner (uuid i) duration c))
    → All P cs
    → All Q (claimed_rows clock uuid owner duration cs)
claimed_rows-All P Q clock uuid owner duration [] f h = tt
claimed_rows-All P Q clock uuid owner duration (c ∷ cs) f (h, hs) = (
  f (clock 1) 0 c h,
  claimed_rows-All P Q (later 2 clock) (later 1 uuid) owner duration cs (λ t i. f t (1 + i)) hs,
)

pub length-claimed_rows :
    (clock uuid : ℕ → ℕ) (owner : Text) (duration : ℕ) (cs : List Job)
    → length (claimed_rows clock uuid owner duration cs) ≡ length cs
length-claimed_rows clock uuid owner duration [] = refl
length-claimed_rows clock uuid owner duration (c ∷ cs) =
    ap suc (length-claimed_rows (later 2 clock) (later 1 uuid) owner duration cs)

pub claimed_rows-Distinct :
    (clock uuid : ℕ → ℕ) (owner : Text) (duration : ℕ) (cs : List Job)
    → Distinct job_key cs
    → Distinct job_key (claimed_rows clock uuid owner duration cs)
unfolding claimed_job
claimed_rows-Distinct clock uuid owner duration [] d = tt
claimed_rows-Distinct clock uuid owner duration (c ∷ cs) (d, ds) = (
  claimed_rows-All (λ j. job_key j ≢ job_key c) (λ j. job_key j ≢ job_key c) (later 2 clock)
      (later 1 uuid) owner duration cs (λ t i j n. n) d,
  claimed_rows-Distinct (later 2 clock) (later 1 uuid) owner duration cs ds,
)
