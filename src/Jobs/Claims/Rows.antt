-- ===== src/Jobs/Claims/Rows.antt =====
-- The rows that a claim query locks.
use euphoria_api.Base.{
  ℕ, ◌≤◌, ◌≡◌, Bool, true, not, ◌&&◌, List, All, All-take, length, length-take-le,
}
use euphoria_api.Sql.{select, order_by, All-select, select-All, All-order_by}
use euphoria_api.Sql.Keys.{Distinct, Distinct-select, Distinct-order_by, Distinct-take}
use euphoria_api.Jobs.Schema.{Job, job_key}
use euphoria_api.Jobs.Claim.{lock_rows}

module _ (locked : ℕ → Bool) (before : Job → Job → Bool) (p : Job → Bool) (limit : ℕ)
    (jobs : List Job) where
  abbrev free : Job → Bool
  free j = p j && not (locked j.id)

  pub lock_rows-All {κ} :
      (P : Job → Type κ) → All P jobs → All P (lock_rows locked before p limit jobs)
  unfolding lock_rows
  lock_rows-All P h =
      All-take P limit (order_by before (select free jobs))
        (All-order_by P before (select free jobs) (All-select P free jobs h))

  -- Every locked row satisfies the query and is held by nobody else.
  pub lock_rows-free : All (λ j. free j ≡ true) (lock_rows locked before p limit jobs)
  unfolding lock_rows
  lock_rows-free =
      All-take _ limit (order_by before (select free jobs))
        (All-order_by _ before (select free jobs) (select-All free jobs))

  pub lock_rows-Distinct :
      Distinct job_key jobs → Distinct job_key (lock_rows locked before p limit jobs)
  unfolding lock_rows
  lock_rows-Distinct d =
      Distinct-take job_key limit (order_by before (select free jobs))
        (Distinct-order_by job_key before (select free jobs) (Distinct-select job_key free jobs d))

  pub length-lock_rows : length (lock_rows locked before p limit jobs) ≤ limit
  unfolding lock_rows
  length-lock_rows = length-take-le limit (order_by before (select free jobs))
