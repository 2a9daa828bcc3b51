-- ===== src/Runs/Store/Recovery.antt =====
-- The recovery of runs whose worker died (src/hoursx/recovery.py).
use hours_x.Prelude.{
  ℕ, [], ◌∷◌, true, false, none, some, ◌-◌, ◌≤◌, ◌<◌, ◌≡◌, ◌⊎◌, inl, inr, refl, arith, All,
  Bool-cases, Option-cases,
}
use hours_x.Runs.Store.{
  queued, Run, Table, update_where, is_running, is_stale, requeue_orphaned_runs,
}
use hours_x.Runs.Store.RowOk.{RowOk}

-- Running, with a beat within the window.
abbrev pub Alive : ℕ → Run → Type 0
Alive cutoff r = (t : ℕ) × (r.heartbeat_at ≡ some t) × (cutoff ≤ t)

-- Running, with no beat or with the last before the window.
abbrev pub Silent : ℕ → Run → Type 0
Silent cutoff r =
    (is_running r.status ≡ true)
    × ((r.heartbeat_at ≡ none) ⊎ ((t : ℕ) × (r.heartbeat_at ≡ some t) × (t < cutoff)))

-- What recovery makes of one row.
abbrev pub Recovered : ℕ → Run → Run → Type 0
Recovered cutoff r s =
    (Silent cutoff r × (s ≡ record r { status = queued; heartbeat_at = none }))
    ⊎ (((is_running r.status ≡ false) ⊎ Alive cutoff r) × (s ≡ r))

-- Two tables with related rows in the same places.
abbrev pub Rowwise : (Run → Run → Type 0) → Table → Table → Type 0
Rowwise R [] ss = ss ≡ []
Rowwise R (r ∷ rs) ss = (s : Run) × (tail : Table) × (ss ≡ s ∷ tail) × R r s × Rowwise R rs tail

row-Silent : (cutoff : ℕ) (r : Run) → is_stale cutoff r ≡ true → Silent cutoff r
row-Silent cutoff r e = elim (Option-cases r.heartbeat_at) [
  | inl h ↦ (ground arith, inl h)
  | inr (t, h) ↦ (ground arith, inr (t, h, ground arith))
]

row-Alive :
    (cutoff : ℕ) (r : Run)
    → RowOk r
    → is_stale cutoff r ≡ false
    → (is_running r.status ≡ false) ⊎ Alive cutoff r
row-Alive cutoff r ok e = elim (Option-cases r.heartbeat_at) [
  | inl h ↦ ground arith
  | inr (t, h) ↦ elim (Bool-cases (is_running r.status)) [
    | inl st ↦ inr (t, h, ground arith)
    | inr st ↦ inl st
  ]
]

requeue-Rowwise :
    (cutoff : ℕ) (table : Table)
    → All RowOk table
    → Rowwise (Recovered cutoff) table (
        update_where
          (is_stale cutoff)
          (λ r. record r { status = queued; heartbeat_at = none })
          table)
unfolding update_where
requeue-Rowwise cutoff [] ok = refl
requeue-Rowwise cutoff (r ∷ rs) (ok, oks) = elim (Bool-cases (is_stale cutoff r)) [
  | inl e ↦ (_, _, refl, inl (row-Silent cutoff r e, rw e refl), requeue-Rowwise cutoff rs oks)
  | inr e ↦ (_, _, refl, inr (row-Alive cutoff r ok e, rw e refl), requeue-Rowwise cutoff rs oks)
]

requeue-Alive :
    (cutoff : ℕ) (table : Table)
    → All RowOk table
    → All
        (λ r. (is_running r.status ≡ false) ⊎ Alive cutoff r)
        (update_where
          (is_stale cutoff)
          (λ r. record r { status = queued; heartbeat_at = none })
          table)
unfolding update_where
requeue-Alive cutoff [] h = tt
requeue-Alive cutoff (r ∷ rs) h = elim (Bool-cases (is_stale cutoff r)) [
  | inl e ↦ rw e (inl refl, requeue-Alive cutoff rs h.1)
  | inr e ↦ rw e (row-Alive cutoff r h.0 e, requeue-Alive cutoff rs h.1)
]

-- In a table of well-formed rows, recovery queues the running rows that have no beat or whose last is
-- before the window, leaves every row as it is that is not running or has a beat within the window, and then every running row has a beat within the window:
-- no run is left to a worker that has gone silent.
pub requeue_complete :
    (now stale_after : ℕ) (table : Table)
    → All RowOk table
    → Rowwise (Recovered (now - stale_after)) table (requeue_orphaned_runs now stale_after table)
      × All
          (λ r. (is_running r.status ≡ false) ⊎ Alive (now - stale_after) r)
          (requeue_orphaned_runs now stale_after table)
unfolding requeue_orphaned_runs
requeue_complete now stale_after table h =
    (requeue-Rowwise (now - stale_after) table h, requeue-Alive (now - stale_after) table h)
