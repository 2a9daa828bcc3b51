-- ===== src/Scheduler/Once.antt =====
-- A minute fires a schedule once: src/hoursx/scheduler.py.
use hours_x.Prelude.{
  ℕ, List, [], ◌∷◌, Bool, true, false, ◌&&◌, not, none, some, String, ◌≡◌, ◌++◌, ◌⊎◌, All,
}
use hours_x.Scheduler.{DateTime, Schedule, fired_in, cron_matches}

-- What a tick that marked some schedules has made of them: they were submitted in order, all of them or
-- those before the first whose submission raises.
abbrev pub Fired : (String → Bool) → List String → List String × Bool → Type 0
Fired raises marked (fired, raised) =
    (left : List String) × (marked ≡ fired ++ left)
    × All (λ id. raises id ≡ false) fired
    × (((raised ≡ false) × (left ≡ []))
        ⊎ ((raised ≡ true)
            × ((id : String) × (rest : List String) × (left ≡ id ∷ rest) × (raises id ≡ true))))

module _ (isoweekday : ℕ → ℕ → ℕ → ℕ) where
  -- The schedule is due: it is enabled, its expression matches, and it has not fired in this minute.
  unfoldable pub is_due : DateTime → Schedule → Bool
  is_due now s =
      s.enabled
      && (elim (cron_matches isoweekday s.cron now) [ none ↦ false | some b ↦ b ]
          && not (fired_in s.last_fired_at now))
