-- ===== src/Remediation/Conditions/FailSafe.antt =====
-- Post-conditions of src/hoursx/remediation/conditions.py fail safe.
use hours_x.Prelude.{List, [], ◌∷◌, Bool, true, false, ◌&&◌, ◌≡◌, ◌↔◌, refl, arith, All}
use hours_x.Remediation.Conditions.{
  Floats, Condition, Probes, Value, Reading, observed, unobservable, fault, observe, compare_values,
  judge, met_of, evaluate_conditions, all_met,
}

module _ (floats : Floats) where
  -- The probe could be read, and the comparison was possible and came out true.
  abbrev pub Confirmed : Probes floats → Condition floats → Type 0
  Confirmed p c =
      (v : Value floats) × (observe floats p c ≡ observed v)
      × (compare_values floats v c.operator c.value ≡ observed true)

  met_of-true : (x : Reading Bool) → met_of floats x ≡ true → x ≡ observed true
  unfolding met_of
  met_of-true (observed true) h = refl
  met_of-true (observed false) h = cc
  met_of-true unobservable h = cc
  met_of-true fault h = cc

  judge_met :
      (c : Condition floats) (r : Reading (Value floats))
      → (judge floats c r).met ≡ true
      → (v : Value floats) × (r ≡ observed v)
        × (compare_values floats v c.operator c.value ≡ observed true)
  unfolding judge
  judge_met c (observed v) h = (v, refl, met_of-true _ h)
  judge_met c unobservable h = cc
  judge_met c fault h = cc

  judge-Confirmed :
      (p : Probes floats) (c : Condition floats)
      → Confirmed p c
      → (judge floats c (observe floats p c)).met ≡ true
  unfolding judge met_of
  judge-Confirmed p c (v, o, h) = rw (o, judge) (rw h refl)

  and_both : (a b : Bool) → (a && b) ≡ true → (a ≡ true) × (b ≡ true)
  and_both a b h = ground arith

  and_true : (a b : Bool) → a ≡ true → b ≡ true → (a && b) ≡ true
  and_true a b h k = ground arith

  -- A sweep is met exactly when every condition was observed and its comparison came out true: a
  -- probe that cannot be read, one that faults and a comparison that makes no sense all count against
  -- the change.
  pub all_met_iff :
      (p : Probes floats) (cs : List (Condition floats))
      → (all_met floats (evaluate_conditions floats p cs) ≡ true) ↔ All (Confirmed p) cs
  unfolding evaluate_conditions all_met
  all_met_iff p [] = (λ _. tt, λ _. refl)
  all_met_iff p (c ∷ cs) =
      let verdict = judge floats c (observe floats p c) in
      let rest = all_met floats (evaluate_conditions floats p cs) in
      (
        λ h.
            let (here, later) = and_both verdict.met rest h in
            (judge_met c (observe floats p c) here, (all_met_iff p cs).0 later),
        λ h. and_true verdict.met rest (judge-Confirmed p c h.0) ((all_met_iff p cs).1 h.1),
      )
