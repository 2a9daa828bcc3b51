-- ===== src/Remediation/Tests.antt =====
-- Guarded changes (src/hoursx/remediation) on a small host: one kernel parameter, kept as text.
use hours_x.Prelude.{
  ℕ, List, [], ◌∷◌, Bool, true, false, Option, none, some, String, ◌≡◌, ◌≢◌, refl, ap, sym, ◌⊎◌,
  inl, arith, eq_iff, if◌then◌else◌, str_eq, ltb, leb, ◌==◌, All,
}
use hours_x.Prelude.Int.{pos}
use hours_x.Prelude.Text.{
  is_one_of, starts_with_any, strip, count, all_chars, drop_final_newline, split_at, contains_text,
}
use hours_x.Privileges.{SystemPolicy, classify_sysctl, classify_sysctl_write}
use hours_x.Ops.{
  Host, Outcome, done, unsafe, exited, replied, written, signalled, read_sysctl, write_sysctl,
  sysctl_path, WriteOutcome,
}
use hours_x.Ops.Envelope.{sysctl_write, perform, Permitted, perform_envelope, KeepsWrites}
use hours_x.Remediation.Conditions.{
  Floats, Probes, Condition, ConditionResult, number, text, sysctl_value, eq, observe,
  compare_values, loosely_equal, as_number, as_bool, evaluate_conditions, all_met, needs_target,
  observed,
}
use hours_x.Remediation.Conditions.FailSafe.{Confirmed, all_met_iff}
use hours_x.Remediation.Ledger.{
  sysctl, applied, verified, reverted, World, find_change, update_change, record_change, new_record,
  is_revertible, expiry, revert_change, apply_inverse, revert_expired_changes, revert_each, due,
  is_due, ok_of,
}
use hours_x.Remediation.Ledger.Invariant.{LedgerOk}
use hours_x.Remediation.Guard.{
  GuardOutcome, Call, read_conditions, recorded, after_settling, apply_guarded, read_prior_state,
  apply_change, verify_change, clamp_window,
}
use hours_x.Remediation.Guard.Status.{Agrees, apply_guarded-Agrees}
use hours_x.Remediation.Guard.Restore.{
  apply_guarded_restores, apply_guarded_verified, ObservedFrom, settled_world,
}
use hours_x.Remediation.History.{guard, sweep, perform_all, perform_all-LedgerOk}

-- Small numbers stand for the floats: the texts "10" and "60" are all that occurs.
abbrev floats : Floats
floats = record {
  Float = ℕ;
  float_lt = λ a b. ltb a b;
  float_le = λ a b. leb a b;
  float_eq = λ a b. a == b;
  parse = λ s. if str_eq s "10" then some 10 else if str_eq s "60" then some 60 else none;
  show = λ n. if n == 10 then "10" else "60";
  lower = λ s. s;
}

-- The state of the host is the text of vm.swappiness.
abbrev host : Host
host = record {
  State = String;
  read_text = λ h path. some h;
  exists = λ h path. true;
  write_text = λ h path value. (written, value);
  kill = λ h pid number. (signalled, h);
  systemctl = λ h unit action. (exited 0 "active", h);
  helper_sysctl_set = λ h key value. (replied true "", value);
  helper_signal = λ h pid number. (replied true "", h);
  helper_service = λ h unit action. (replied true "", h);
  platform_signals = [];
  own_pid = pos 4242;
}

abbrev probes : String → Probes floats
probes h = record {
  sysctl = λ key. some h;
  listening = λ target. observed false;
  running = λ target. observed false;
  is_active = λ target. observed false;
  memory_used = none;
  load_average = none;
  processes = 10;
  open_files = none;
  disks = [];
}

abbrev still : ℕ → World host → World host
still seconds w = w

abbrev policy : SystemPolicy
policy = record {
  enabled = true;
  allow_mutations = true;
  extra_sysctl_allowlist = [];
  backend = "direct";
}

abbrev expects : ℕ → Condition floats
expects n = record {
  probe = sysctl_value;
  operator = eq;
  value = number n;
  target = "vm.swappiness";
}

not_empty : ◌≢◌ {A = String} "60" ""
not_empty = ground (arith, eq_iff "60" "")

-- Sets vm.swappiness to 10 and expects to see `n`.
abbrev call : ℕ → Call floats
call n = record {
  policy = policy;
  change = record {
    id = "c1";
    workspace_id = "w";
    run_id = none;
    kind = sysctl;
    target = "vm.swappiness";
    new_value = "10";
  };
  conditions = expects n ∷ [];
  settle_seconds = 2;
  revert_after_seconds = some 300;
  now = 1000;
}

abbrev start : World host
start = record { at = "60"; ledger = [] }

keeps : KeepsWrites host "60"
unfolding strip
keeps h h' path e = ("60", ap some (sym (ap (λ (x : WriteOutcome × String). x.1) e)), refl)

-- The line opens all that a run needs.
after : ℕ → Outcome (GuardOutcome floats) × World host
unfolding apply_guarded read_prior_state apply_change verify_change clamp_window read_sysctl
    write_sysctl sysctl_path strip count all_chars drop_final_newline split_at contains_text
    is_one_of starts_with_any classify_sysctl classify_sysctl_write evaluate_conditions all_met
    observe needs_target compare_values loosely_equal as_number as_bool find_change update_change
    read_conditions recorded after_settling record_change new_record is_revertible expiry
    revert_change apply_inverse ok_of
after n = apply_guarded floats host probes still (call n) start

abbrev sees_10 : ℕ → Bool → ConditionResult floats
sees_10 n met = record { condition = expects n; met = met; observed_value = some (text "10") }

abbrev missed : GuardOutcome floats
missed = record { ok = false; change_id = "c1"; status = reverted; results = sees_10 60 false ∷ [] }

abbrev held : GuardOutcome floats
held = record { ok = true; change_id = "c1"; status = verified; results = sees_10 10 true ∷ [] }

guard_misses : ((after 60).0 ≡ done missed) × ((after 60).1.at ≡ "60")
unfolding after
guard_misses = (refl, refl)

guard_holds : ((after 10).0 ≡ done held) × ((after 10).1.at ≡ "10")
unfolding after
guard_holds = (refl, refl)

perform_envelope_example :
    (perform host policy "60" (sysctl_write "kernel.sysrq" "1") ≡ (unsafe, "60"))
    ⊎ Permitted host policy (sysctl_write "kernel.sysrq" "1")
perform_envelope_example = perform_envelope host policy "60" (sysctl_write "kernel.sysrq" "1")

all_met_iff_example : All (Confirmed floats (probes "10")) (expects 10 ∷ [])
unfolding after
all_met_iff_example = (all_met_iff floats (probes "10") (expects 10 ∷ [])).0 refl

apply_guarded_restores_example :
    read_sysctl host (apply_guarded floats host probes still (call 60) start).1.at "vm.swappiness"
    ≡ some "60"
unfolding after
apply_guarded_restores_example =
    apply_guarded_restores floats host probes still (call 60) "60" refl refl keeps not_empty
      (λ s w. refl) start missed refl refl refl refl refl

apply_guarded_verified_example :
    (held.ok ≡ true)
    × ObservedFrom floats host probes still
        (settled_world floats host probes still (call 10) start)
        (expects 10 ∷ [])
unfolding after
apply_guarded_verified_example =
    apply_guarded_verified floats host probes still (call 10) start held refl refl

apply_guarded-Agrees_example :
    Agrees floats host probes still "c1" (apply_guarded floats host probes still (call 60) start)
unfolding after
apply_guarded-Agrees_example =
    apply_guarded-Agrees floats host probes still (call 60) start (inl refl) (λ s w. refl) refl

perform_all-LedgerOk_example :
    LedgerOk
      (perform_all floats host probes still
        (λ s w l. l)
        start
        (guard (call 60) ∷ sweep policy 5000 ∷ [])).ledger
perform_all-LedgerOk_example =
    perform_all-LedgerOk floats host probes still (λ s w l. l) start
      (guard (call 60) ∷ sweep policy 5000 ∷ []) tt

-- One change whose window ended at 1300.
abbrev armed : World host
armed = record {
  at = "10";
  ledger =
      record {
        id = "c1";
        workspace_id = "w";
        run_id = none;
        kind = sysctl;
        target = "vm.swappiness";
        previous_value = some "60";
        new_value = "10";
        revertible = true;
        status = applied;
        expires_at = some 1300;
        settled_at = none;
      }
      ∷ [];
}

-- The sweep opens with the run.
swept : Option (List String) × World host
unfolding after revert_expired_changes revert_each due is_due
swept = revert_expired_changes host policy 1301 armed

sweep_reverts : (swept.0 ≡ some ("c1" ∷ [])) × (swept.1.at ≡ "60")
unfolding swept
sweep_reverts = (refl, refl)
