-- ===== src/Ops.antt =====
-- src/hoursx/system/ops.py and the sysctl access of src/hoursx/system/probe.py: host mutations
-- behind the privilege envelope. The files under /proc/sys, the `kill` and `systemctl` calls and the
-- helper daemon are the `Host` that the operations take. Summaries are left out.
pub mod Envelope
use hours_x.Prelude.{
  ℕ, List, [], ◌∷◌, Bool, true, false, ◌&&◌, ◌||◌, not, Option, none, some, String, ltb, ◌==◌,
  str_eq, if◌then◌else◌,
}
use hours_x.Prelude.Int.{ℤ}
use hours_x.Prelude.Text.{
  is_one_of, between, strip, count, all_chars, drop_final_newline, split_at, contains_text,
}
use hours_x.Privileges.{
  OperationClass, read, mutate, refused, SystemPolicy, classify_signal, classify_service,
  classify_sysctl_write,
}

-- The components of a path below /proc/sys.
abbrev pub SysctlPath : Type 0
SysctlPath = List String

pub data WriteOutcome : Type 0 where
  written permission_error os_error : WriteOutcome

-- `PermissionError` is an `OSError` too.
pub data KillOutcome : Type 0 where
  signalled no_process not_permitted other_os_error : KillOutcome

-- How `systemctl` ended; `not_found` is the `FileNotFoundError` of starting the process.
pub data CommandOutcome : Type 0 where
  exited : ℕ → String → CommandOutcome
  timed_out not_found : CommandOutcome

-- A reply of the helper daemon; without one the client raises `HelperUnavailableError`.
pub data HelperReply : Type 0 where
  replied : Bool → String → HelperReply
  unavailable : HelperReply

pub record Host : Type 1 where
  pub State : Type 0
  pub read_text : State → SysctlPath → Option String
  pub exists : State → SysctlPath → Bool
  pub write_text : State → SysctlPath → String → WriteOutcome × State
  pub kill : State → ℤ → ℤ → KillOutcome × State
  pub systemctl : State → String → String → CommandOutcome × State
  pub helper_sysctl_set : State → String → String → HelperReply × State
  pub helper_signal : State → ℤ → ℤ → HelperReply × State
  pub helper_service : State → String → String → HelperReply × State
  pub platform_signals : List ℤ
  pub own_pid : ℤ

-- `OpResult` with the field of `detail` that other code reads.
pub record OpResult : Type 0 where
  pub ok : Bool
  pub output : String

-- A returned value, an `UnsafeOperationError`, or any other exception.
pub data Outcome {ℓ} (A : Type ℓ) : Type ℓ where
  done : A → Outcome A
  unsafe : Outcome A
  crashed : Outcome A

-- [a-z0-9_.\-] without regard to case, which in Python takes in four more letters.
is_key_char : ℕ → Bool
is_key_char c =
    between b'a' b'z' c
    || between b'A' b'Z' c
    || between b'0' b'9' c
    || c == b'_'
    || c == b'.'
    || c == b'-'
    || c == 0x130
    || c == 0x131
    || c == 0x17f
    || c == 0x212a

matches_sysctl_key : String → Bool
unfolding is_key_char
matches_sysctl_key key =
    let body = drop_final_newline key in ltb 0 (count body) && all_chars is_key_char body

-- `Path` drops the empty components.
drop_empty : List String → SysctlPath
drop_empty [] = []
drop_empty (part ∷ parts) = if str_eq part "" then drop_empty parts else part ∷ drop_empty parts

-- `none` is the `ValueError`.
unfoldable pub sysctl_path : String → Option SysctlPath
unfolding matches_sysctl_key drop_empty
sysctl_path key =
    if not (matches_sysctl_key key) || contains_text ".." key
    then none
    else some (drop_empty (split_at b'.' key))

abbrev or_none : String → Option String
or_none s = if str_eq s "" then none else some s

module _ (host : Host) where
  open host use {State}

  read_at : State → Option SysctlPath → Option String
  read_at h none = none
  read_at h (some path) = elim (host.read_text h path) [
    | none ↦ none
    | some content ↦ or_none (strip content)
  ]

  unfoldable pub read_sysctl : State → String → Option String
  unfolding read_at
  read_sysctl h key = read_at h (sysctl_path key)

  abbrev op : Bool → Outcome OpResult
  op ok = done (record { ok = ok; output = "" })

  abbrev from_helper : HelperReply × State → Outcome OpResult × State
  from_helper (replied ok payload, h) = (done (record { ok = ok; output = payload }), h)
  from_helper (unavailable, h) = (crashed, h)

  after_write : WriteOutcome × State → Outcome OpResult × State
  after_write (written, h) = (op true, h)
  after_write (permission_error, h) = (op false, h)
  after_write (os_error, h) = (op false, h)

  write_at : State → Option SysctlPath → String → Outcome OpResult × State
  unfolding after_write
  write_at h none value = (unsafe, h)
  write_at h (some path) value =
      if host.exists h path then after_write (host.write_text h path value) else (op false, h)

  is_refusal : OperationClass → Bool
  is_refusal refused = true
  is_refusal _ = false

  unfoldable pub write_sysctl : SystemPolicy → State → String → String → Outcome OpResult × State
  unfolding write_at is_refusal
  write_sysctl policy h key value =
      if not policy.enabled
      then (unsafe, h)
      else if not policy.allow_mutations
      then (unsafe, h)
      else if is_refusal (classify_sysctl_write policy key)
      then (unsafe, h)
      else if str_eq policy.backend "helper"
      then from_helper (host.helper_sysctl_set h key value)
      else write_at h (sysctl_path key) value

  -- `except (ProcessLookupError, OSError)` also takes the permission error.
  after_kill : KillOutcome × State → Outcome OpResult × State
  after_kill (signalled, h) = (op true, h)
  after_kill (_, h) = (op false, h)

  unfoldable pub send_signal : SystemPolicy → State → ℤ → ℤ → Outcome OpResult × State
  unfolding after_kill is_refusal
  send_signal policy h pid signal_number =
      if not policy.enabled
      then (unsafe, h)
      else if not policy.allow_mutations
      then (unsafe, h)
      else if is_refusal (classify_signal host.platform_signals pid signal_number host.own_pid)
      then (unsafe, h)
      else if str_eq policy.backend "helper"
      then from_helper (host.helper_signal h pid signal_number)
      else after_kill (host.kill h pid signal_number)

  -- The process is started outside the `try`, so a missing `systemctl` is not caught.
  after_systemctl : String → CommandOutcome × State → Outcome OpResult × State
  after_systemctl action (exited code output, h) = (
    done (record {
      ok = code == 0 || is_one_of action ("is-active" ∷ "is-enabled" ∷ []);
      output = output;
    }),
    h,
  )
  after_systemctl action (timed_out, h) = (op false, h)
  after_systemctl action (not_found, h) = (crashed, h)

  run_service : SystemPolicy → State → String → String → Outcome OpResult × State
  unfolding after_systemctl
  run_service policy h unit action =
      if str_eq policy.backend "helper"
      then from_helper (host.helper_service h unit action)
      else after_systemctl action (host.systemctl h unit action)

  unfoldable pub manage_service : SystemPolicy → State → String → String → Outcome OpResult × State
  unfolding run_service
  manage_service policy h unit action =
      if not policy.enabled then (unsafe, h) else elim (classify_service unit action) [
        | refused ↦ (unsafe, h)
        | read ↦ run_service policy h unit action
        | mutate ↦ if policy.allow_mutations then run_service policy h unit action else (unsafe, h)
      ]

  -- Always refuses.
  unfoldable pub load_kernel_module : State → Outcome OpResult × State
  load_kernel_module h = (unsafe, h)

  unfoldable pub unload_kernel_module : State → Outcome OpResult × State
  unload_kernel_module h = (unsafe, h)
