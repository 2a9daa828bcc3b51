-- ===== src/Ops/Envelope.antt =====
-- The privilege envelope around the host operations of src/hoursx/system/ops.py.
use hours_x.Prelude.{
  true, false, Option, none, some, String, ◌≡◌, ◌≢◌, refl, arith, str_eq, eq_iff, Bool-cases, ◌⊎◌,
  inl, inr,
}
use hours_x.Prelude.Int.{ℤ}
use hours_x.Prelude.Text.{strip}
use hours_x.Privileges.{
  OperationClass, read, mutate, refused, SystemPolicy, classify_signal, classify_service,
  classify_sysctl_write,
}
use hours_x.Ops.{
  Host, OpResult, Outcome, done, unsafe, write_sysctl, send_signal, manage_service,
  load_kernel_module, unload_kernel_module, written, permission_error, os_error, SysctlPath,
  read_sysctl, sysctl_path, WriteOutcome, after_write, write_at, read_at,
}

-- One of the host operations, as a tool asks for it.
pub data Request : Type 0 where
  sysctl_write : String → String → Request
  signal : ℤ → ℤ → Request
  service : String → String → Request
  load_module unload_module : Request

module _ (host : Host) where
  open host use {State}

  unfoldable pub perform : SystemPolicy → State → Request → Outcome OpResult × State
  perform policy h (sysctl_write key value) = write_sysctl host policy h key value
  perform policy h (signal pid number) = send_signal host policy h pid number
  perform policy h (service unit action) = manage_service host policy h unit action
  perform policy h load_module = load_kernel_module host h
  perform policy h unload_module = unload_kernel_module host h

  unfoldable pub class_of : SystemPolicy → Request → OperationClass
  class_of policy (sysctl_write key value) = classify_sysctl_write policy key
  class_of policy (signal pid number) =
      classify_signal host.platform_signals pid number host.own_pid
  class_of policy (service unit action) = classify_service unit action
  class_of policy load_module = refused
  class_of policy unload_module = refused

  -- The operator has switched the toolset on, has allowed changes if this is one, and the request
  -- is not refused.
  abbrev pub Permitted : SystemPolicy → Request → Type 0
  Permitted policy r =
      (policy.enabled ≡ true)
      × (((class_of policy r ≡ mutate) × (policy.allow_mutations ≡ true))
          ⊎ (class_of policy r ≡ read))

  -- Every request that the policy does not permit raises `UnsafeOperationError` and leaves the host
  -- exactly as it was; whatever gets past it was permitted.
  pub perform_envelope :
      (policy : SystemPolicy) (h : State) (r : Request)
      → (perform policy h r ≡ (unsafe, h)) ⊎ Permitted policy r
  unfolding perform class_of write_sysctl send_signal manage_service load_kernel_module
      unload_kernel_module
  perform_envelope policy h (sysctl_write key value) = ground arith
  perform_envelope policy h (signal pid number) = ground arith
  perform_envelope policy h (service unit action) = ground arith
  perform_envelope policy h load_module = inl refl
  perform_envelope policy h unload_module = inl refl

  -- The files under /proc/sys keep what is written to them, up to white space at the ends.
  abbrev pub KeepsWrites : String → Type 0
  KeepsWrites value =
      (h h' : State) (path : SysctlPath)
      → host.write_text h path value ≡ (written, h')
      → (content : String) × (host.read_text h' path ≡ some content) × (strip content ≡ value)

  after_write_stores :
      (h h' : State) (path : SysctlPath) (value : String) (w : WriteOutcome) (r : OpResult)
      → KeepsWrites value
      → value ≢ ""
      → host.write_text h path value ≡ (w, h')
      → (after_write host (w, h')).0 ≡ done r
      → r.ok ≡ true
      → read_at host (after_write host (w, h')).1 (some path) ≡ some value
  unfolding after_write read_at
  after_write_stores h h' path value written r keeps text e d ok =
      let (content, at, clean) = keeps h h' path e in
      rw (at, read_at) (rw clean (ground (arith, eq_iff value "")))
  after_write_stores h h' path value permission_error r keeps text e d ok = ground arith
  after_write_stores h h' path value os_error r keeps text e d ok = ground arith

  write_at_stores :
      (h : State) (place : Option SysctlPath) (value : String) (r : OpResult)
      → KeepsWrites value
      → value ≢ ""
      → (write_at host h place value).0 ≡ done r
      → r.ok ≡ true
      → read_at host (write_at host h place value).1 place ≡ some value
  unfolding write_at
  write_at_stores h none value r keeps text d ok = cc
  write_at_stores h (some path) value r keeps text d ok = elim (Bool-cases (host.exists h path)) [
    | inl there ↦
        rw (there, write_at)
          (after_write_stores h (host.write_text h path value).1 path value
            (host.write_text h path value).0 r keeps text refl (rw (there, write_at) at d) ok)
    | inr missing ↦ ground arith
  ]

  -- A sysctl write that reports success without the helper has stored the value: a later read of
  -- the key gives it, if the kernel's files keep what is written to them.
  pub write_sysctl_stores :
      (policy : SystemPolicy) (h : State) (key value : String) (r : OpResult)
      → str_eq policy.backend "helper" ≡ false
      → KeepsWrites value
      → value ≢ ""
      → (write_sysctl host policy h key value).0 ≡ done r
      → r.ok ≡ true
      → read_sysctl host (write_sysctl host policy h key value).1 key ≡ some value
  unfolding write_sysctl read_sysctl
  write_sysctl_stores policy h key value r direct keeps text d ok =
      ground (arith, write_at_stores h (sysctl_path key) value r keeps text)
