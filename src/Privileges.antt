-- ===== src/Privileges.antt =====
-- src/hoursx/system/privileges.py: the class of every host operation. The reasons that go with a
-- class are prose for people and are left out.
pub mod Refusals
pub mod Tests
use hours_x.Prelude.{
  ℕ, List, [], ◌∷◌, Bool, true, false, ◌&&◌, ◌||◌, not, String, ◌++◌, ltb, leb, ◌==◌, if◌then◌else◌,
}
use hours_x.Prelude.Int.{ℤ, pos, negsuc, int_eq, is_negative}
use hours_x.Prelude.Text.{
  is_one_of, starts_with_any, between, strip, removesuffix, count, all_chars, drop_final_newline,
}

pub data OperationClass : Type 0 where
  read mutate refused : OperationClass

abbrev pub sysctl_mutable_prefixes : List String
sysctl_mutable_prefixes =
    "net.core." ∷ "net.ipv4.tcp_" ∷ "net.ipv4.ip_local_port_range"
    ∷ "net.netfilter.nf_conntrack_max" ∷ "vm.swappiness" ∷ "vm.dirty_ratio"
    ∷ "vm.dirty_background_ratio" ∷ "vm.vfs_cache_pressure" ∷ "vm.max_map_count" ∷ "fs.file-max"
    ∷ "fs.inotify." ∷ "kernel.pid_max" ∷ []

abbrev pub sysctl_refused : List String
sysctl_refused =
    "kernel.modules_disabled" ∷ "kernel.kptr_restrict" ∷ "kernel.dmesg_restrict"
    ∷ "kernel.unprivileged_bpf_disabled" ∷ "kernel.core_pattern" ∷ "kernel.sysrq"
    ∷ "kernel.randomize_va_space" ∷ "kernel.ftrace_enabled" ∷ []

unfoldable pub classify_sysctl : String → OperationClass
classify_sysctl key =
    let normalized = strip key in
    if is_one_of normalized sysctl_refused
    then refused
    else if starts_with_any normalized sysctl_mutable_prefixes
    then mutate
    else refused

-- `platform` lists the numbers that the `signal` module of the host gives the eight names.
unfoldable pub is_known_signal : List ℤ → ℤ → Bool
is_known_signal [] s =
    int_eq s (pos 1)
    || int_eq s (pos 2)
    || int_eq s (pos 9)
    || int_eq s (pos 10)
    || int_eq s (pos 12)
    || int_eq s (pos 15)
    || int_eq s (pos 18)
    || int_eq s (pos 19)
is_known_signal (n ∷ platform) s = int_eq s n || is_known_signal platform s

-- A number that is not known is refused whether or not the platform has a name for it.
unfoldable pub classify_signal : List ℤ → ℤ → ℤ → ℤ → OperationClass
classify_signal platform pid signal_number own_pid =
    if int_eq pid (pos 0) || int_eq pid (pos 1)
    then refused
    else if int_eq pid own_pid
    then refused
    else if is_negative pid
    then refused
    else if is_known_signal platform signal_number
    then mutate
    else refused

abbrev pub critical_services : List String
critical_services =
    "sshd" ∷ "ssh" ∷ "systemd-journald" ∷ "systemd-logind" ∷ "dbus" ∷ "networking"
    ∷ "systemd-networkd" ∷ "NetworkManager" ∷ []

abbrev pub service_read_actions : List String
service_read_actions = "status" ∷ "is-active" ∷ "is-enabled" ∷ "show" ∷ "cat" ∷ []

abbrev pub service_mutate_actions : List String
service_mutate_actions = "start" ∷ "stop" ∷ "restart" ∷ "reload" ∷ "enable" ∷ "disable" ∷ []

abbrev pub severing_actions : List String
severing_actions = "stop" ∷ "disable" ∷ "restart" ∷ []

-- [A-Za-z0-9@:._\-], the backslash included.
is_unit_char : ℕ → Bool
is_unit_char c =
    between b'A' b'Z' c
    || between b'a' b'z' c
    || between b'0' b'9' c
    || c == b'@'
    || c == b':'
    || c == b'.'
    || c == b'_'
    || c == 92
    || c == b'-'

-- `_SERVICE_NAME_RE.match`: its `$` also matches before a final newline.
unfoldable pub matches_service_name : String → Bool
unfolding is_unit_char
matches_service_name unit =
    let body = drop_final_newline unit in
    ltb 0 (count body) && leb (count body) 128 && all_chars is_unit_char body

unfoldable pub classify_service : String → String → OperationClass
classify_service unit action =
    if not (matches_service_name unit)
    then refused
    else if is_one_of action service_read_actions
    then read
    else if not (is_one_of action service_mutate_actions)
    then refused
    else if is_one_of (removesuffix unit ".service") critical_services
        && is_one_of action severing_actions
    then refused
    else mutate

pub record SystemPolicy : Type 0 where
  pub enabled : Bool
  pub allow_mutations : Bool
  pub extra_sysctl_allowlist : List String
  pub backend : String

-- The operator's own list comes first.
unfoldable pub classify_sysctl_write : SystemPolicy → String → OperationClass
classify_sysctl_write policy key =
    if is_one_of key policy.extra_sysctl_allowlist then mutate else classify_sysctl key
