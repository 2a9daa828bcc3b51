-- ===== src/Remediation/Conditions.antt =====
-- src/hoursx/remediation/conditions.py: declared post-conditions and their evaluation. Python's
-- floats, `float()` of a text and `str()` of a float are the `Floats` that the functions take; the
-- probes' readings are a `Probes`. Details, which are prose, are left out.
pub mod FailSafe
use hours_x.Prelude.{
  ℕ, List, [], ◌∷◌, Bool, true, false, ◌&&◌, ◌||◌, not, Option, none, some, String, str_eq,
  if◌then◌else◌,
}
use hours_x.Prelude.Text.{is_one_of, strip}

pub data ProbeKind : Type 0 where
  memory_used_percent load_1m load_5m process_count open_file_descriptors : ProbeKind
  disk_used_percent disk_free_bytes sysctl_value port_listening process_running : ProbeKind
  service_active : ProbeKind

pub data Operator : Type 0 where
  lt lte gt gte eq ne : Operator

unfoldable pub needs_target : ProbeKind → Bool
needs_target disk_used_percent = true
needs_target disk_free_bytes = true
needs_target sysctl_value = true
needs_target port_listening = true
needs_target process_running = true
needs_target service_active = true
needs_target _ = false

pub record Floats : Type 1 where
  pub Float : Type 0
  pub float_lt : Float → Float → Bool
  pub float_le : Float → Float → Bool
  pub float_eq : Float → Float → Bool
  -- `float(s)`; `none` is the `ValueError`.
  pub parse : String → Option Float
  pub show : Float → String
  -- `str.lower`.
  pub lower : String → String

-- What a probe yields: a value, `_Unobservable`, or another exception.
pub data Reading {ℓ} (A : Type ℓ) : Type ℓ where
  observed : A → Reading A
  unobservable : Reading A
  fault : Reading A

module _ (floats : Floats) where
  open floats use {Float, float_lt, float_le, float_eq, parse, show, lower}

  pub data Value : Type 0 where
    number : Float → Value
    text : String → Value
    flag : Bool → Value

  pub record Condition : Type 0 where
    pub probe : ProbeKind
    pub operator : Operator
    pub value : Value
    pub target : String

  pub record ConditionResult : Type 0 where
    pub condition : Condition
    pub met : Bool
    pub observed_value : Option Value

  pub record Disk : Type 0 where
    pub mountpoint : String
    pub used_percent : Float
    pub free_bytes : Float

  -- The readings of the host at one time.
  pub record Probes : Type 0 where
    pub sysctl : String → Option String
    pub listening : String → Reading Bool
    pub running : String → Reading Bool
    pub is_active : String → Reading Bool
    pub memory_used : Option Float
    pub load_average : Option (Float × Float)
    pub processes : Float
    pub open_files : Option Float
    pub disks : List Disk

  as_reading : Reading Bool → Reading Value
  as_reading (observed b) = observed (flag b)
  as_reading unobservable = unobservable
  as_reading fault = fault

  or_unobservable : Option Float → Reading Value
  or_unobservable none = unobservable
  or_unobservable (some x) = observed (number x)

  find_disk : List Disk → String → Option Disk
  find_disk [] target = none
  find_disk (d ∷ ds) target = if str_eq d.mountpoint target then some d else find_disk ds target

  probe_value : Probes → ProbeKind → String → Reading Value
  unfolding as_reading or_unobservable find_disk
  probe_value p sysctl_value target = elim (p.sysctl target) [
    | none ↦ unobservable
    | some v ↦ observed (text v)
  ]
  probe_value p port_listening target = as_reading (p.listening target)
  probe_value p process_running target = as_reading (p.running target)
  probe_value p service_active target = as_reading (p.is_active target)
  probe_value p memory_used_percent target = or_unobservable p.memory_used
  probe_value p load_1m target = elim p.load_average [
    | none ↦ unobservable
    | some (one, five) ↦ observed (number one)
  ]
  probe_value p load_5m target = elim p.load_average [
    | none ↦ unobservable
    | some (one, five) ↦ observed (number five)
  ]
  probe_value p process_count target = observed (number p.processes)
  probe_value p open_file_descriptors target = or_unobservable p.open_files
  probe_value p disk_used_percent target = elim (find_disk p.disks target) [
    | none ↦ unobservable
    | some d ↦ observed (number d.used_percent)
  ]
  probe_value p disk_free_bytes target = elim (find_disk p.disks target) [
    | none ↦ unobservable
    | some d ↦ observed (number d.free_bytes)
  ]

  unfoldable pub observe : Probes → Condition → Reading Value
  unfolding probe_value needs_target
  observe p c =
      if needs_target c.probe && str_eq c.target ""
      then unobservable
      else probe_value p c.probe c.target

  shown : Value → String
  shown (number x) = show x
  shown (text s) = s
  shown (flag true) = "True"
  shown (flag false) = "False"

  unfoldable pub as_number : Value → Option Float
  as_number (flag b) = none
  as_number (number x) = some x
  as_number (text s) = parse (strip s)

  -- An integer and a float are one number here, with one `show`; Python shows 1 and 1.0 differently.
  unfoldable pub as_bool : Value → Bool
  unfolding shown
  as_bool (flag b) = b
  as_bool (number x) =
      is_one_of (lower (strip (show x))) ("1" ∷ "true" ∷ "yes" ∷ "active" ∷ "on" ∷ [])
  as_bool (text s) = is_one_of (lower (strip s)) ("1" ∷ "true" ∷ "yes" ∷ "active" ∷ "on" ∷ [])

  same_bool : Bool → Bool → Bool
  same_bool true b = b
  same_bool false b = not b

  is_flag : Value → Bool
  is_flag (flag b) = true
  is_flag _ = false

  equal_plain : Option Float → Option Float → Value → Value → Bool
  equal_plain (some x) (some y) a b = float_eq x y
  equal_plain _ _ a b = str_eq (strip (shown a)) (strip (shown b))

  unfoldable pub loosely_equal : Value → Value → Bool
  unfolding same_bool is_flag equal_plain shown
  loosely_equal a b =
      if is_flag a || is_flag b
      then same_bool (as_bool a) (as_bool b)
      else equal_plain (as_number a) (as_number b) a b

  compare_numbers : Operator → Option Float → Option Float → Reading Bool
  compare_numbers lt (some x) (some y) = observed (float_lt x y)
  compare_numbers lte (some x) (some y) = observed (float_le x y)
  compare_numbers gt (some x) (some y) = observed (float_lt y x)
  compare_numbers gte (some x) (some y) = observed (float_le y x)
  compare_numbers _ _ _ = unobservable

  unfoldable pub compare_values : Value → Operator → Value → Reading Bool
  unfolding compare_numbers
  compare_values a eq b = observed (loosely_equal a b)
  compare_values a ne b = observed (not (loosely_equal a b))
  compare_values a op b = compare_numbers op (as_number a) (as_number b)

  -- `_compare` raises nothing but `_Unobservable`.
  met_of : Reading Bool → Bool
  met_of (observed b) = b
  met_of _ = false

  judge : Condition → Reading Value → ConditionResult
  unfolding met_of
  judge c (observed v) = record {
    condition = c;
    met = met_of (compare_values v c.operator c.value);
    observed_value = some v;
  }
  judge c unobservable = record { condition = c; met = false; observed_value = none }
  judge c fault = record { condition = c; met = false; observed_value = none }

  unfoldable pub evaluate_conditions : Probes → List Condition → List ConditionResult
  unfolding judge
  evaluate_conditions p [] = []
  evaluate_conditions p (c ∷ cs) = judge c (observe p c) ∷ evaluate_conditions p cs

  unfoldable pub all_met : List ConditionResult → Bool
  all_met [] = true
  all_met (r ∷ rs) = r.met && all_met rs
