-- ===== src/Privileges/Tests.antt =====
-- The guards of src/hoursx/system/privileges.py at concrete units.
use Prim.Native.String.{◌++◌}
use hours_x.Prelude.{◌≡◌, refl, []}
use hours_x.Prelude.Int.{pos, negsuc}
use hours_x.Prelude.Text.{is_one_of}
use hours_x.Privileges.{refused, mutate, classify_service, classify_signal, is_known_signal}
use hours_x.Privileges.Refusals.{newline_evades_guard}

newline_evades_guard_example : classify_service ("sshd" ++ "\n") "stop" ≡ mutate
unfolding is_one_of
newline_evades_guard_example = newline_evades_guard "sshd" "stop" refl refl

signal_classes :
    (classify_signal [] (pos 1) (pos 15) (pos 7) ≡ refused)
    × (classify_signal [] (negsuc 4) (pos 15) (pos 7) ≡ refused)
    × (classify_signal [] (pos 99) (pos 15) (pos 7) ≡ mutate)
    × (classify_signal [] (pos 99) (pos 3) (pos 7) ≡ refused)
unfolding classify_signal is_known_signal
signal_classes = (refl, refl, refl, refl)
