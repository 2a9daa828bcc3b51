-- ===== src/Privileges/Refusals.antt =====
-- What the privilege envelope of src/hoursx/system/privileges.py refuses.
use Prim.Native.String.{◌++◌}
use hours_x.Prelude.{
  List, [], ◌∷◌, Bool, true, false, String, ◌≡◌, refl, ap, arith, eq_iff, ◌&&◌, all_of,
}
use hours_x.Privileges.{
  OperationClass, read, mutate, refused, classify_service, matches_service_name, critical_services,
  severing_actions,
}
use hours_x.Prelude.Text.{is_one_of, removesuffix, drop_final_newline, count, all_chars}

abbrev is_refused : OperationClass → Bool
is_refused refused = true
is_refused _ = false

is_refused→refused : (c : OperationClass) → is_refused c ≡ true → c ≡ refused
is_refused→refused read h = cc
is_refused→refused mutate h = cc
is_refused→refused refused h = refl

-- What holds of each text of a list holds of any text that is one of them.
pub one_of-all_of :
    (p : String → Bool) (s : String) (ts : List String)
    → all_of p ts ≡ true
    → is_one_of s ts ≡ true
    → p s ≡ true
unfolding is_one_of
one_of-all_of p s [] h m = cc
one_of-all_of p s (t ∷ ts) h m =
    ground (arith, one_of-all_of p s ts, eq_iff s t, λ (e : s ≡ t). ap p e)

abbrev refused_both : String → String → Bool
refused_both base action =
    is_refused (classify_service base action)
    && is_refused (classify_service (base ++ ".service") action)

severing_table :
    all_of (λ base. all_of (refused_both base) severing_actions) critical_services ≡ true
unfolding classify_service matches_service_name is_one_of removesuffix drop_final_newline count
    all_chars
severing_table = refl

-- No critical service can be stopped, disabled or restarted, with or without its suffix.
pub critical_services_kept :
    (base action : String)
    → is_one_of base critical_services ≡ true
    → is_one_of action severing_actions ≡ true
    → (classify_service base action ≡ refused)
      × (classify_service (base ++ ".service") action ≡ refused)
critical_services_kept base action b a =
    let both =
      one_of-all_of (refused_both base) action severing_actions
        (one_of-all_of (λ s. all_of (refused_both s) severing_actions) base critical_services
          severing_table b)
        a in
    ground (
      arith,
      both,
      is_refused→refused (classify_service base action),
      is_refused→refused (classify_service (base ++ ".service") action),
    )

abbrev is_mutate : OperationClass → Bool
is_mutate mutate = true
is_mutate _ = false

is_mutate→mutate : (c : OperationClass) → is_mutate c ≡ true → c ≡ mutate
is_mutate→mutate read h = cc
is_mutate→mutate mutate h = refl
is_mutate→mutate refused h = cc

abbrev evades : String → String → Bool
evades base action = is_mutate (classify_service (base ++ "\n") action)

evading_table : all_of (λ base. all_of (evades base) severing_actions) critical_services ≡ true
unfolding classify_service matches_service_name is_one_of removesuffix drop_final_newline count
    all_chars
evading_table = refl

-- A unit name that ends in a newline evades that guard: with it, stopping, disabling or restarting
-- any critical service is classed as a change that an approval permits.
pub newline_evades_guard :
    (base action : String)
    → is_one_of base critical_services ≡ true
    → is_one_of action severing_actions ≡ true
    → classify_service (base ++ "\n") action ≡ mutate
newline_evades_guard base action b a = is_mutate→mutate (classify_service (base ++ "\n") action) (
    one_of-all_of (evades base) action severing_actions
      (one_of-all_of (λ s. all_of (evades s) severing_actions) base critical_services evading_table
        b)
      a)
