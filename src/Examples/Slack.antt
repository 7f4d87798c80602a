-- ===== src/Examples/Slack.antt =====
-- The register of users and redelivered events at concrete inputs.
use taka_ma.Common.{◌≡◌, refl, Text, Dict, [], ◌∷◌, some, codes, true, false, arith, ◌<◌}
use taka_ma.Slack.Users.{
  User, add, update, remove, run_command, owner_count, get_role, can_manage_user,
}
use taka_ma.Slack.Users.Owners.{IsOwned, run_commands, run_commands-IsOwned}
use taka_ma.Slack.Users.Managed.{IsUnraised, run_command-managed}
use taka_ma.Slack.Dedup.{seen_before, deliver, seen_before-again}

abbrev register : Dict Text User
register =
    (codes "U1", record { name = codes "a"; role = some (codes "owner") })
    ∷ (codes "U2", record { name = codes "b"; role = some (codes "admin") })
    ∷ []

owned : 0 < owner_count register
owned = omega arith

register-IsOwned : IsOwned register
register-IsOwned = ((refl, (refl, tt)), owned)

run_commands-IsOwned_example :
    IsOwned (run_commands (update (codes "U1") (codes "user") ∷ remove (codes "U1") ∷ []) register)
run_commands-IsOwned_example =
    run_commands-IsOwned (update (codes "U1") (codes "user") ∷ remove (codes "U1") ∷ []) register
      register-IsOwned

admin_adds :
    can_manage_user (some (codes "admin")) (get_role (codes "U3") register) (some (codes "user"))
    ≡ true
unfolding can_manage_user get_role
admin_adds = refl

run_command-managed_example : IsUnraised (get_role (codes "U3") register) (
    get_role
      (codes "U3")
      (run_command (add (codes "U3") (codes "c") (codes "user")) register).users)
run_command-managed_example =
    run_command-managed (some (codes "admin")) (add (codes "U3") (codes "c") (codes "user"))
      register (codes "U3") (ground arith) admin_adds

first : (seen_before (codes "Ev1") 100 []).0 ≡ false
unfolding seen_before
first = refl

seen_before-again_example :
    (seen_before
      (codes "Ev1")
      700
      (deliver ((codes "Ev2", 300) ∷ []) (seen_before (codes "Ev1") 100 []).1)).0
    ≡ true
seen_before-again_example =
    seen_before-again (codes "Ev1") 100 700 ((codes "Ev2", 300) ∷ []) [] (ground arith) first refl
      (omega arith)
