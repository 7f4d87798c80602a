-- ===== src/Slack/Users/Owners.antt =====
-- The register never loses its last owner.
use taka_ma.Common.{
  dict_set-IsDistinct, ◌≡◌, refl, inl, inr, ◌<◌, ℕ, false, Option, none, some, List, [], ◌∷◌, Text,
  arith, Bool-cases, Dict, dict_get, dict_set, dict_without, dict_has, dict_keys,
  dict_has-dict_without, nat_eq, list_eq, option_eq, text_eq_iff, if◌then◌else◌, contains, ◌+◌,
  IsDistinct,
}
use taka_ma.Slack.Users.{
  User, is_owner, owner_count, add_user, update_user, update_found, remove_user, remove_found,
  Command, add, update, remove, run_command, valid_roles,
}

abbrev weight : User → ℕ
weight u = if is_owner u then 1 else 0

owner_count-dict_set :
    (users : Dict Text User) (id : Text) (u v : User)
    → dict_get users id ≡ some u
    → owner_count (dict_set users id v) + weight u ≡ owner_count users + weight v
owner_count-dict_set [] id u v h = absurd (ground arith)
owner_count-dict_set ((j, w) ∷ users) id u v h = ground (arith, owner_count-dict_set users id u v)

owner_count-add :
    (users : Dict Text User) (id : Text) (v : User)
    → dict_has users id ≡ false
    → owner_count (dict_set users id v) ≡ owner_count users + weight v
owner_count-add [] id v h = ground arith
owner_count-add ((j, w) ∷ users) id v h = ground (arith, owner_count-add users id v)

owner_count-absent :
    (users : Dict Text User) (id : Text)
    → dict_has users id ≡ false
    → owner_count (dict_without users id) ≡ owner_count users
owner_count-absent [] id h = refl
owner_count-absent ((j, w) ∷ users) id h = ground (arith, owner_count-absent users id)

owner_count-dict_without :
    (users : Dict Text User) (id : Text) (u : User)
    → IsDistinct (dict_keys users)
    → dict_get users id ≡ some u
    → owner_count (dict_without users id) + weight u ≡ owner_count users
owner_count-dict_without [] id u d h = absurd (ground arith)
owner_count-dict_without ((j, w) ∷ users) id u d h =
    ground
      (arith, owner_count-dict_without users id u, owner_count-absent users id, text_eq_iff j id)

dict_without-IsDistinct :
    (users : Dict Text User) (id : Text)
    → IsDistinct (dict_keys users)
    → IsDistinct (dict_keys (dict_without users id))
dict_without-IsDistinct [] id d = tt
dict_without-IsDistinct ((j, w) ∷ users) id d =
    ground (arith, dict_without-IsDistinct users id, dict_has-dict_without users id j)

-- A register that is a dictionary, with an owner.
abbrev pub IsOwned : Dict Text User → Type 0
IsOwned users = IsDistinct (dict_keys users) × (0 < owner_count users)

abbrev new_user : Text → Text → User
new_user name role = record { name = name; role = some role }

new-IsOwned :
    (id name role : Text) (users : Dict Text User)
    → dict_has users id ≡ false
    → IsOwned users
    → IsOwned (dict_set users id (new_user name role))
new-IsOwned id name role users n (d, o) = (
  dict_set-IsDistinct users id (new_user name role) d,
  omega (arith, owner_count-add users id (new_user name role) n),
)

add-IsOwned :
    (id name role : Text) (users : Dict Text User)
    → IsOwned users
    → IsOwned (add_user id name role users).users
unfolding add_user
add-IsOwned id name role users h = elim (Bool-cases (contains valid_roles role)) [
  | inl good ↦ elim (Bool-cases (dict_has users id)) [
    | inl there ↦ rw (good, there) h
    | inr absent ↦ rw (good, absent) (new-IsOwned id name role users absent h)
  ]
  | inr bad ↦ rw bad h
]

update_found-IsOwned :
    (id role : Text) (found : Option User) (users : Dict Text User)
    → dict_get users id ≡ found
    → IsOwned users
    → IsOwned (update_found id role found users).users
update_found-IsOwned id role none users e h = h
update_found-IsOwned id role (some u) users e (d, o) = ground (
  arith,
  owner_count-dict_set users id u (record u { role = some role }) e,
  dict_set-IsDistinct users id (record u { role = some role }) d,
)

update-IsOwned :
    (id role : Text) (users : Dict Text User)
    → IsOwned users
    → IsOwned (update_user id role users).users
unfolding update_user
update-IsOwned id role users h =
    ground (arith, update_found-IsOwned id role (dict_get users id) users refl h)

remove_found-IsOwned :
    (id : Text) (found : Option User) (users : Dict Text User)
    → dict_get users id ≡ found
    → IsOwned users
    → IsOwned (remove_found id found users).users
remove_found-IsOwned id none users e h = h
remove_found-IsOwned id (some u) users e (d, o) =
    ground (arith, owner_count-dict_without users id u d e, dict_without-IsDistinct users id d)

run_command-IsOwned :
    (c : Command) (users : Dict Text User) → IsOwned users → IsOwned (run_command c users).users
unfolding remove_user
run_command-IsOwned (add id name role) users h = add-IsOwned id name role users h
run_command-IsOwned (update id role) users h = update-IsOwned id role users h
run_command-IsOwned (remove id) users h = remove_found-IsOwned id (dict_get users id) users refl h

abbrev pub run_commands : List Command → Dict Text User → Dict Text User
run_commands [] users = users
run_commands (c ∷ cs) users = run_commands cs (run_command c users).users

-- A register with an owner has one after any commands, refused ones included, and its user ids stay
-- distinct.
pub run_commands-IsOwned :
    (cs : List Command) (users : Dict Text User) → IsOwned users → IsOwned (run_commands cs users)
run_commands-IsOwned [] users h = h
run_commands-IsOwned (c ∷ cs) users h =
    run_commands-IsOwned cs (run_command c users).users (run_command-IsOwned c users h)
