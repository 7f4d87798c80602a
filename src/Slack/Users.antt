-- ===== src/Slack/Users.antt =====
-- The register of users, slack_bot/services/user_store.py, and the roles, role_check.py. The file is
-- a dictionary; its lock makes each command run whole. A role is the text that stands in the file; a record
-- of the file has a name.
pub mod Owners
pub mod Managed
use taka_ma.Common.{
  ℕ, Bool, true, false, not, ◌&&◌, ◌||◌, Option, none, some, List, [], ◌∷◌, map, Text, codes, Dict,
  dict_get, dict_set, dict_without, dict_has, ◌==◌, nat_eq, list_eq, option_eq, if◌then◌else◌,
  contains, leb, suc, ◌+◌,
}

pub record User : Type 0 where
  pub name : Text
  pub role : Option Text

abbrev pub valid_roles : List Text
valid_roles = codes "owner" ∷ codes "admin" ∷ codes "user" ∷ []

-- The ValueErrors.
pub data Refusal : Type 0 where
  bad_role registered unregistered last_owner : Refusal

-- What a command leaves in the file, and its error.
pub record Outcome : Type 0 where
  pub users : Dict Text User
  pub error : Option Refusal

abbrev pub is_owner : User → Bool
is_owner u = u.role == some (codes "owner")

abbrev pub owner_count : Dict Text User → ℕ
owner_count [] = 0
owner_count ((id, u) ∷ users) = (if is_owner u then 1 else 0) + owner_count users

abbrev pub refuse : Refusal → Dict Text User → Outcome
refuse e users = record { users = users; error = some e }

abbrev store : Dict Text User → Outcome
store users = record { users = users; error = none }

pub add_user : Text → Text → Text → Dict Text User → Outcome
add_user id name role users =
    if not (contains valid_roles role)
    then refuse bad_role users
    else if dict_has users id
    then refuse registered users
    else store (dict_set users id (record { name = name; role = some role }))

abbrev pub update_found : Text → Text → Option User → Dict Text User → Outcome
update_found id role none users = refuse unregistered users
update_found id role (some u) users =
    if not (role == codes "owner") && is_owner u && leb (owner_count users) 1
    then refuse last_owner users
    else store (dict_set users id (record u { role = some role }))

pub update_user : Text → Text → Dict Text User → Outcome
update_user id role users =
    if not (contains valid_roles role)
    then refuse bad_role users
    else update_found id role (dict_get users id) users

abbrev pub remove_found : Text → Option User → Dict Text User → Outcome
remove_found id none users = refuse unregistered users
remove_found id (some u) users =
    if is_owner u && leb (owner_count users) 1
    then refuse last_owner users
    else store (dict_without users id)

pub remove_user : Text → Dict Text User → Outcome
remove_user id users = remove_found id (dict_get users id) users

-- `ROLE_ORDER.get(role, 0)`
abbrev pub role_order : Option Text → ℕ
role_order none = 0
role_order (some role) =
    if role == codes "owner"
    then 3
    else if role == codes "admin"
    then 2
    else if role == codes "user"
    then 1
    else 0

abbrev pub role_in : Option User → Option Text
role_in none = none
role_in (some u) = u.role

unfoldable pub get_role : Text → Dict Text User → Option Text
get_role id users = role_in (dict_get users id)

abbrev check_found : Option User → Text → Bool
check_found none required = false
check_found (some u) required = leb (role_order (some required)) (role_order u.role)

pub check_role : Text → Text → Dict Text User → Bool
check_role id required users = check_found (dict_get users id) required

abbrev pub is_privileged : Option Text → Bool
is_privileged role = role == some (codes "owner") || role == some (codes "admin")

unfoldable pub can_manage_user : Option Text → Option Text → Option Text → Bool
can_manage_user actor target new =
    if actor == some (codes "owner")
    then true
    else if not (actor == some (codes "admin"))
    then false
    else if is_privileged new
    then false
    else if is_privileged target
    then false
    else true

-- `authorize`: the answer, and whether the refusal is said.
pub authorize : Text → Text → Dict Text User → Bool × Bool
authorize id required users = if check_role id required users then (true, false) else (false, true)

-- The commands that change the register.
pub data Command : Type 0 where
  add : Text → Text → Text → Command
  update : Text → Text → Command
  remove : Text → Command

abbrev pub run_command : Command → Dict Text User → Outcome
run_command (add id name role) users = add_user id name role users
run_command (update id role) users = update_user id role users
run_command (remove id) users = remove_user id users
