-- ===== src/Slack/Users/Managed.antt =====
-- What an actor who is no owner can change.
use taka_ma.Common.{
  ◌≡◌, refl, sym, ap, ◌∙◌, ◌⊎◌, Bool, not, ◌&&◌, contains, leb, if◌then◌else◌, dict_has, inl, inr,
  ◌≢◌, true, false, Option, none, some, Text, codes, arith, Bool-cases, Dict, dict_get, dict_set,
  dict_without, dict_get-dict_set, dict_get-dict_without, ◌==◌, nat_eq, list_eq, option_eq,
  text_eq_iff,
}
use taka_ma.Slack.Users.{
  User, add_user, update_user, update_found, remove_user, remove_found, Command, add, update,
  remove, run_command, Outcome, Refusal, refuse, bad_role, registered, last_owner, valid_roles,
  is_owner, owner_count, role_in, is_privileged, can_manage_user, get_role,
}

-- The user and the new role that a command is about.
abbrev pub target_of : Command → Text
target_of (add id name role) = id
target_of (update id role) = id
target_of (remove id) = id

abbrev pub new_role_of : Command → Option Text
new_role_of (add id name role) = some role
new_role_of (update id role) = some role
new_role_of (remove id) = none

can_manage_user_lem :
    (actor target new : Option Text)
    → actor ≢ some (codes "owner")
    → can_manage_user actor target new ≡ true
    → (is_privileged target ≡ false) × (is_privileged new ≡ false)
unfolding can_manage_user
can_manage_user_lem actor target new no_owner h =
    elim (Bool-cases (actor == some (codes "owner"))) [
      | inl owner ↦ absurd (no_owner ((option_eq.beq_iff actor (some (codes "owner"))).0 owner))
      | inr other ↦ ground arith
    ]

-- A role before a command and the role after it: the same, or neither is owner or admin.
abbrev pub IsUnraised : Option Text → Option Text → Type 0
IsUnraised before after =
    (after ≡ before) ⊎ ((is_privileged before ≡ false) × (is_privileged after ≡ false))

module _ (users : Dict Text User) (j id : Text)
    (plain : is_privileged (get_role j users) ≡ false) where
  dict_set-IsUnraised :
      (v : User)
      → is_privileged v.role ≡ false
      → IsUnraised (get_role id users) (get_role id (dict_set users j v))
  unfolding get_role
  dict_set-IsUnraised v h = elim (Bool-cases (j == id)) [
    | inl same ↦ inr (
      ap (λ k. is_privileged (role_in (dict_get users k))) (sym ((text_eq_iff j id).0 same))
          ∙ plain,
      ground (arith, dict_get-dict_set users j id v),
    )
    | inr other ↦ inl (ground (arith, dict_get-dict_set users j id v))
  ]

  dict_without-IsUnraised : IsUnraised (get_role id users) (get_role id (dict_without users j))
  unfolding get_role
  dict_without-IsUnraised = elim (Bool-cases (j == id)) [
    | inl same ↦ inr (
      ap (λ k. is_privileged (role_in (dict_get users k))) (sym ((text_eq_iff j id).0 same))
          ∙ plain,
      ground (arith, dict_get-dict_without users j id),
    )
    | inr other ↦ inl (ground (arith, dict_get-dict_without users j id))
  ]

  unless-IsUnraised :
      (refused : Bool) (e : Refusal) (done : Outcome)
      → IsUnraised (get_role id users) (get_role id done.users)
      → IsUnraised
          (get_role id users)
          (get_role id (if refused then refuse e users else done).users)
  unless-IsUnraised true e done h = inl refl
  unless-IsUnraised false e done h = h

  add_user-IsUnraised :
      (name role : Text)
      → is_privileged (some role) ≡ false
      → IsUnraised (get_role id users) (get_role id (add_user j name role users).users)
  unfolding add_user
  add_user-IsUnraised name role h = unless-IsUnraised (not (contains valid_roles role)) bad_role _ (
      unless-IsUnraised (dict_has users j) registered _
        (dict_set-IsUnraised (record { name = name; role = some role }) h))

  update_found-IsUnraised :
      (role : Text) (found : Option User)
      → is_privileged (some role) ≡ false
      → IsUnraised (get_role id users) (get_role id (update_found j role found users).users)
  update_found-IsUnraised role none h = inl refl
  update_found-IsUnraised role (some u) h =
      unless-IsUnraised (not (role == codes "owner") && is_owner u && leb (owner_count users) 1)
        last_owner _ (dict_set-IsUnraised (record u { role = some role }) h)

  update_user-IsUnraised :
      (role : Text)
      → is_privileged (some role) ≡ false
      → IsUnraised (get_role id users) (get_role id (update_user j role users).users)
  unfolding update_user
  update_user-IsUnraised role h =
      unless-IsUnraised (not (contains valid_roles role)) bad_role _
        (update_found-IsUnraised role (dict_get users j) h)

  remove_found-IsUnraised :
      (found : Option User)
      → IsUnraised (get_role id users) (get_role id (remove_found j found users).users)
  remove_found-IsUnraised none = inl refl
  remove_found-IsUnraised (some u) =
      unless-IsUnraised (is_owner u && leb (owner_count users) 1) last_owner _
        dict_without-IsUnraised

-- Where the actor is no owner and the command passes the check on roles, every user has after it the
-- role of before, or has neither before nor after it the role of an owner or an admin: nobody
-- becomes owner or admin, and every owner and every admin stays what they are.
pub run_command-managed :
    (actor : Option Text) (c : Command) (users : Dict Text User) (id : Text)
    → actor ≢ some (codes "owner")
    → can_manage_user actor (get_role (target_of c) users) (new_role_of c) ≡ true
    → IsUnraised (get_role id users) (get_role id (run_command c users).users)
unfolding remove_user
run_command-managed actor (add j name role) users id no_owner h =
    let (plain, new) = can_manage_user_lem actor (get_role j users) (some role) no_owner h in
    add_user-IsUnraised users j id plain name role new
run_command-managed actor (update j role) users id no_owner h =
    let (plain, new) = can_manage_user_lem actor (get_role j users) (some role) no_owner h in
    update_user-IsUnraised users j id plain role new
run_command-managed actor (remove j) users id no_owner h =
    let (plain, new) = can_manage_user_lem actor (get_role j users) none no_owner h in
    remove_found-IsUnraised users j id plain (dict_get users j)
