-- ===== src/Access.antt =====
-- app/app.go and app/rbac.go: who may act in a project. The answers of the database and of the
-- gorbac library are parameters: whether a user is an admin, the role of a user in a project,
-- whether a role has a permission, and whether a role is known.
pub mod Granted
mod Tests
use gopher_cron.Base.{
  ℕ, Text, Bool, true, false, not, ◌&&◌, Option, none, some, codes, ltb, ◌==◌, if◌then◌else◌,
  text_eq,
}

pub data AccessError : Type 0 where
  store_error project_not_exist insufficient_permissions role_not_found : AccessError

-- What the database answers: an error, or a value.
pub data Answer (A : Type 0) : Type 0 where
  failed : Answer A
  found : A → Answer A

pub data Order : Type 0 where
  lower same higher : Order

abbrev pub role_chief : Text
role_chief = codes "admin"

abbrev pub role_manager : Text
role_manager = codes "manager"

abbrev pub role_user : Text
role_user = codes "user"

-- `roleLevelNumberIndex`; the zero of a missing key ranks above every role.
unfoldable pub role_level_number : Text → ℕ
role_level_number role =
    if text_eq role role_chief
    then 100
    else if text_eq role role_manager
    then 1000
    else if text_eq role role_user
    then 10000
    else 0

unfoldable pub compare_role : Text → Text → Order
unfolding role_level_number
compare_role a b =
    if ltb (role_level_number a) (role_level_number b)
    then higher
    else if role_level_number a == role_level_number b
    then same
    else lower

module _ (is_admin : ℕ → Answer Bool) (role_of : ℕ → ℕ → Answer (Option Text))
    (is_granted : Text → Text → Bool) (role_exists : Text → Bool) where
  -- the comparison of two roles that both checks end with
  unfoldable pub check_roles : (current another : Text) → Option AccessError
  unfolding compare_role
  check_roles current another =
      if not (role_exists current)
      then some role_not_found
      else if not (role_exists another)
      then some role_not_found
      else elim (compare_role current another) [
        | lower ↦ some insufficient_permissions
        | same ↦ none
        | higher ↦ none
      ]

  -- what is asked of a user who is no admin, before `next`
  unfoldable pub check_member :
      (project_id user : ℕ) (permission : Text) → (Text → Option AccessError) → Option AccessError
  check_member project_id user permission next = elim (role_of project_id user) [
    | failed ↦ some store_error
    | found none ↦ some project_not_exist
    | found (some role) ↦
        if is_granted role permission then next role else some insufficient_permissions
  ]

  unfoldable pub unless_admin : ℕ → Option AccessError → Option AccessError
  unless_admin user rest = elim (is_admin user) [
    | failed ↦ some store_error
    | found true ↦ none
    | found false ↦ rest
  ]

  unfoldable pub check_permissions : (project_id uid : ℕ) (permission : Text) → Option AccessError
  unfolding unless_admin check_member
  check_permissions project_id uid permission =
      unless_admin uid (check_member project_id uid permission (λ role. none))

  unfoldable pub check_greater_or_equal_role :
      (project_id user : ℕ) (role permission : Text) → Option AccessError
  unfolding unless_admin check_member check_roles
  check_greater_or_equal_role project_id user role permission =
      unless_admin user
        (check_member project_id user permission (λ current. check_roles current role))

  -- the comparison with the role of another user
  unfoldable pub check_another : (current : Text) → Answer (Option Text) → Option AccessError
  unfolding check_roles
  check_another current failed = some store_error
  check_another current (found none) = some project_not_exist
  check_another current (found (some another)) = check_roles current another

  unfoldable pub check_greater_or_equal_user :
      (project_id current_user another_user : ℕ) (permission : Text) → Option AccessError
  unfolding unless_admin check_member check_another
  check_greater_or_equal_user project_id current_user another_user permission =
      unless_admin current_user (
        check_member project_id current_user permission
          (λ current. check_another current (role_of project_id another_user)))
