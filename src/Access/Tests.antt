-- ===== src/Access/Tests.antt =====
-- Access at concrete users: user 1 manages project 1, and user 2 is a user of it.
use gopher_cron.Base.{
  ℕ, Text, codes, Bool, true, false, Option, none, some, ◌≡◌, ◌↔◌, refl, if◌then◌else◌, ◌==◌,
}
use gopher_cron.Access.{Answer, found, check_greater_or_equal_user, role_manager, role_user}
use gopher_cron.Access.Granted.{Holds, Outranks, check_greater_or_equal_user_iff}

abbrev nobody_admin : ℕ → Answer Bool
nobody_admin user = found false

abbrev roles : ℕ → ℕ → Answer (Option Text)
roles project_id user =
    if user == 1
    then found (some role_manager)
    else if user == 2
    then found (some role_user)
    else found none

abbrev granted : Text → Text → Bool
granted role permission = true

abbrev known : Text → Bool
known role = true

abbrev edit : Text
edit = codes "edit"

not_admin : nobody_admin 1 ≡ found false
not_admin = refl

check_greater_or_equal_user_iff_example :
    (check_greater_or_equal_user nobody_admin roles granted known 1 1 2 edit ≡ none) ↔ (
      (role : Text) × (another : Text) × Holds nobody_admin roles granted known 1 1 edit role
      × (roles 1 2 ≡ found (some another))
      × Outranks nobody_admin roles granted known role another)
check_greater_or_equal_user_iff_example =
    check_greater_or_equal_user_iff nobody_admin roles granted known 1 1 2 edit not_admin
