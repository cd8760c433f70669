-- ===== src/Access/Granted.antt =====
-- Exactly who passes the checks.
use gopher_cron.Base.{
  ℕ, ◌≤◌, Text, Bool, true, false, Option, none, some, ◌≡◌, ◌↔◌, ◌⊎◌, inl, inr, refl, arith, ap,
  ◌∙◌, sym, subst, Bool-cases,
}
use gopher_cron.Access.{
  check_another, AccessError, insufficient_permissions, Answer, failed, found, role_level_number,
  compare_role, check_roles, check_member, unless_admin, check_permissions,
  check_greater_or_equal_user,
}

module _ (is_admin : ℕ → Answer Bool) (role_of : ℕ → ℕ → Answer (Option Text))
    (is_granted : Text → Text → Bool) (role_exists : Text → Bool) where
  unless_admin_iff :
      (user : ℕ) (rest : Option AccessError)
      → (unless_admin is_admin role_of is_granted role_exists user rest ≡ none)
        ↔ ((is_admin user ≡ found true) ⊎ ((is_admin user ≡ found false) × (rest ≡ none)))
  unfolding unless_admin
  unless_admin_iff user rest = go (is_admin user) refl
    where
      go :
          (x : Answer Bool)
          → is_admin user ≡ x
          → (unless_admin is_admin role_of is_granted role_exists user rest ≡ none)
            ↔ ((is_admin user ≡ found true) ⊎ ((is_admin user ≡ found false) × (rest ≡ none)))
      go failed e =
          rw (e, unless_admin) (λ h. cc, λ h. elim h [ inl p ↦ cc | inr p ↦ let q = p.0 in cc ])
      go (found true) e = rw (e, unless_admin) (λ h. inl refl, λ h. refl)
      go (found false) e =
          rw (e, unless_admin) (λ h. inr (refl, h), λ h. elim h [ inl p ↦ cc | inr p ↦ p.1 ])

  -- The role of a user who may act: known in the project and with the permission.
  abbrev pub Holds : (project_id user : ℕ) (permission role : Text) → Type 0
  Holds project_id user permission role =
      (role_of project_id user ≡ found (some role)) × (is_granted role permission ≡ true)

  check_member_iff :
      (project_id user : ℕ) (permission : Text) (next : Text → Option AccessError)
      → (check_member is_admin role_of is_granted role_exists project_id user permission next
          ≡ none)
        ↔ ((role : Text) × Holds project_id user permission role × (next role ≡ none))
  unfolding check_member
  check_member_iff project_id user permission next = go (role_of project_id user) refl
    where
      go :
          (x : Answer (Option Text))
          → role_of project_id user ≡ x
          → (check_member is_admin role_of is_granted role_exists project_id user permission next
              ≡ none)
            ↔ ((role : Text) × Holds project_id user permission role × (next role ≡ none))
      go failed e = rw (e, check_member) (λ h. cc, λ (r, (p, g), n). cc)
      go (found none) e = rw (e, check_member) (λ h. cc, λ (r, (p, g), n). cc)
      go (found (some role)) e = elim (Bool-cases (is_granted role permission)) [
        | inl g ↦
            let eq : check_member is_admin role_of is_granted role_exists project_id user permission
                  next
                ≡ next role =
              rw (e, g, check_member) refl in
            (
              λ h. (role, (e, g), sym eq ∙ h),
              λ (r, (p, k), n). let s : role ≡ r = cc in eq ∙ ap next s ∙ n,
            )
        | inr g ↦
            let eq : check_member is_admin role_of is_granted role_exists project_id user permission
                  next
                ≡ some insufficient_permissions =
              rw (e, g, check_member) refl in
            (λ h. cc, λ (r, (p, k), n). let s : role ≡ r = cc in cc)
      ]

  -- Both roles are known, and the first does not rank below the second.
  abbrev pub Outranks : Text → Text → Type 0
  Outranks current another =
      (role_exists current ≡ true)
      × (role_exists another ≡ true)
      × (role_level_number current ≤ role_level_number another)

  check_roles_iff :
      (current another : Text)
      → (check_roles is_admin role_of is_granted role_exists current another ≡ none)
        ↔ Outranks current another
  unfolding check_roles compare_role
  check_roles_iff current another = (λ h. ground arith, λ h. ground arith)

  -- A user passes the check of a permission exactly if the user is an admin, or has a role in the
  -- project that is granted the permission.
  pub check_permissions_iff :
      (project_id uid : ℕ) (permission : Text)
      → (check_permissions is_admin role_of is_granted role_exists project_id uid permission ≡ none)
        ↔ ((is_admin uid ≡ found true)
            ⊎ ((is_admin uid ≡ found false)
                × ((role : Text) × Holds project_id uid permission role)))
  unfolding check_permissions
  check_permissions_iff project_id uid permission =
      let (f, g) = unless_admin_iff uid (
        check_member is_admin role_of is_granted role_exists project_id uid permission
          (λ role. none)) in
      let (f', g') = check_member_iff project_id uid permission (λ role. none) in
      (
        λ h. elim (f h) [ inl a ↦ inl a | inr (a, m) ↦ let (r, k, n) = f' m in inr (a, (r, k)) ],
        λ h. elim h [ inl a ↦ g (inl a) | inr (a, (r, k)) ↦ g (inr (a, g' (r, k, refl))) ],
      )

  check_another_iff :
      (current : Text) (x : Answer (Option Text))
      → (check_another is_admin role_of is_granted role_exists current x ≡ none)
        ↔ ((another : Text) × (x ≡ found (some another)) × Outranks current another)
  unfolding check_another
  check_another_iff current failed = (λ h. cc, λ (r, e, o). cc)
  check_another_iff current (found none) = (λ h. cc, λ (r, e, o). cc)
  check_another_iff current (found (some another)) = (
    λ h. (another, refl, (check_roles_iff current another).0 h),
    λ (r, e, o).
        let s : another ≡ r = cc in
        (check_roles_iff current another).1 (subst (Outranks current) (sym s) o),
  )

  -- A user who is no admin may act on another user exactly if the user's role in the project is
  -- granted the permission, the other has a role in the project too, and the first role does not
  -- rank below the second.
  pub check_greater_or_equal_user_iff :
      (project_id current_user another_user : ℕ) (permission : Text)
      → is_admin current_user ≡ found false
      → (check_greater_or_equal_user is_admin role_of is_granted role_exists project_id current_user
            another_user permission
          ≡ none)
        ↔ ((role : Text) × (another : Text) × Holds project_id current_user permission role
            × (role_of project_id another_user ≡ found (some another))
            × Outranks role another)
  unfolding check_greater_or_equal_user
  check_greater_or_equal_user_iff project_id current_user another_user permission no_admin =
      let next : Text → Option AccessError = λ current.
        check_another is_admin role_of is_granted role_exists current
          (role_of project_id another_user) in
      let (f, g) = unless_admin_iff current_user (
        check_member is_admin role_of is_granted role_exists project_id current_user permission
          next) in
      let (f', g') = check_member_iff project_id current_user permission next in
      (
        λ h. elim (f h) [
          | inl a ↦ cc
          | inr (a, m) ↦
              let (role, k, n) = f' m in
              let (another, e, o) =
                (check_another_iff role (role_of project_id another_user)).0 n in
              (role, another, k, e, o)
        ],
        λ (role, another, k, e, o). g (
            inr (
              no_admin,
              g' (
                role,
                k,
                (check_another_iff role (role_of project_id another_user)).1 (another, e, o),
              ),
            )),
      )
