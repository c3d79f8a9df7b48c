-- ===== src/Authz/Matrix.antt =====
-- The permission matrix of pkg/authz/authz.go, written out, and that Decide follows it.
use gametrace.Prelude.{
  true, false, ◌≡◌, ◌≢◌, ◌≤◌, ◌↔◌, ◌⊎◌, inl, inr, none, some, arith, refl, Option-cases,
}
use gametrace.Authz.{
  Action, Role, Resource, Principal, session, probe, stranger, member, admin, owner, project_read,
  project_update, project_delete, project_manage_members, project_manage_plugins,
  project_manage_rules, project_transfer_owner, session_read, session_use, session_delete,
  session_move_project, plugin_read, plugin_use, plugin_manage, lease_use, lease_release,
  probe_read, probe_use, probe_control, probe_manage, is_session_action, is_probe_action,
  in_project, role_level, project_action_role, session_project_action_role, principal_tenant,
  resource_tenant, decide,
}
use gametrace.Authz.Permits.{
  Grant, Owns, IsScoped, scoped_action_role, decide_sound, decide_complete, project_role,
  session_role, session_creator, own_session, catalogue, scoped_role, own_scoped, own_probe,
}

-- A role is at least another: the roles are member, admin and owner, in this order.
abbrev pub AtLeast : Role → Role → Type 0
AtLeast role m = (role ≡ m) ⊎ ((role ≡ owner) ⊎ ((role ≡ admin) × (m ≡ member)))

-- The roles that the matrix asks for: for an action on a project, on a session of a project, and on a
-- plugin or a lease of a project.
abbrev pub ProjectRole : Action → Role → Type 0
ProjectRole a m =
    ((m ≡ member) × (a ≡ project_read))
    ⊎ (((m ≡ admin)
          × ((a ≡ project_manage_members)
              ⊎ ((a ≡ project_manage_plugins) ⊎ (a ≡ project_manage_rules))))
        ⊎ ((m ≡ owner)
            × ((a ≡ project_update) ⊎ ((a ≡ project_delete) ⊎ (a ≡ project_transfer_owner)))))

abbrev pub SessionRole : Action → Role → Type 0
SessionRole a m =
    ((m ≡ member) × ((a ≡ session_read) ⊎ (a ≡ session_use)))
    ⊎ ((m ≡ admin) × ((a ≡ session_delete) ⊎ (a ≡ session_move_project)))

abbrev pub ScopedRole : Action → Role → Type 0
ScopedRole a m =
    ((m ≡ member) × ((a ≡ plugin_use) ⊎ ((a ≡ lease_use) ⊎ (a ≡ lease_release))))
    ⊎ ((m ≡ admin) × (a ≡ plugin_manage))

abbrev pub IsProbeAction : Action → Type 0
IsProbeAction a = (a ≡ probe_read) ⊎ ((a ≡ probe_use) ⊎ ((a ≡ probe_control) ⊎ (a ≡ probe_manage)))

project_sound : (a : Action) (m : Role) → project_action_role a ≡ some m → ProjectRole a m
project_sound a m h = ground arith

project_complete : (a : Action) (m : Role) → ProjectRole a m → project_action_role a ≡ some m
project_complete a m h = ground arith

session_sound : (a : Action) (m : Role) → session_project_action_role a ≡ some m → SessionRole a m
session_sound a m h = ground arith

session_complete :
    (a : Action) (m : Role) → SessionRole a m → session_project_action_role a ≡ some m
session_complete a m h = ground arith

scoped_sound : (a : Action) (m : Role) → scoped_action_role a ≡ some m → ScopedRole a m
scoped_sound a m h = ground arith

scoped_complete : (a : Action) (m : Role) → ScopedRole a m → scoped_action_role a ≡ some m
scoped_complete a m h = ground arith

probe_sound : (a : Action) → is_probe_action a ≡ true → IsProbeAction a
probe_sound a h = ground arith

probe_complete : (a : Action) → IsProbeAction a → is_probe_action a ≡ true
probe_complete a h = ground arith

level_sound : (role m : Role) → m ≢ stranger → role_level m ≤ role_level role → AtLeast role m
level_sound role m n h = ground arith

level_complete : (role m : Role) → m ≢ stranger → AtLeast role m → role_level m ≤ role_level role
level_complete role m n h = ground arith

abbrev pub IsSessionAction : Action → Type 0
IsSessionAction a =
    (a ≡ session_read) ⊎ ((a ≡ session_use) ⊎ ((a ≡ session_delete) ⊎ (a ≡ session_move_project)))

own_sound : (a : Action) → is_session_action a ≡ true → IsSessionAction a
own_sound a h = ground arith

own_complete : (a : Action) → IsSessionAction a → is_session_action a ≡ true
own_complete a h = ground arith

in_sound : (r : Resource) → in_project r ≡ true → r.project_id ≢ ""
in_sound r h = λ e. ground arith

in_complete : (r : Resource) → r.project_id ≢ "" → in_project r ≡ true
in_complete r n = ground arith

out_sound : (r : Resource) → in_project r ≡ false → r.project_id ≡ ""
out_sound r h = ground arith

out_complete : (r : Resource) → r.project_id ≡ "" → in_project r ≡ false
out_complete r e = ground arith

-- A session of a project whose creator, who is not anonymous, deletes it or moves it.
pub record Creator (p : Principal) (a : Action) (r : Resource) : Type 0 where
  pub of_session : r.kind ≡ session
  pub of_project : r.project_id ≢ ""
  pub action : (a ≡ session_delete) ⊎ (a ≡ session_move_project)
  pub owns : Owns p r
  pub named : p.user ≢ ""

-- The grounds of the matrix for a caller who is no global administrator.
pub data Ground (p : Principal) (a : Action) (r : Resource) (role : Role) : Type 0 where
  by_project_role : (m : Role) → ProjectRole a m → AtLeast role m → Ground p a r role
  by_session_role :
      (m : Role)
      → r.kind ≡ session
      → r.project_id ≢ ""
      → SessionRole a m
      → AtLeast role m
      → Ground p a r role
  member_creator : Creator p a r → AtLeast role member → Ground p a r role
  personal_session :
      r.kind ≡ session → r.project_id ≡ "" → IsSessionAction a → Owns p r → Ground p a r role
  public_catalogue : IsScoped r.kind → a ≡ plugin_read → Ground p a r role
  by_scoped_role :
      (m : Role)
      → IsScoped r.kind
      → r.project_id ≢ ""
      → ScopedRole a m
      → AtLeast role m
      → Ground p a r role
  personal_scoped :
      (m : Role)
      → IsScoped r.kind
      → r.project_id ≡ ""
      → ScopedRole a m
      → Owns p r
      → Ground p a r role
  registrar : r.kind ≡ probe → IsProbeAction a → Owns p r → p.user ≢ "" → Ground p a r role

-- What the code adds to the matrix, which makes the exception for a creator who is a member only.
abbrev pub Extra : Principal → Action → Resource → Role → Type 0
Extra p a r role = (role ≡ stranger) × Creator p a r

rank : (role : Role) → AtLeast role member ⊎ (role ≡ stranger)
rank stranger = inr refl
rank member = inl (inl refl)
rank admin = inl (inr (inr (refl, refl)))
rank owner = inl (inr (inl refl))

project_real : (a : Action) (m : Role) → project_action_role a ≡ some m → m ≢ stranger
project_real a m h = λ e. ground arith

session_real : (a : Action) (m : Role) → session_project_action_role a ≡ some m → m ≢ stranger
session_real a m h = λ e. ground arith

scoped_real : (a : Action) (m : Role) → scoped_action_role a ≡ some m → m ≢ stranger
scoped_real a m h = λ e. ground arith

scoped_some :
    (a : Action) → scoped_action_role a ≢ none → (m : Role) × (scoped_action_role a ≡ some m)
scoped_some a n = elim (Option-cases (scoped_action_role a)) [ inl e ↦ absurd (n e) | inr x ↦ x ]

module _ (p : Principal) (a : Action) (r : Resource) (role : Role) where
  to_matrix : Grant p a r role → Ground p a r role ⊎ Extra p a r role
  to_matrix (project_role (m, e, h)) =
      inl (by_project_role m (project_sound a m e) (level_sound role m (project_real a m e) h))
  to_matrix (session_role k i (m, e, h)) = inl (
      by_session_role m k (in_sound r i) (session_sound a m e)
        (level_sound role m (session_real a m e) h))
  to_matrix (session_creator k i c o u) =
      let creator : Creator p a r = record {
        of_session = k;
        of_project = in_sound r i;
        action = c;
        owns = o;
        named = u;
      } in
      elim (rank role) [ inl m ↦ inl (member_creator creator m) | inr s ↦ inr (s, creator) ]
  to_matrix (own_session k i c o) = inl (personal_session k (out_sound r i) (own_sound a c) o)
  to_matrix (catalogue k c) = inl (public_catalogue k c)
  to_matrix (scoped_role k i (m, e, h)) = inl (
      by_scoped_role m k (in_sound r i) (scoped_sound a m e)
        (level_sound role m (scoped_real a m e) h))
  to_matrix (own_scoped k i c o) =
      let (m, e) = scoped_some a c in
      inl (personal_scoped m k (out_sound r i) (scoped_sound a m e) o)
  to_matrix (own_probe k c o u) = inl (registrar k (probe_sound a c) o u)

  exempted : Creator p a r → Grant p a r role
  exempted c = session_creator c.of_session (in_complete r c.of_project) c.action c.owns c.named

  from_matrix : Ground p a r role ⊎ Extra p a r role → Grant p a r role
  from_matrix (inr (s, c)) = exempted c
  from_matrix (inl (by_project_role m t l)) =
      let e = project_complete a m t in
      project_role (m, e, level_complete role m (project_real a m e) l)
  from_matrix (inl (by_session_role m k i t l)) =
      let e = session_complete a m t in
      session_role k (in_complete r i) (m, e, level_complete role m (session_real a m e) l)
  from_matrix (inl (member_creator c m)) = exempted c
  from_matrix (inl (personal_session k i c o)) =
      own_session k (out_complete r i) (own_complete a c) o
  from_matrix (inl (public_catalogue k c)) = catalogue k c
  from_matrix (inl (by_scoped_role m k i t l)) =
      let e = scoped_complete a m t in
      scoped_role k (in_complete r i) (m, e, level_complete role m (scoped_real a m e) l)
  from_matrix (inl (personal_scoped m k i t o)) =
      own_scoped k (out_complete r i) (λ n. absurd (cc (n, scoped_complete a m t))) o
  from_matrix (inl (registrar k c o u)) = own_probe k (probe_complete a c) o u

-- Decide allows an action exactly when the tenants agree and the caller is a global administrator, or
-- has a ground of the matrix, written out action by action and role by role, or is the creator, with no
-- role in the project, of a session of a project who deletes it or moves it, which the matrix does not
-- grant.
pub decide-Ground :
    (p : Principal) (a : Action) (r : Resource) (role : Role)
    → (decide p a r role ≡ none) ↔ (
        (principal_tenant p ≡ resource_tenant r)
        × ((p.is_admin ≡ true) ⊎ (Ground p a r role ⊎ Extra p a r role)))
decide-Ground p a r role = (sound, complete)
  where
    sound :
        decide p a r role ≡ none
        → (principal_tenant p ≡ resource_tenant r)
          × ((p.is_admin ≡ true) ⊎ (Ground p a r role ⊎ Extra p a r role))
    sound h =
        let (t, g) = decide_sound p a r role h in
        (t, elim g [ inl adm ↦ inl adm | inr x ↦ inr (to_matrix p a r role x) ])

    complete :
        (principal_tenant p ≡ resource_tenant r)
          × ((p.is_admin ≡ true) ⊎ (Ground p a r role ⊎ Extra p a r role))
        → decide p a r role ≡ none
    complete (t, inl adm) = decide_complete p a r role (t, inl adm)
    complete (t, inr g) = decide_complete p a r role (t, inr (from_matrix p a r role g))
