-- ===== src/Authz/Permits.antt =====
-- The grounds on which the code of pkg/authz/authz.go lets a caller act, by its own tables of roles.
use gametrace.Prelude.{
  true, false, ◌≡◌, ◌≢◌, ◌≤◌, ◌⊎◌, inl, inr, Option, none, some, arith, Option-cases, Bool-cases,
}
use gametrace.Authz.{
  Action, Kind, Role, Resource, Principal, session, plugin, lease, probe, member, admin,
  plugin_read, plugin_use, plugin_manage, lease_use, lease_release, session_delete,
  session_move_project, is_session_action, is_probe_action, in_project, role_level,
  project_action_role, session_project_action_role, principal_tenant, resource_tenant, decide,
  decide_kind, decide_session, decide_probe, decide_project_scoped,
}

-- The role that a use of a plugin or of a lease asks for inside its project.
abbrev pub scoped_action_role : Action → Option Role
scoped_action_role plugin_use = some member
scoped_action_role lease_use = some member
scoped_action_role lease_release = some member
scoped_action_role plugin_manage = some admin
scoped_action_role _ = none

abbrev pub HasRole : Option Role → Role → Type 0
HasRole needed role = (m : Role) × (needed ≡ some m) × (role_level m ≤ role_level role)

-- The resource belongs to the caller.
abbrev pub Owns : Principal → Resource → Type 0
Owns p r = r.creator_id ≡ p.user

abbrev pub IsScoped : Kind → Type 0
IsScoped k = (k ≡ plugin) ⊎ (k ≡ lease)

-- The grounds on which the code lets a caller act who is no global administrator.
pub data Grant (p : Principal) (a : Action) (r : Resource) (role : Role) : Type 0 where
  project_role : HasRole (project_action_role a) role → Grant p a r role
  session_role :
      r.kind ≡ session
      → in_project r ≡ true
      → HasRole (session_project_action_role a) role
      → Grant p a r role
  session_creator :
      r.kind ≡ session
      → in_project r ≡ true
      → (a ≡ session_delete) ⊎ (a ≡ session_move_project)
      → Owns p r
      → p.user ≢ ""
      → Grant p a r role
  own_session :
      r.kind ≡ session
      → in_project r ≡ false
      → is_session_action a ≡ true
      → Owns p r
      → Grant p a r role
  catalogue : IsScoped r.kind → a ≡ plugin_read → Grant p a r role
  scoped_role :
      IsScoped r.kind → in_project r ≡ true → HasRole (scoped_action_role a) role → Grant p a r role
  own_scoped :
      IsScoped r.kind
      → in_project r ≡ false
      → scoped_action_role a ≢ none
      → Owns p r
      → Grant p a r role
  own_probe : r.kind ≡ probe → is_probe_action a ≡ true → Owns p r → p.user ≢ "" → Grant p a r role

abbrev pub Permits : Principal → Action → Resource → Role → Type 0
Permits p a r role =
    (principal_tenant p ≡ resource_tenant r) × ((p.is_admin ≡ true) ⊎ Grant p a r role)

ruleset grounds = (
  project_role, session_role, session_creator, own_session, catalogue, scoped_role, own_scoped,
  own_probe,
)

module _ (p : Principal) (a : Action) (r : Resource) (role : Role) where
  session_sound : r.kind ≡ session → decide_session p a r role ≡ none → Grant p a r role
  unfolding decide_session
  session_sound k h = grind (arith, session_role, session_creator, own_session)

  probe_sound : r.kind ≡ probe → decide_probe p a r ≡ none → Grant p a r role
  unfolding decide_probe
  probe_sound k h = grind (arith, own_probe)

  scoped_sound : IsScoped r.kind → decide_project_scoped p a r role ≡ none → Grant p a r role
  unfolding decide_project_scoped
  scoped_sound k h = grind (arith, catalogue, scoped_role, own_scoped)

  kind_sound :
      project_action_role a ≡ none → decide_kind r.kind p a r role ≡ none → Grant p a r role
  unfolding decide_kind
  kind_sound np h = ground (arith, session_sound, probe_sound, scoped_sound)

  -- What `decide` lets through has a ground.
  pub decide_sound : decide p a r role ≡ none → Permits p a r role
  unfolding decide
  decide_sound h = (
    ground arith,
    elim (Bool-cases p.is_admin) [
      | inl adm ↦ inl adm
      | inr plain ↦ inr (elim (Option-cases (project_action_role a)) [
        | inl n ↦ kind_sound n (ground arith)
        | inr (m, e) ↦ project_role (m, e, ground arith)
      ])
    ],
  )

  allow_complete :
      Grant p a r role → project_action_role a ≡ none → decide_kind r.kind p a r role ≡ none
  unfolding decide_kind decide_session decide_probe decide_project_scoped
  allow_complete (project_role (m, e, h)) n = cc
  allow_complete (session_role k i (m, e, h)) n = ground arith
  allow_complete (session_creator k i c o u) n = ground arith
  allow_complete (own_session k i c o) n = ground arith
  allow_complete (catalogue k c) n = ground arith
  allow_complete (scoped_role k i (m, e, h)) n = ground arith
  allow_complete (own_scoped k i c o) n = ground arith
  allow_complete (own_probe k c o u) n = ground arith

  Grant-project :
      (m : Role)
      → project_action_role a ≡ some m
      → Grant p a r role
      → role_level m ≤ role_level role
  Grant-project m e (project_role (m', e', h)) = ground arith
  Grant-project m e (session_role k i (m', e', h)) = ground arith
  Grant-project m e (session_creator k i c o u) = ground arith
  Grant-project m e (own_session k i c o) = ground arith
  Grant-project m e (catalogue k c) = ground arith
  Grant-project m e (scoped_role k i (m', e', h)) = ground arith
  Grant-project m e (own_scoped k i c o) = ground arith
  Grant-project m e (own_probe k c o u) = ground arith

  pub decide_complete : Permits p a r role → decide p a r role ≡ none
  unfolding decide
  decide_complete (t, inl adm) = ground arith
  decide_complete (t, inr g) = elim (Option-cases (project_action_role a)) [
    | inl n ↦ ground (arith, allow_complete g n)
    | inr (m, e) ↦ ground (arith, Grant-project m e g)
  ]
