-- ===== src/Authz/Roles.antt =====
-- How the decision of pkg/authz/authz.go depends on the role and on the relation to the project.
use gametrace.Prelude.{true, false, ◌≡◌, ◌≢◌, ◌≤◌, ◌⊎◌, inl, inr, none, arith, ◌↔◌}
use gametrace.Authz.{
  Action, Role, Resource, Principal, session, probe, stranger, plugin_read, session_delete,
  session_move_project, is_probe_action, in_project, role_level, principal_tenant, resource_tenant,
  decide, probe_read, probe_use, probe_control, probe_manage,
}
use gametrace.Authz.Permits.{Grant, Owns, IsScoped, decide_sound, decide_complete}
use gametrace.Authz.Permits.{
  project_role, session_role, session_creator, own_session, catalogue, scoped_role, own_scoped,
  own_probe,
}

allow_mono :
    (p : Principal) (a : Action) (r : Resource) (low high : Role)
    → role_level low ≤ role_level high
    → Grant p a r low
    → Grant p a r high
allow_mono p a r low high le (project_role (m, e, h)) = project_role (m, e, omega arith)
allow_mono p a r low high le (session_role k i (m, e, h)) = session_role k i (m, e, omega arith)
allow_mono p a r low high le (session_creator k i c o u) = session_creator k i c o u
allow_mono p a r low high le (own_session k i c o) = own_session k i c o
allow_mono p a r low high le (catalogue k c) = catalogue k c
allow_mono p a r low high le (scoped_role k i (m, e, h)) = scoped_role k i (m, e, omega arith)
allow_mono p a r low high le (own_scoped k i c o) = own_scoped k i c o
allow_mono p a r low high le (own_probe k c o u) = own_probe k c o u

-- A higher role in the project never loses an action that a lower one is allowed.
pub decide_mono :
    (p : Principal) (a : Action) (r : Resource) (low high : Role)
    → role_level low ≤ role_level high
    → decide p a r low ≡ none
    → decide p a r high ≡ none
decide_mono p a r low high le h =
    let (t, ground_for) = decide_sound p a r low h in
    elim ground_for [
      | inl adm ↦ decide_complete p a r high (t, inl adm)
      | inr g ↦ decide_complete p a r high (t, inr (allow_mono p a r low high le g))
    ]

-- What is left to a caller with no role in the project of the resource.
abbrev pub StrangerGrant : Principal → Action → Resource → Type 0
StrangerGrant p a r =
    (IsScoped r.kind × (a ≡ plugin_read))
    ⊎ (((r.kind ≡ session)
          × ((a ≡ session_delete) ⊎ (a ≡ session_move_project))
          × Owns p r
          × (p.user ≢ ""))
        ⊎ ((r.kind ≡ probe)
            × ((a ≡ probe_read) ⊎ ((a ≡ probe_use) ⊎ ((a ≡ probe_control) ⊎ (a ≡ probe_manage))))
            × Owns p r
            × (p.user ≢ "")))

stranger-Grant :
    (p : Principal) (a : Action) (r : Resource)
    → in_project r ≡ true
    → Grant p a r stranger
    → StrangerGrant p a r
stranger-Grant p a r i (project_role (m, e, h)) = ground arith
stranger-Grant p a r i (session_role k _ (m, e, h)) = ground arith
stranger-Grant p a r i (session_creator k _ c o u) = inr (inl (k, c, o, u))
stranger-Grant p a r i (own_session k n c o) = cc
stranger-Grant p a r i (catalogue k c) = inl (k, c)
stranger-Grant p a r i (scoped_role k _ (m, e, h)) = ground arith
stranger-Grant p a r i (own_scoped k n c o) = cc
stranger-Grant p a r i (own_probe k c o u) = inr (inr (k, ground arith, o, u))

from_stranger :
    (p : Principal) (a : Action) (r : Resource)
    → in_project r ≡ true
    → StrangerGrant p a r
    → Grant p a r stranger
from_stranger p a r i (inl (k, c)) = catalogue k c
from_stranger p a r i (inr (inl (k, c, o, u))) = session_creator k i c o u
from_stranger p a r i (inr (inr (k, c, o, u))) = own_probe k (ground arith) o u

-- On a resource of a project, of the caller's tenant, a caller who is no global administrator and has no
-- role in the project can read the catalogue of a plugin or a lease, delete or move a session that they
-- created, and act on a probe that they registered, and can do nothing else; for the last two the user
-- must not be anonymous.
pub decide-stranger :
    (p : Principal) (a : Action) (r : Resource)
    → in_project r ≡ true
    → p.is_admin ≡ false
    → principal_tenant p ≡ resource_tenant r
    → (decide p a r stranger ≡ none) ↔ StrangerGrant p a r
decide-stranger p a r i plain t = (sound, complete)
  where
    sound : decide p a r stranger ≡ none → StrangerGrant p a r
    sound h =
        let (_, ground_for) = decide_sound p a r stranger h in
        elim ground_for [ inl adm ↦ cc | inr g ↦ stranger-Grant p a r i g ]

    complete : StrangerGrant p a r → decide p a r stranger ≡ none
    complete g = decide_complete p a r stranger (t, inr (from_stranger p a r i g))

-- The creator of a project's session who has no role in the project can still delete the session and
-- move it, though not read or use it.
pub stranger-creator_deletes :
    (p : Principal) (a : Action) (r : Resource)
    → principal_tenant p ≡ resource_tenant r
    → r.kind ≡ session
    → in_project r ≡ true
    → (a ≡ session_delete) ⊎ (a ≡ session_move_project)
    → Owns p r
    → p.user ≢ ""
    → decide p a r stranger ≡ none
stranger-creator_deletes p a r t k i c o u =
    decide_complete p a r stranger (t, inr (session_creator k i c o u))

anonymous-Grant :
    (p : Principal) (a : Action) (r : Resource)
    → p.user ≡ ""
    → Grant p a r stranger
    → (a ≡ plugin_read) ⊎ ((in_project r ≡ false) × (r.creator_id ≡ ""))
anonymous-Grant p a r e (project_role (m, f, h)) = ground arith
anonymous-Grant p a r e (session_role k _ (m, f, h)) = ground arith
anonymous-Grant p a r e (session_creator k _ c o u) = absurd (u e)
anonymous-Grant p a r e (own_session k n c o) = inr (n, cc)
anonymous-Grant p a r e (catalogue k c) = inl c
anonymous-Grant p a r e (scoped_role k _ (m, f, h)) = ground arith
anonymous-Grant p a r e (own_scoped k n c o) = inr (n, cc)
anonymous-Grant p a r e (own_probe k c o u) = absurd (u e)

-- An anonymous caller, who has no user name and no role, is allowed only to read the plugin
-- catalogue and to act on resources that no project and no user owns.
pub decide-anonymous :
    (p : Principal) (a : Action) (r : Resource)
    → p.user ≡ ""
    → p.is_admin ≡ false
    → decide p a r stranger ≡ none
    → (a ≡ plugin_read) ⊎ ((in_project r ≡ false) × (r.creator_id ≡ ""))
decide-anonymous p a r e plain h =
    let (t, ground_for) = decide_sound p a r stranger h in
    elim ground_for [ inl adm ↦ cc | inr g ↦ anonymous-Grant p a r e g ]

-- A probe answers to its registrar alone, whatever the role and the project.
pub decide-probe_owner :
    (p : Principal) (a : Action) (r : Resource) (role : Role)
    → r.kind ≡ probe
    → is_probe_action a ≡ true
    → p.is_admin ≡ false
    → decide p a r role ≡ none
    → Owns p r × (p.user ≢ "")
decide-probe_owner p a r role k c plain h =
    let (t, ground_for) = decide_sound p a r role h in
    elim ground_for [ inl adm ↦ cc | inr g ↦ from_grant g ]
  where
    from_grant : Grant p a r role → Owns p r × (p.user ≢ "")
    from_grant (project_role (m, f, h)) = ground arith
    from_grant (session_role k' _ (m, f, h)) = cc
    from_grant (session_creator k' _ c o u) = cc
    from_grant (own_session k' n c o) = cc
    from_grant (catalogue k' c) = ground arith
    from_grant (scoped_role k' _ (m, f, h)) = ground arith
    from_grant (own_scoped k' n c o) = ground arith
    from_grant (own_probe k' c o u) = (o, u)
