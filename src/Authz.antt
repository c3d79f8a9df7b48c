-- ===== src/Authz.antt =====
-- pkg/authz/authz.go: the authorization policy. `nil` is `none`; an error that wraps ErrForbidden is
-- the reason for it, without the text of its message. `Permits` is the policy's grants, `Matrix` the
-- table of roles that the documents give, and `Roles` how a decision depends on the role.
pub mod Permits
pub mod Matrix
pub mod Roles
mod Tests
use gametrace.Prelude.{
  ℕ, String, Bool, true, false, not, ◌&&◌, ◌||◌, Option, none, some, leb, if◌then◌else◌, test,
}
use gametrace.Prelude.Text.{text_dec}

-- Action is a string; `other` stands for one that no constant names.
pub data Action : Type 0 where
  project_read project_update project_delete project_manage_members : Action
  project_manage_plugins project_manage_rules project_transfer_owner : Action
  session_read session_use session_delete session_move_project : Action
  plugin_read plugin_use plugin_manage : Action
  lease_use lease_release : Action
  probe_read probe_use probe_control probe_manage : Action
  user_manage : Action
  other : String → Action

pub data Kind : Type 0 where
  project session plugin lease probe user : Kind
  other : String → Kind

abbrev pub default_tenant : String
default_tenant = "default"

pub record Resource : Type 0 where
  pub kind : Kind
  pub id : String
  pub tenant_id : String
  pub project_id : String
  pub creator_id : String

pub record Principal : Type 0 where
  pub user : String
  pub tenant : String
  pub is_admin : Bool

-- RoleNone is `stranger`.
pub data Role : Type 0 where
  stranger member admin owner : Role

pub data Denial : Type 0 where
  tenant_mismatch role_too_low unsupported not_accessible needs_global_admin : Denial

abbrev pub is_empty : String → Bool
is_empty s = test (text_dec s "")

abbrev pub same : String → String → Bool
same s t = test (text_dec s t)

abbrev pub or_default : String → String
or_default s = if is_empty s then default_tenant else s

-- Resource.Tenant
abbrev pub resource_tenant : Resource → String
resource_tenant r = or_default r.tenant_id

-- Principal.TenantID
abbrev pub principal_tenant : Principal → String
principal_tenant p = or_default p.tenant

abbrev pub in_project : Resource → Bool
in_project r = not (is_empty r.project_id)

abbrev pub role_level : Role → ℕ
role_level owner = 3
role_level admin = 2
role_level member = 1
role_level stranger = 0

abbrev pub role_at_least : Role → Role → Bool
role_at_least got want = leb (role_level want) (role_level got)

-- projectActionRole
abbrev pub project_action_role : Action → Option Role
project_action_role project_read = some member
project_action_role project_update = some owner
project_action_role project_delete = some owner
project_action_role project_manage_members = some admin
project_action_role project_manage_plugins = some admin
project_action_role project_manage_rules = some admin
project_action_role project_transfer_owner = some owner
project_action_role _ = none

-- sessionProjectActionRole
abbrev pub session_project_action_role : Action → Option Role
session_project_action_role session_read = some member
session_project_action_role session_use = some member
session_project_action_role session_delete = some admin
session_project_action_role session_move_project = some admin
session_project_action_role _ = none

abbrev pub member_creator_allowed : Action → Bool
member_creator_allowed session_delete = true
member_creator_allowed session_move_project = true
member_creator_allowed _ = false

abbrev pub is_session_action : Action → Bool
is_session_action session_read = true
is_session_action session_use = true
is_session_action session_delete = true
is_session_action session_move_project = true
is_session_action _ = false

-- The branch of decideSession for a session that belongs to a project.
unfoldable pub decide_project_session : Principal → Action → Resource → Role → Option Denial
decide_project_session p a r role = elim (session_project_action_role a) [
  | none ↦ some unsupported
  | some min_role ↦
      if role_at_least role min_role
      then none
      else if member_creator_allowed a && same r.creator_id p.user && not (is_empty p.user)
      then none
      else some role_too_low
]

unfoldable pub decide_session : Principal → Action → Resource → Role → Option Denial
unfolding decide_project_session
decide_session p a r role =
    if in_project r
    then decide_project_session p a r role
    else if is_session_action a && same r.creator_id p.user
    then none
    else some not_accessible

abbrev pub is_probe_action : Action → Bool
is_probe_action probe_read = true
is_probe_action probe_use = true
is_probe_action probe_control = true
is_probe_action probe_manage = true
is_probe_action _ = false

unfoldable pub decide_probe : Principal → Action → Resource → Option Denial
decide_probe p a r =
    if not (is_probe_action a)
    then some unsupported
    else if not (is_empty r.creator_id) && same r.creator_id p.user
    then none
    else some not_accessible

-- A case of decideProjectScoped: a role inside the project, the creator outside it.
unfoldable pub decide_use : Principal → Resource → Role → Role → Option Denial
decide_use p r role min_role =
    if in_project r
    then (if role_at_least role min_role then none else some role_too_low)
    else if same r.creator_id p.user
    then none
    else some not_accessible

unfoldable pub decide_project_scoped : Principal → Action → Resource → Role → Option Denial
unfolding decide_use
decide_project_scoped p plugin_read r role = none
decide_project_scoped p plugin_use r role = decide_use p r role member
decide_project_scoped p lease_use r role = decide_use p r role member
decide_project_scoped p lease_release r role = decide_use p r role member
decide_project_scoped p plugin_manage r role = decide_use p r role admin
decide_project_scoped p _ r role = some unsupported

-- The switch of Decide on the kind of the resource.
unfoldable pub decide_kind : Kind → Principal → Action → Resource → Role → Option Denial
unfolding decide_session decide_project_scoped decide_probe
decide_kind session p a r role = decide_session p a r role
decide_kind plugin p a r role = decide_project_scoped p a r role
decide_kind lease p a r role = decide_project_scoped p a r role
decide_kind probe p a r role = decide_probe p a r
decide_kind user p a r role = some needs_global_admin
decide_kind project p a r role = some unsupported
decide_kind (other k) p a r role = some unsupported

unfoldable pub decide : Principal → Action → Resource → Role → Option Denial
unfolding decide_kind
decide p a r role =
    if not (same (principal_tenant p) (resource_tenant r))
    then some tenant_mismatch
    else if p.is_admin
    then none
    else elim (project_action_role a) [
      | some min_role ↦ if role_at_least role min_role then none else some role_too_low
      | none ↦ decide_kind r.kind p a r role
    ]
