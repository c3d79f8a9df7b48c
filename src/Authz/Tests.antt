-- ===== src/Authz/Tests.antt =====
-- Runs of the authorization policy of pkg/authz/authz.go.
use gametrace.Prelude.{true, ◌⊎◌, false, ◌≡◌, ◌≢◌, ◌↔◌, refl, none, some, arith}
use gametrace.Prelude.Text.{text_dec}
use gametrace.Authz.{
  Resource, Principal, session, probe, stranger, member, admin, owner, session_read, session_delete,
  decide, role_too_low, tenant_mismatch, principal_tenant, resource_tenant,
}
use gametrace.Authz.Matrix.{Ground, Extra, decide-Ground}
use gametrace.Authz.Roles.{StrangerGrant, decide_mono, decide-stranger}

abbrev alice : Principal
alice = record { user = "alice"; tenant = ""; is_admin = false }

abbrev nobody : Principal
nobody = record { user = ""; tenant = ""; is_admin = false }

abbrev raid : Resource
raid = record {
  kind = session;
  id = "s1";
  tenant_id = "default";
  project_id = "p1";
  creator_id = "alice";
}

abbrev legacy : Resource
legacy = record { kind = session; id = "s0"; tenant_id = ""; project_id = ""; creator_id = "" }

abbrev rig : Resource
rig = record { kind = probe; id = "b1"; tenant_id = ""; project_id = "p1"; creator_id = "alice" }

member_reads : decide alice session_read raid member ≡ none
unfolding decide text_dec
member_reads = refl

stranger_reads : decide alice session_read raid stranger ≡ some role_too_low
unfolding decide text_dec
stranger_reads = refl

other_tenant :
    decide (record alice { tenant = "t2" }) session_read raid owner ≡ some tenant_mismatch
unfolding decide text_dec
other_tenant = refl

alice_is_not_anonymous : alice.user ≢ ""
alice_is_not_anonymous e = cc

decide-Ground_example : (decide alice session_read raid member ≡ none) ↔ (
    (principal_tenant alice ≡ resource_tenant raid)
    × ((alice.is_admin ≡ true)
        ⊎ (Ground alice session_read raid member ⊎ Extra alice session_read raid member)))
decide-Ground_example = decide-Ground alice session_read raid member

decide_mono_example : decide alice session_read raid admin ≡ none
unfolding decide text_dec
decide_mono_example = decide_mono alice session_read raid member admin (omega arith) refl

decide-stranger_example :
    (decide alice session_delete raid stranger ≡ none) ↔ StrangerGrant alice session_delete raid
unfolding text_dec
decide-stranger_example = decide-stranger alice session_delete raid refl refl refl
