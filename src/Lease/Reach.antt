-- ===== src/Lease/Reach.antt =====
-- The states that any interleaving of the lease operations reaches.
use gametrace.Prelude.{ℕ, String, ◌≡◌, Bool, none, some, ℕ_discrete}
use gametrace.Prelude.Map.{lookup}
use gametrace.Prelude.Text.{text_dec}
use gametrace.Lease.Service.{
  ProxyLease, Creation, Start, Service, new_service, create_begin, create_fail, create_commit,
  start_begin, start_fail, start_commit, clear_lease_capture, reclaim_lease,
}
use gametrace.Lease.Safety.{
  Safe, new_service-Safe, create_fail-Safe, create_commit-Safe, reclaim_lease-Safe,
}
use gametrace.Lease.Creating.{create_begin-Safe}
use gametrace.Lease.Captures.{
  start_begin-Safe, start_fail-Safe, start_commit-Safe, clear_lease_capture-Safe,
}

-- A step of one of the calls that are on their way, or of one that begins. A number is not used again
-- while its call is on its way.
pub data Step : Service → Service → Type 0 where
  begins :
      {s : Service} (call : ℕ) (owner device : String) (no_sticky : Bool)
      → lookup ℕ_discrete call s.creating ≡ none
      → Step s (create_begin call owner device no_sticky s)
  fails :
      {s : Service} (call : ℕ) (c : Creation)
      → lookup ℕ_discrete call s.creating ≡ some c
      → Step s (create_fail call c s)
  commits :
      {s : Service} (call : ℕ) (id : String) (c : Creation)
      → lookup ℕ_discrete call s.creating ≡ some c
      → Step s (create_commit call id c s)
  starts :
      {s : Service} (call : ℕ) (id : String) (running : Bool)
      → lookup ℕ_discrete call s.starting ≡ none
      → Step s (start_begin call id running s)
  start_fails :
      {s : Service} (call : ℕ) (r : Start)
      → lookup ℕ_discrete call s.starting ≡ some r
      → Step s (start_fail call r s)
  start_commits :
      {s : Service} (call : ℕ) (r : Start) (session : String)
      → lookup ℕ_discrete call s.starting ≡ some r
      → Step s (start_commit call r session s)
  clears :
      {s : Service} (id : String) (l : ProxyLease)
      → lookup text_dec id s.leases ≡ some l
      → Step s (clear_lease_capture id l s)
  reclaims : {s : Service} (id : String) → Step s (reclaim_lease id s)

pub data Reach : Service → Type 0 where
  start : Reach new_service
  later : {s t : Service} → Reach s → Step s t → Reach t

Step-Safe : {s t : Service} → Step s t → Safe s → Safe t
Step-Safe (begins {s} call owner device no_sticky new) h =
    create_begin-Safe call owner device no_sticky s h
Step-Safe (fails {s} call c found) h = create_fail-Safe call c s found h
Step-Safe (commits {s} call id c found) h = create_commit-Safe call id c s found h
Step-Safe (starts {s} call id running new) h = start_begin-Safe call id running s h
Step-Safe (start_fails {s} call r found) h = start_fail-Safe call r s h
Step-Safe (start_commits {s} call r session found) h = start_commit-Safe call r session s h
Step-Safe (clears {s} id l found) h = clear_lease_capture-Safe id l s found h
Step-Safe (reclaims {s} id) h = reclaim_lease-Safe id s h

-- However the operations come between one another, no two leases, nor creations on their way, have
-- one control port, or one agent port other than 0; the ports that they have are marked as used; and
-- no owner has more than five leases.
pub Reach-Safe : {s : Service} → Reach s → Safe s
Reach-Safe start = new_service-Safe
Reach-Safe (later r step) = Step-Safe step (Reach-Safe r)
