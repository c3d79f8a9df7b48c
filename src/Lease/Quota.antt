-- ===== src/Lease/Quota.antt =====
-- How many leases an owner has.
use gametrace.Prelude.{◌+◌, ◌≤◌, String, ◌≡◌, [], ◌∷◌, some, arith, if◌then◌else◌}
use gametrace.Prelude.Map.{Map, lookup, insert, delete}
use gametrace.Prelude.Text.{text_dec}
use gametrace.Lease.Service.{ProxyLease, is_owned, count_leases}

pub count_leases-delete-le :
    (owner id : String) (ls : Map String ProxyLease)
    → count_leases owner (delete text_dec id ls) ≤ count_leases owner ls
unfolding count_leases delete
count_leases-delete-le owner id [] = omega arith
count_leases-delete-le owner id ((k, l) ∷ ls) = ground (arith, count_leases-delete-le owner id ls)

count_leases-delete_found :
    (owner id : String) (l : ProxyLease) (ls : Map String ProxyLease)
    → lookup text_dec id ls ≡ some l
    → (if is_owned owner (id, l) then 1 else 0) + count_leases owner (delete text_dec id ls)
      ≤ count_leases owner ls
unfolding count_leases delete lookup
count_leases-delete_found owner id l [] h = absurd (ground arith)
count_leases-delete_found owner id l ((k, m) ∷ ls) h =
    ground (arith, count_leases-delete_found owner id l ls, count_leases-delete-le owner id ls)

-- A new lease of another owner, or of one that has room.
pub count_leases-insert-le :
    (owner id : String) (l : ProxyLease) (ls : Map String ProxyLease)
    → count_leases owner (insert text_dec id l ls)
      ≤ (if is_owned owner (id, l) then 1 else 0) + count_leases owner ls
unfolding count_leases insert
count_leases-insert-le owner id l ls = ground (arith, count_leases-delete-le owner id ls)

-- A lease that stays with its owner.
pub count_leases-change-le :
    (owner id : String) (l k : ProxyLease) (ls : Map String ProxyLease)
    → lookup text_dec id ls ≡ some l
    → k.owner ≡ l.owner
    → count_leases owner (insert text_dec id k ls) ≤ count_leases owner ls
unfolding count_leases insert
count_leases-change-le owner id l k ls h e =
    ground (arith, count_leases-delete_found owner id l ls h)
