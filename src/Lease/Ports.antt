-- ===== src/Lease/Ports.antt =====
-- portRange of cmd/gt-pipeline/proxy_lease.go. The set of used ports is a list, in which the order
-- does not matter. The lock makes an operation one step.
use gametrace.Prelude.{
  ℕ, zero, suc, ◌+◌, ◌-◌, ◌%◌, Bool, false, ◌||◌, List, [], ◌∷◌, Option, none, some, ltb, ◌==◌,
  if◌then◌else◌,
}

pub record PortRange : Type 0 where
  pub base : ℕ
  pub max : ℕ
  pub used : List ℕ
  pub cursor : ℕ

abbrev pub new_port_range : ℕ → ℕ → PortRange
new_port_range base max = record { base = base; max = max; used = []; cursor = 0 }

abbrev pub is_used : ℕ → List ℕ → Bool
is_used p [] = false
is_used p (q ∷ qs) = q == p || is_used p qs

abbrev pub remove : ℕ → List ℕ → List ℕ
remove p [] = []
remove p (q ∷ qs) = let rest = remove p qs in if q == p then rest else q ∷ rest

-- The count of ports in the range.
abbrev pub width : PortRange → ℕ
width pr = pr.max - pr.base + 1

abbrev pub port_at : PortRange → ℕ → ℕ
port_at pr i = pr.base + (pr.cursor + i) % width pr

-- The loop of allocate from round `i` on, with `k` rounds left.
unfoldable pub allocate_loop : PortRange → ℕ → ℕ → Option (ℕ × PortRange)
allocate_loop pr zero i = none
allocate_loop pr (suc k) i =
    let rest = allocate_loop pr k (suc i) in
    if is_used (port_at pr i) pr.used
    then rest
    else some (
      port_at pr i,
      record pr { used = port_at pr i ∷ pr.used; cursor = (pr.cursor + i + 1) % width pr },
    )

-- `none` is the error of an exhausted range.
unfoldable pub allocate : PortRange → Option (ℕ × PortRange)
allocate pr = allocate_loop pr (width pr) 0

-- `none` where reserve returns false.
unfoldable pub reserve : ℕ → PortRange → Option PortRange
reserve port pr =
    if ltb port pr.base || ltb pr.max port
    then none
    else if is_used port pr.used
    then none
    else some (record pr { used = port ∷ pr.used })

unfoldable pub release : ℕ → PortRange → PortRange
release port pr = record pr { used = remove port pr.used }
