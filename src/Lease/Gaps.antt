-- ===== src/Lease/Gaps.antt =====
-- Two runs in which the operations give less than they promise.
use gametrace.Prelude.{
  ℕ, suc, ◌<◌, String, ◌≡◌, ◌≢◌, refl, sym, ap, subst, ◌∙◌, Bool, true, false, ◌∷◌, Option, none,
  some, arith, ℕ_discrete, inl, inr, Option-cases,
}
use gametrace.Prelude.Map.{lookup, insert, lookup-insert_self}
use gametrace.Prelude.Text.{text_dec}
use gametrace.Lease.Ports.{PortRange, is_used, allocate, reserve}
use gametrace.Lease.Allocation.{IsRange, InRange, Outcome, Gives, allocate-Outcome}
use gametrace.Lease.Service.{
  ProxyLease, Creation, Service, next_agent_port, allocate_agent_port, sticky_key, create_begin,
  start_begin, start_commit, count_leases, max_leases_per_owner,
}

reserve_exhausted :
    (p : ℕ) (pr : PortRange)
    → ((q : ℕ) → InRange q pr → is_used q pr.used ≡ true)
    → reserve p pr ≡ none
unfolding reserve
reserve_exhausted p pr full = ground (arith, full p)

allocate_exhausted :
    (pr : PortRange) (o : Option (ℕ × PortRange))
    → ((q : ℕ) → InRange q pr → is_used q pr.used ≡ true)
    → Outcome pr o
    → o ≡ none
unfolding Outcome
allocate_exhausted pr none full g = refl
allocate_exhausted pr (some (p, next)) full g = absurd (cc (full p g.in_range, g.was_free))

given :
    (pr : PortRange) (p : ℕ) (next : PortRange)
    → IsRange pr
    → allocate pr ≡ some (p, next)
    → Gives pr p next
unfolding Outcome
given pr p next r e = subst (Outcome pr) e (allocate-Outcome pr r)

exhausted-port :
    (owner device : String) (no_sticky : Bool) (s : Service)
    → IsRange s.agent_ports
    → ((q : ℕ) → InRange q s.agent_ports → is_used q s.agent_ports.used ≡ true)
    → (allocate_agent_port owner device no_sticky s).0 ≡ 0
unfolding allocate_agent_port next_agent_port
exhausted-port owner device no_sticky s r full =
    let e =
      allocate_exhausted s.agent_ports (allocate s.agent_ports) full
        (allocate-Outcome s.agent_ports r) in
    let refuse = λ (p : ℕ). reserve_exhausted p s.agent_ports full in
    elim (Option-cases (lookup text_dec (sticky_key owner device) s.sticky_ports)) [
      | inl unknown ↦ ground arith
      | inr (p, known) ↦ ground (arith, refuse p)
    ]

-- When every agent port is taken, CreateProxyLease does not report it: a creation of an owner with
-- room for a lease, which still finds a control port, goes on with the agent port 0.
pub create_begin_exhausted :
    (call : ℕ) (owner device : String) (no_sticky : Bool) (s : Service) (ctrl : ℕ)
    (ctrls : PortRange)
    → IsRange s.agent_ports
    → ((q : ℕ) → InRange q s.agent_ports → is_used q s.agent_ports.used ≡ true)
    → count_leases owner s.leases < max_leases_per_owner
    → allocate s.ctrl_ports ≡ some (ctrl, ctrls)
    → (c : Creation) × (lookup ℕ_discrete call (create_begin call owner device no_sticky s).creating
        ≡ some c)
      × (c.agent_port ≡ 0)
unfolding create_begin
create_begin_exhausted call owner device no_sticky s ctrl ctrls r full few free =
    let (agent, sticky, agents) = allocate_agent_port owner device no_sticky s in
    let c : Creation = record {
      owner = owner;
      device = device;
      agent_port = agent;
      ctrl_port = ctrl;
      sticky = sticky;
    } in
    let e = lookup-insert_self ℕ_discrete call c s.creating in
    (c, ground arith, exhausted-port owner device no_sticky s r full)

start_begin_ok :
    (call : ℕ) (id : String) (l : ProxyLease) (p : ℕ) (next : PortRange) (s : Service)
    → lookup text_dec id s.leases ≡ some l
    → l.session ≡ ""
    → allocate s.grpc_ports ≡ some (p, next)
    → start_begin call id true s ≡ record s {
      grpc_ports = next;
      starting = insert ℕ_discrete call (record { lease = id; grpc_port = p }) s.starting;
    }
unfolding start_begin
start_begin_ok call id l p next s found idle free = ground arith

start_commit_ok :
    (call : ℕ) (id session : String) (p : ℕ) (l : ProxyLease) (s : Service)
    → lookup text_dec id s.leases ≡ some l
    → (start_commit call (record { lease = id; grpc_port = p }) session s).grpc_ports ≡ s.grpc_ports
      × (lookup text_dec id
            (start_commit call (record { lease = id; grpc_port = p }) session s).leases
          ≡ some
              (record l { session = session; grpc_port = p; capture_count = suc l.capture_count }))
unfolding start_commit
start_commit_ok call id session p l s found =
    let k : ProxyLease = record l {
      session = session;
      grpc_port = p;
      capture_count = suc l.capture_count;
    } in
    let e = lookup-insert_self text_dec id k s.leases in (ground arith, ground arith)

-- The two calls, each cut where the code gives up the lock.
abbrev pub raced : String → String → String → ℕ → ℕ → ℕ → ℕ → Service → Service
raced id x y a b p q s =
    start_commit b (record { lease = id; grpc_port = q }) y
      (start_commit a (record { lease = id; grpc_port = p }) x
        (start_begin b id true (start_begin a id true s)))

-- Two captures are started on one idle lease, and neither is done when the other begins: both go on,
-- and the port of the first stays marked as used although the lease now has that of the second.
pub raced-loses :
    (id x y : String) (l : ProxyLease) (a b p q : ℕ) (first second : PortRange) (s : Service)
    → lookup text_dec id s.leases ≡ some l
    → l.session ≡ ""
    → IsRange s.grpc_ports
    → allocate s.grpc_ports ≡ some (p, first)
    → allocate first ≡ some (q, second)
    → (is_used p (raced id x y a b p q s).grpc_ports.used ≡ true)
      × ((k : ProxyLease) × (lookup text_dec id (raced id x y a b p q s).leases ≡ some k)
          × (k.grpc_port ≡ q)
          × (k.session ≡ y))
      × (p ≢ q)
raced-loses id x y l a b p q first second s found idle r e1 e2 =
    let g1 = given s.grpc_ports p first r e1 in
    let g2 = given first q second g1.still e2 in
    let s1 = start_begin a id true s in
    let s2 = start_begin b id true s1 in
    let k1 = start_begin_ok a id l p first s found idle e1 in
    let found1 : lookup text_dec id s1.leases ≡ some l =
      ap (λ (t : Service). lookup text_dec id t.leases) k1 ∙ found in
    let k2 =
      start_begin_ok b id l q second s1 found1 idle
        (ap (λ (t : Service). allocate t.grpc_ports) k1 ∙ e2) in
    let found2 : lookup text_dec id s2.leases ≡ some l =
      ap (λ (t : Service). lookup text_dec id t.leases) k2 ∙ found1 in
    let (ports3, found3) = start_commit_ok a id x p l s2 found2 in
    let (ports4, found4) = start_commit_ok b id y q _ _ found3 in
    let used : (raced id x y a b p q s).grpc_ports.used ≡ q ∷ (p ∷ s.grpc_ports.used) =
      ap (λ (pr : PortRange). pr.used) (ports4 ∙ (ports3 ∙ ap (λ (t : Service). t.grpc_ports) k2))
      ∙ (g2.marked ∙ ap (λ l. q ∷ l) g1.marked) in
    (
      ap (is_used p) used ∙ ground arith,
      (_, found4, refl, refl),
      λ same.
          let f : is_used q (p ∷ s.grpc_ports.used) ≡ false =
            ap (is_used q) (sym g1.marked) ∙ g2.was_free in
          ground arith,
    )
