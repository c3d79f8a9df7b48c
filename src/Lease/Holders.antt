-- ===== src/Lease/Holders.antt =====
-- Who holds a port: the leases in the table and the creations on their way. The lemmas are about any
-- port that a lease takes over from its creation.
use gametrace.Prelude.{
  ℕ, String, ◌≡◌, ◌≢◌, sym, ap, refl, subst, ◌∙◌, false, List, ◌∷◌, Option, none, some, [], arith,
  ℕ_discrete, inl, inr, ◌⊎◌,
}
use gametrace.Prelude.Map.{Map, lookup, insert, delete, lookup-insert, lookup-delete}
use gametrace.Prelude.Text.{text_dec}
use gametrace.Lease.Ports.{is_used, remove}
use gametrace.Lease.Service.{ProxyLease, Creation, lease_of}
use gametrace.Lease.Holding.{Holding, Holding-fewer, Holding-take, Holding-give, Holding-pass}

pub data Holder : Type 0 where
  leased : String → Holder
  begun : ℕ → Holder

Holder-discrete : Discrete Holder
Holder-discrete = hlevel (text_dec, ℕ_discrete)

abbrev pub port_of : {X : Type 0} → (X → Option ℕ) → Option X → Option ℕ
port_of f none = none
port_of f (some x) = f x

module _ (of_lease : ProxyLease → Option ℕ) (of_creation : Creation → Option ℕ) where
  unfoldable pub held : Map String ProxyLease → Map ℕ Creation → Holder → Option ℕ
  held ls cs (leased id) = port_of of_lease (lookup text_dec id ls)
  held ls cs (begun r) = port_of of_creation (lookup ℕ_discrete r cs)

  held-empty : (h : Holder) → held [] [] h ≡ none
  unfolding held lookup
  held-empty (leased id) = refl
  held-empty (begun r) = refl

  pub Holding-empty : (used : List ℕ) → Holding (held [] []) used
  Holding-empty used = record {
    apart = λ h k p x y. absurd (cc (held-empty h, x));
    marked = λ h p x. absurd (cc (held-empty h, x));
  }

  module _ (ls : Map String ProxyLease) (cs : Map ℕ Creation) where
    held-begin :
        (r : ℕ) (c : Creation) (h : Holder) (q : ℕ)
        → held ls (insert ℕ_discrete r c cs) h ≡ some q
        → (held ls cs h ≡ some q) ⊎ ((h ≡ begun r) × (of_creation c ≡ some q))
    unfolding held
    held-begin r c (leased id) q e = inl e
    held-begin r c (begun k) q e = elim (ℕ_discrete r k) [
      | yes s ↦ inr (ap begun (sym s), ground (arith, lookup-insert ℕ_discrete r k c cs))
      | no n ↦ inl (ground (arith, lookup-insert ℕ_discrete r k c cs))
    ]

    pub Holding-begin :
        (used : List ℕ) (r : ℕ) (c : Creation) (p : ℕ)
        → Holding (held ls cs) used
        → is_used p used ≡ false
        → ((q : ℕ) → of_creation c ≡ some q → q ≡ p)
        → Holding (held ls (insert ℕ_discrete r c cs)) (p ∷ used)
    Holding-begin used r c p a free only =
        Holding-take (held ls cs) (held ls (insert ℕ_discrete r c cs)) used (begun r) p a free
          (λ h q e. elim (held-begin r c h q e) [
            | inl old ↦ inl old
            | inr (hr, oc) ↦ inr (hr, only q oc)
          ])

    -- A creation without such a port.
    pub Holding-begin_none :
        (used : List ℕ) (r : ℕ) (c : Creation)
        → Holding (held ls cs) used
        → of_creation c ≡ none
        → Holding (held ls (insert ℕ_discrete r c cs)) used
    Holding-begin_none used r c a no_port =
        Holding-fewer (held ls cs) (held ls (insert ℕ_discrete r c cs)) used a (λ h q e.
          elim (held-begin r c h q e) [ inl old ↦ old | inr (hr, oc) ↦ absurd (cc (no_port, oc)) ])

    held-delete_creation :
        (r : ℕ) (h : Holder) (q : ℕ)
        → held ls (delete ℕ_discrete r cs) h ≡ some q
        → (held ls cs h ≡ some q) × (h ≢ begun r)
    unfolding held
    held-delete_creation r (leased id) q e = (e, λ s. ground (arith, s))
    held-delete_creation r (begun k) q e = (
      ground (arith, lookup-delete ℕ_discrete r k cs),
      λ s. ground (arith, s, lookup-delete ℕ_discrete r k cs),
    )

    held-delete_lease :
        (id : String) (h : Holder) (q : ℕ)
        → held (delete text_dec id ls) cs h ≡ some q
        → (held ls cs h ≡ some q) × (h ≢ leased id)
    unfolding held
    held-delete_lease id (begun r) q e = (e, λ s. ground (arith, s))
    held-delete_lease id (leased k) q e = (
      ground (arith, lookup-delete text_dec id k ls),
      λ s. ground (arith, s, lookup-delete text_dec id k ls),
    )

    -- A creation gives back the port that it has.
    pub Holding-fail :
        (used : List ℕ) (r : ℕ) (c : Creation) (p : ℕ)
        → lookup ℕ_discrete r cs ≡ some c
        → (of_creation c ≡ some p) ⊎ ((h : Holder) (q : ℕ) → held ls cs h ≡ some q → q ≢ p)
        → Holding (held ls cs) used
        → Holding (held ls (delete ℕ_discrete r cs)) (remove p used)
    unfolding held
    Holding-fail used r c p found its a =
        Holding-give (held ls cs) (held ls (delete ℕ_discrete r cs)) used p a (λ h q e.
          let (old, other) = held-delete_creation r h q e in
          (
            old,
            elim its [
              | inl has ↦ λ s. other (
                  a.apart h (begun r) p (subst (λ n. held ls cs h ≡ some n) s old)
                    (ap (port_of of_creation) found ∙ has))
              | inr differs ↦ differs h q old
            ],
          ))

    pub Holding-reclaim :
        (used : List ℕ) (id : String) (l : ProxyLease) (p : ℕ)
        → lookup text_dec id ls ≡ some l
        → (of_lease l ≡ some p) ⊎ ((h : Holder) (q : ℕ) → held ls cs h ≡ some q → q ≢ p)
        → Holding (held ls cs) used
        → Holding (held (delete text_dec id ls) cs) (remove p used)
    unfolding held
    Holding-reclaim used id l p found its a =
        Holding-give (held ls cs) (held (delete text_dec id ls) cs) used p a (λ h q e.
          let (old, other) = held-delete_lease id h q e in
          (
            old,
            elim its [
              | inl has ↦ λ s. other (
                  a.apart h (leased id) p (subst (λ n. held ls cs h ≡ some n) s old)
                    (ap (port_of of_lease) found ∙ has))
              | inr differs ↦ differs h q old
            ],
          ))

    held-change :
        (id : String) (l k : ProxyLease) (h : Holder) (q : ℕ)
        → lookup text_dec id ls ≡ some l
        → of_lease k ≡ of_lease l
        → held (insert text_dec id k ls) cs h ≡ some q
        → held ls cs h ≡ some q
    unfolding held
    held-change id l k (begun r) q found same e = e
    held-change id l k (leased j) q found same e = ground (arith, lookup-insert text_dec id j k ls)

    -- A change of a lease that leaves its port alone.
    pub Holding-change :
        (used : List ℕ) (id : String) (l k : ProxyLease)
        → lookup text_dec id ls ≡ some l
        → of_lease k ≡ of_lease l
        → Holding (held ls cs) used
        → Holding (held (insert text_dec id k ls) cs) used
    Holding-change used id l k found same a =
        Holding-fewer (held ls cs) (held (insert text_dec id k ls) cs) used a
          (λ h q e. held-change id l k h q found same e)

    held-commit :
        (r : ℕ) (id : String) (l : ProxyLease) (h : Holder) (q : ℕ)
        → held (insert text_dec id l ls) (delete ℕ_discrete r cs) h ≡ some q
        → h ≢ leased id
        → held ls cs h ≡ some q
    unfolding held
    held-commit r id l (begun k) q e n = ground (arith, lookup-delete ℕ_discrete r k cs)
    held-commit r id l (leased j) q e n = elim (text_dec id j) [
      | yes s ↦ absurd (n (ap leased (sym s)))
      | no d ↦ ground (arith, lookup-insert text_dec id j l ls)
    ]

    -- A creation becomes a lease, in the place of one of the same name if there is one.
    pub Holding-commit :
        (used : List ℕ) (r : ℕ) (id : String) (c : Creation)
        → lookup ℕ_discrete r cs ≡ some c
        → of_lease (lease_of c) ≡ of_creation c
        → Holding (held ls cs) used
        → Holding (held (insert text_dec id (lease_of c) ls) (delete ℕ_discrete r cs)) used
    unfolding held
    Holding-commit used r id c found same a =
        Holding-pass Holder-discrete (held ls cs)
          (held (insert text_dec id (lease_of c) ls) (delete ℕ_discrete r cs)) used (begun r)
          (leased id) a (ground (arith, lookup-delete ℕ_discrete r r cs))
          (ground (arith, same, lookup-insert text_dec id id (lease_of c) ls))
          (held-commit r id (lease_of c))
