-- ===== src/Agent/Reach.antt =====
-- The states that a node agent (cmd/node-agent/main.go) reaches: each tracked pod has its address in
-- the allocator.
use coordino.Base.{
  ℕ, ◌≡◌, refl, sym, ap, ◌∙◌, subst, inl, inr, arith, true, false, none, some, Bytes, bytes_eq,
  Option-cases, Bool-cases, ◌==◌, eq_of_beq,
}
use coordino.Base.GoMap.{GoMap, lookup, insert, delete, lookup-insert, lookup-delete}
use coordino.Net.{Ip}
use coordino.Ipam.Node.{NodeAllocator, AllocRecord, pod_key, allocate, release, reconcile, offset}
use coordino.Ipam.Node.Invariant.{IsValid}
use coordino.Ipam.Node.Allocate.{allocate-IsValid, allocate_keeps, allocate_records}
use coordino.Ipam.Node.Release.{release-IsValid, release_keeps}
use coordino.Ipam.Node.Reconcile.{reconcile_lem}
use coordino.Rpc.{AddRequest, AddResponse, DelRequest}
use coordino.Agent.{Environment, NodeAgent, PodEndpointInfo, handle_add, handle_del}
use coordino.Agent.Reconcile.{is_active, reconcile_agent, save_checkpoint}
use coordino.Agent.Handler.{undone, tracked, no_address, addressed, handle_add-Outcome, info_of}
use coordino.Agent.Undo.{handle_del-Removed}

-- The key has a record, with this address.
abbrev pub Holds : NodeAllocator → Bytes → Ip → Type 0
Holds m k ip = (r : AllocRecord) × (lookup k m.allocated ≡ some r) × (r.ip ≡ ip)

-- Every tracked pod holds its address in the allocator.
abbrev pub AllHeld : NodeAllocator → GoMap Bytes PodEndpointInfo → Type 0
AllHeld m endpoints =
    (k : Bytes) (info : PodEndpointInfo) → lookup k endpoints ≡ some info → Holds m k info.ip

other_key :
    (j k : Bytes) (endpoints : GoMap Bytes PodEndpointInfo) (info : PodEndpointInfo)
    → lookup j endpoints ≡ none
    → lookup k endpoints ≡ some info
    → (j == k) ≡ false
other_key j k endpoints info h l = elim (Bool-cases (j == k)) [
  | inr e ↦ e
  | inl e ↦
      let same = ap (λ i. lookup i endpoints) (eq_of_beq j k e) in
      absurd (ground (arith, same, h, l))
]

allocate-AllHeld :
    (m : NodeAllocator) (name namespace : Bytes) (now : ℕ) (endpoints : GoMap Bytes PodEndpointInfo)
    → AllHeld m endpoints
    → AllHeld (allocate m name namespace now).0 endpoints
allocate-AllHeld m name namespace now endpoints held k info l =
    let (r, at, ip) = held k info l in (r, allocate_keeps m name namespace now k r at, ip)

release-AllHeld :
    (m : NodeAllocator) (name namespace : Bytes) (endpoints : GoMap Bytes PodEndpointInfo)
    → lookup (pod_key name namespace) endpoints ≡ none
    → AllHeld m endpoints
    → AllHeld (release m name namespace) endpoints
release-AllHeld m name namespace endpoints untracked held k info l =
    let (r, at, ip) = held k info l in
    (
      r,
      release_keeps m name namespace k r
          (other_key (pod_key name namespace) k endpoints info untracked l) at,
      ip,
    )

insert-AllHeld :
    (m : NodeAllocator) (key : Bytes) (new : PodEndpointInfo)
    (endpoints : GoMap Bytes PodEndpointInfo)
    → Holds m key new.ip
    → AllHeld m endpoints
    → AllHeld m (insert key new endpoints)
insert-AllHeld m key new endpoints holds held k info l = elim (Bool-cases (key == k)) [
  | inl e ↦
      let same : new ≡ info = ground (arith, lookup-insert key k new endpoints, e, l) in
      subst (λ i. Holds m i info.ip) (eq_of_beq key k e)
        (subst (λ (i : PodEndpointInfo). Holds m key i.ip) same holds)
  | inr e ↦ held k info (ground (arith, lookup-insert key k new endpoints, e, l))
]

delete-AllHeld :
    (m : NodeAllocator) (key : Bytes) (endpoints : GoMap Bytes PodEndpointInfo)
    → AllHeld m endpoints
    → AllHeld m (delete key endpoints)
delete-AllHeld m key endpoints held k info l =
    held k info (ground (arith, lookup-delete key k endpoints, l))

lookup-delete_self :
    (key : Bytes) (endpoints : GoMap Bytes PodEndpointInfo)
    → lookup key (delete key endpoints) ≡ none
lookup-delete_self key endpoints =
    ground (arith, lookup-delete key key endpoints, bytes_eq.beq_iff key key)

reconcile-AllHeld :
    (m : NodeAllocator) (endpoints : GoMap Bytes PodEndpointInfo) (E : Environment)
    → IsValid m
    → AllHeld m endpoints
    → AllHeld (reconcile m (is_active E endpoints)).0 endpoints
unfolding is_active
reconcile-AllHeld m endpoints E v held k info l =
    let (r, at, ip) = held k info l in
    let active : is_active E endpoints k ≡ true = rw (l, is_active) refl in
    (r, (reconcile_lem m (is_active E endpoints) v).1 k ∙ rw active at, ip)

module _ (E : Environment) where
  pub record Consistent (a : NodeAgent E) : Type 0 where
    pub valid : IsValid a.allocator
    pub held : AllHeld a.allocator a.pod_endpoints

  -- One step of the agent: an ADD of a pod that it does not track, a DEL, or a reconciliation.
  pub data Step (a : NodeAgent E) : NodeAgent E → Type 0 where
    adds :
        (now : ℕ) (req : AddRequest) (b : NodeAgent E) (resp : AddResponse)
        → lookup (pod_key req.pod_name req.pod_namespace) a.pod_endpoints ≡ none
        → handle_add E now req a ≡ some (b, resp)
        → Step a b
    deletes : (req : DelRequest) → Step a (handle_del E req a).0
    reconciles : (now : ℕ) → Step a (reconcile_agent E now a).0

  pub data Reaches (a : NodeAgent E) : NodeAgent E → Type 0 where
    here : Reaches a a
    then : (b c : NodeAgent E) → Reaches a b → Step b c → Reaches a c

  handle_add-Consistent :
      (now : ℕ) (req : AddRequest) (a b : NodeAgent E) (resp : AddResponse)
      → lookup (pod_key req.pod_name req.pod_namespace) a.pod_endpoints ≡ none
      → handle_add E now req a ≡ some (b, resp)
      → Consistent a
      → Consistent b
  handle_add-Consistent now req a b resp untracked h c =
      let after = (allocate a.allocator req.pod_name req.pod_namespace now).0 in
      let v : IsValid after =
        allocate-IsValid a.allocator req.pod_name req.pod_namespace now c.valid in
      let l =
        allocate-AllHeld a.allocator req.pod_name req.pod_namespace now a.pod_endpoints c.held in
      elim (handle_add-Outcome E now req a b resp h) [
        | no_address identity e named refused m i p x ↦ record {
          valid = subst IsValid (sym m) c.valid;
          held = rw (m, p) c.held;
        }
        | addressed identity ip named found (undone u x) ↦ record {
          valid =
              subst IsValid (sym u.allocator)
                (release-IsValid after req.pod_name req.pod_namespace v);
          held =
              rw (u.allocator, u.endpoints)
                (release-AllHeld after req.pod_name req.pod_namespace a.pod_endpoints untracked l);
        }
        | addressed identity ip named found (tracked t e i) ↦ record {
          valid = subst IsValid (sym t.allocator) v;
          held =
              rw (t.allocator, t.endpoints)
                (insert-AllHeld after (pod_key req.pod_name req.pod_namespace)
                  (info_of E now req ip identity.id) a.pod_endpoints
                  (allocate_records a.allocator req.pod_name req.pod_namespace now ip found) l);
        }
      ]

  handle_del-Consistent :
      (req : DelRequest) (a : NodeAgent E) → Consistent a → Consistent (handle_del E req a).0
  unfolding handle_del
  handle_del-Consistent req a c =
      let key = pod_key req.pod_name req.pod_namespace in
      elim (Option-cases (lookup key a.pod_endpoints)) [
        | inl e ↦
            rw (e, handle_del)
              (record {
                valid = release-IsValid a.allocator req.pod_name req.pod_namespace c.valid;
                held =
                    release-AllHeld a.allocator req.pod_name req.pod_namespace a.pod_endpoints e
                      c.held;
              })
        | inr (info, e) ↦
            let r = handle_del-Removed E req a info e in
            record {
              valid =
                  subst IsValid (sym r.allocator)
                    (release-IsValid a.allocator req.pod_name req.pod_namespace c.valid);
              held =
                  rw (r.allocator, r.endpoints)
                    (release-AllHeld a.allocator req.pod_name req.pod_namespace
                      (delete key a.pod_endpoints) (lookup-delete_self key a.pod_endpoints)
                      (delete-AllHeld a.allocator key a.pod_endpoints c.held));
            }
      ]

  reconcile_agent-Consistent :
      (now : ℕ) (a : NodeAgent E) → Consistent a → Consistent (reconcile_agent E now a).0
  unfolding reconcile_agent save_checkpoint
  reconcile_agent-Consistent now a c = record {
    valid = (reconcile_lem a.allocator (is_active E a.pod_endpoints) c.valid).0;
    held = reconcile-AllHeld a.allocator a.pod_endpoints E c.valid c.held;
  }

  Step-Consistent : (a b : NodeAgent E) → Step a b → Consistent a → Consistent b
  Step-Consistent a _ (adds now req b resp untracked h) c =
      handle_add-Consistent now req a b resp untracked h c
  Step-Consistent a _ (deletes req) c = handle_del-Consistent req a c
  Step-Consistent a _ (reconciles now) c = reconcile_agent-Consistent now a c

  pub Reaches-Consistent : (a b : NodeAgent E) → Reaches a b → Consistent a → Consistent b
  Reaches-Consistent a _ here c = c
  Reaches-Consistent a _ (then m b r s) c = Step-Consistent m b s (Reaches-Consistent a m r c)

  pub Consistent-apart :
      (a : NodeAgent E) (j k : Bytes) (p q : PodEndpointInfo)
      → Consistent a
      → lookup j a.pod_endpoints ≡ some p
      → lookup k a.pod_endpoints ≡ some q
      → p.ip ≡ q.ip
      → j ≡ k
  Consistent-apart a j k p q c lj lk e =
      let (x, at_x, x_ip) = c.held j p lj in
      let (y, at_y, y_ip) = c.held k q lk in
      c.valid.apart j k x y at_x at_y (ap (offset a.allocator) (x_ip ∙ e ∙ sym y_ip))
