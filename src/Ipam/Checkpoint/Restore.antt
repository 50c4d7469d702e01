-- ===== src/Ipam/Checkpoint/Restore.antt =====
-- Restore of CheckpointManager (pkg/ipam/checkpoint.go) on the checkpoint of another allocator.
use coordino.Base.{
  ℕ, ◌≡◌, ◌≢◌, refl, sym, ap, ◌∙◌, inl, inr, arith, subst, Bool, true, false, Option, none, some,
  List, [], ◌∷◌, Bytes, bytes_eq, Bool-cases, Result-cases, ◌==◌, eq_of_beq, nat_beq, if◌then◌else◌,
}
use coordino.Base.GoMap.{GoMap, lookup}
use coordino.Net.{Ip, IpNet}
use coordino.Ipam.Node.{
  AllocRecord, NodeAllocator, pod_key, allocate, allocated_ips, get_allocated_ips,
}
use coordino.Ipam.Node.Invariant.{IsValid}
use coordino.Ipam.Node.Allocate.{allocate-IsValid, allocate_keeps, allocate_records}
use coordino.Ipam.Checkpoint.{
  CheckpointRecord, Restored, split_key, or_empty, records_of, checkpoint_of, restore,
}

-- The key of the pod that a record of the checkpoint names.
abbrev rejoin : Bytes × Option Bytes → Bytes
rejoin parts = pod_key parts.0 (or_empty parts.1)

rejoin_choice :
    (c : Bool) (b : ℕ) (x : Bytes) (rest : Bytes × Option Bytes)
    → (c ≡ true → b ≡ 47)
    → rejoin rest ≡ x
    → rejoin (if c then ([], some x) else (b ∷ rest.0, rest.1)) ≡ b ∷ x
unfolding pod_key
rejoin_choice true b x rest slash same = ap (λ n. n ∷ x) (sym (slash refl))
rejoin_choice false b x rest slash same = ap (λ y. b ∷ y) same

pub split_key-pod_key :
    (name namespace : Bytes) → rejoin (split_key (pod_key name namespace)) ≡ pod_key name namespace
unfolding pod_key split_key
split_key-pod_key [] namespace = refl
split_key-pod_key (b ∷ bs) namespace =
    rejoin_choice (nat_beq b 47) b (pod_key bs namespace) (split_key (pod_key bs namespace))
      (λ e. ground (arith, e)) (split_key-pod_key bs namespace)

abbrev pub Recorded : NodeAllocator → Bytes → Type 0
Recorded a key = (r : AllocRecord) × (lookup key a.allocated ≡ some r)

module _ (ip_string : Ip → Bytes) (cidr_string : IpNet → Bytes) (now : ℕ) where
  pub restore-IsValid :
      (rs : List CheckpointRecord) (b : NodeAllocator)
      → IsValid b
      → IsValid (restore ip_string cidr_string now rs b).allocator
  unfolding restore
  restore-IsValid [] b v = v
  restore-IsValid (r ∷ rs) b v =
      let w = allocate-IsValid b r.pod_name r.pod_namespace now v in
      elim (Result-cases (allocate b r.pod_name r.pod_namespace now).1) [
        | inl (e, failed) ↦ rw (failed, restore) w
        | inr (ip, made) ↦ rw (made, restore) (restore-IsValid rs _ w)
      ]

  restore-Keeps :
      (rs : List CheckpointRecord) (b : NodeAllocator) (k : Bytes)
      → Recorded b k
      → Recorded (restore ip_string cidr_string now rs b).allocator k
  unfolding restore
  restore-Keeps [] b k held = held
  restore-Keeps (r ∷ rs) b k held =
      let kept : Recorded (allocate b r.pod_name r.pod_namespace now).0 k =
        (held.0, allocate_keeps b r.pod_name r.pod_namespace now k held.0 held.1) in
      elim (Result-cases (allocate b r.pod_name r.pod_namespace now).1) [
        | inl (e, failed) ↦ rw (failed, restore) kept
        | inr (ip, made) ↦ rw (made, restore) (restore-Keeps rs _ k kept)
      ]

  abbrev all_of : GoMap Bytes AllocRecord → NodeAllocator → Restored
  all_of m b = restore ip_string cidr_string now (records_of ip_string now (allocated_ips m)) b

  all_of-Recorded :
      (m : GoMap Bytes AllocRecord) (b : NodeAllocator) (name namespace : Bytes) (r : AllocRecord)
      → IsValid b
      → (all_of m b).error ≡ none
      → lookup (pod_key name namespace) m ≡ some r
      → Recorded (all_of m b).allocator (pod_key name namespace)
  unfolding restore records_of allocated_ips lookup
  all_of-Recorded [] b name namespace r v fine h = absurd (ground (arith, h))
  all_of-Recorded ((k, q) ∷ m) b name namespace r v fine h =
      let parts = split_key k in
      let attempt = allocate b parts.0 (or_empty parts.1) now in
      let w : IsValid attempt.0 = allocate-IsValid b parts.0 (or_empty parts.1) now v in
      elim (Result-cases attempt.1) [
        | inl (e, failed) ↦
            let stops : (all_of ((k, q) ∷ m) b).error ≢ none =
              rw (failed, restore) (λ x. ground (arith, x)) in
            absurd (stops fine)
        | inr (ip, made) ↦
            let goes_on : (all_of ((k, q) ∷ m) b).error ≡ (all_of m attempt.0).error =
              rw (made, restore) refl in
            rw (made, restore)
              (elim (Bool-cases (k == pod_key name namespace)) [
                | inl e ↦
                    let here : k ≡ pod_key name namespace =
                      eq_of_beq k (pod_key name namespace) e in
                    let whole : rejoin parts ≡ pod_key name namespace =
                      ap (λ j. rejoin (split_key j)) here ∙ split_key-pod_key name namespace in
                    (restore-Keeps (records_of ip_string now (allocated_ips m)) attempt.0
                      (pod_key name namespace)
                      (subst (Recorded attempt.0) whole (
                        let (q, at, same) =
                          allocate_records b parts.0 (or_empty parts.1) now ip made in
                        (q, at))))
                | inr e ↦
                    all_of-Recorded m attempt.0 name namespace r w (sym goes_on ∙ fine)
                      (ground (arith, e, h))
              ])
      ]

  -- Where Restore of the checkpoint of one allocator into a valid allocator returns no error, the
  -- result is valid and every pod that had an address in the first allocator has one in it.
  pub restore-checkpoint_of :
      (a b : NodeAllocator) (name namespace : Bytes) (r : AllocRecord)
      → IsValid b
      → (restore ip_string cidr_string now
          (checkpoint_of ip_string cidr_string now a).records
          b).error
        ≡ none
      → lookup (pod_key name namespace) a.allocated ≡ some r
      → (let c =
            (restore ip_string cidr_string now
              (checkpoint_of ip_string cidr_string now a).records
              b).allocator in
          IsValid c × ((q : AllocRecord) × (lookup (pod_key name namespace) c.allocated ≡ some q)))
  unfolding checkpoint_of get_allocated_ips
  restore-checkpoint_of a b name namespace r v fine h =
      let held = all_of-Recorded a.allocated b name namespace r v fine h in
      (restore-IsValid (records_of ip_string now (allocated_ips a.allocated)) b v, held)
