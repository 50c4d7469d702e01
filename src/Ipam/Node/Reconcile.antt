-- ===== src/Ipam/Node/Reconcile.antt =====
-- NodeAllocator.Reconcile (pkg/ipam/ipam.go): the loop over the entries of the map.
use coordino.Base.{
  ◌≡◌, refl, sym, ap, ◌∙◌, inl, inr, Bool, true, false, not, Option, none, some, List, [], ◌∷◌,
  ◌++◌, map, arith, select, if◌then◌else◌, Bool-cases, ◌==◌, Bytes, bytes_eq,
}
use mathlib.Core.List.{append_assoc, append-nil}
use coordino.Base.GoMap.{GoMap, lookup, Distinct, lookup-delete}
use coordino.Net.{Ip}
use coordino.Ipam.Node.{AllocRecord, NodeAllocator, free_record, reconcile_from, reconcile}
use coordino.Ipam.Node.Invariant.{IsValid}
use coordino.Ipam.Node.Release.{free_record-IsValid}

-- The entries still to visit are entries of the allocator's map.
abbrev Pending : GoMap Bytes AllocRecord → NodeAllocator → Type 0
Pending es a =
    Distinct es
    × ((k : Bytes) (r : AllocRecord) → lookup k es ≡ some r → lookup k a.allocated ≡ some r)

-- What a visited key reads as afterwards.
abbrev survives : Bool → Option AllocRecord → Option AllocRecord → Option AllocRecord
survives kept none o = o
survives kept (some _) o = if kept then o else none

module _ (active : Bytes → Bool) where
  visit : NodeAllocator → Bytes → AllocRecord → NodeAllocator
  visit a key r = if active key then a else free_record a key r

  Pending-first :
      (k : Bytes) (r : AllocRecord) (es : GoMap Bytes AllocRecord) (a : NodeAllocator)
      → Pending ((k, r) ∷ es) a
      → lookup k a.allocated ≡ some r
  unfolding lookup
  Pending-first k r es a p = p.1 k r (ground (arith, bytes_eq.beq_iff k k))

  Pending-rest :
      (k : Bytes) (r : AllocRecord) (es : GoMap Bytes AllocRecord) (a : NodeAllocator)
      → Pending ((k, r) ∷ es) a
      → Pending es (visit a k r)
  unfolding lookup visit free_record
  Pending-rest k r es a p = (
    p.0.1,
    λ j q l. elim (Bool-cases (k == j)) [
      | inl same ↦
          absurd
            (ground (arith, p.0.0, l, bytes_eq.beq_iff k j, λ (x : k ≡ j). ap (λ i. lookup i es) x))
      | inr other ↦ ground (arith, p.1 j q (ground (arith, other)), lookup-delete k j a.allocated)
    ],
  )

  visit-IsValid :
      (a : NodeAllocator) (k : Bytes) (r : AllocRecord)
      → IsValid a
      → lookup k a.allocated ≡ some r
      → IsValid (visit a k r)
  unfolding visit
  visit-IsValid a k r v l = elim (Bool-cases (active k)) [
    | inl e ↦ rw (e, visit) v
    | inr e ↦ rw (e, visit) (free_record-IsValid a k r v l)
  ]

  reconcile_from-IsValid :
      (es : GoMap Bytes AllocRecord) (a : NodeAllocator) (released : List Ip)
      → IsValid a
      → Pending es a
      → IsValid (reconcile_from active es a released).0
  unfolding reconcile_from visit
  reconcile_from-IsValid [] a released v p = v
  reconcile_from-IsValid ((k, r) ∷ es) a released v p =
      reconcile_from-IsValid es (visit a k r) _ (visit-IsValid a k r v (Pending-first k r es a p))
        (Pending-rest k r es a p)

  lookup-reconcile_from :
      (k : Bytes) (es : GoMap Bytes AllocRecord) (a : NodeAllocator) (released : List Ip)
      → lookup k (reconcile_from active es a released).0.allocated
        ≡ survives (active k) (lookup k es) (lookup k a.allocated)
  unfolding reconcile_from lookup free_record
  lookup-reconcile_from k [] a released = refl
  lookup-reconcile_from k ((j, r) ∷ es) a released = elim (Bool-cases (active j)) [
    | inl e ↦
        rw (e, reconcile_from)
          (ground (
            arith,
            lookup-reconcile_from k es a released,
            bytes_eq.beq_iff j k,
            λ (x : j ≡ k). ap active x,
          ))
    | inr e ↦
        rw (e, reconcile_from)
          (ground (
            arith,
            lookup-reconcile_from k es (free_record a j r) (released ++ (r.ip ∷ [])),
            lookup-delete j k a.allocated,
            bytes_eq.beq_iff j k,
            λ (x : j ≡ k). ap active x,
          ))
  ]

  released-reconcile_from :
      (es : GoMap Bytes AllocRecord) (a : NodeAllocator) (released : List Ip)
      → (reconcile_from active es a released).1
        ≡ released ++ map (λ e. e.1.ip) (select (λ e. not (active e.0)) es)
  unfolding reconcile_from
  released-reconcile_from [] a released = sym (append-nil released)
  released-reconcile_from ((j, r) ∷ es) a released = elim (Bool-cases (active j)) [
    | inl e ↦ rw (e, reconcile_from) (released-reconcile_from es a released)
    | inr e ↦
        rw (e, reconcile_from)
          (released-reconcile_from es (free_record a j r) (released ++ (r.ip ∷ []))
            ∙ append_assoc released (r.ip ∷ []) _)
  ]

-- Reconcile keeps a valid allocator valid; afterwards exactly the active pods of before are
-- recorded, each with its record, and the addresses that it reports are those of the pods that are
-- not active.
pub reconcile_lem :
    (a : NodeAllocator) (active : Bytes → Bool)
    → IsValid a
    → IsValid (reconcile a active).0
      × ((k : Bytes)
          → lookup k (reconcile a active).0.allocated
            ≡ (if active k then lookup k a.allocated else none))
      × ((reconcile a active).1 ≡ map (λ e. e.1.ip) (select (λ e. not (active e.0)) a.allocated))
unfolding reconcile
reconcile_lem a active v = (
  reconcile_from-IsValid active a.allocated a [] v (v.distinct, λ k r l. l),
  λ k.
      lookup-reconcile_from active k a.allocated a []
      ∙ all_visited (active k) (lookup k a.allocated),
  released-reconcile_from active a.allocated a [],
)
  where
    all_visited :
        (kept : Bool) (o : Option AllocRecord) → survives kept o o ≡ (if kept then o else none)
    all_visited true none = refl
    all_visited true (some r) = refl
    all_visited false none = refl
    all_visited false (some r) = refl
