-- ===== src/Policy/Identity/History.antt =====
-- Whole histories of IdentityAllocator (pkg/policy/identity.go), from NewIdentityAllocator on.
use coordino.Base.{
  ℕ, ◌+◌, ◌≤◌, ◌<◌, ◌≡◌, refl, sym, ap, ◌∙◌, inl, inr, arith, List, [], ◌∷◌, some, Bytes, bytes_eq,
  nat_eq, length, leb, Option-cases, Bool-cases, some-injective, ◌-◌,
}
use coordino.Base.GoMap.{lookup}
use coordino.Net.{u32_mod}
use coordino.Policy.Labels.{Labels, hash_labels}
use coordino.Policy.Identity.{
  Identity, IdentityAllocator, new_identity_allocator, allocate_identity, add_identity,
  release_identity, add_node_reference, remove_node_reference,
}
use coordino.Policy.Identity.Invariant.{IsValid, new_identity_allocator-IsValid}
use coordino.Policy.Identity.Methods.{
  allocate_identity-IsValid, release_identity-IsValid, add_node_reference-IsValid,
  remove_node_reference-IsValid, created, reused, allocate_identity-Outcome,
}

-- One call of a method that changes the allocator.
pub data Call : Type 0 where
  allocates : Labels → Call
  releases : ℕ → Call
  adds_node removes_node : ℕ → Bytes → Call

module _ (digest : Bytes → Bytes) where
  abbrev pub step : IdentityAllocator → Call → IdentityAllocator
  step a (Call.allocates labels) = (allocate_identity digest a labels).0
  step a (Call.releases i) = (release_identity a i).0
  step a (Call.adds_node i node) = (add_node_reference a i node).0
  step a (Call.removes_node i node) = (remove_node_reference a i node).0

  abbrev pub run : List Call → IdentityAllocator → IdentityAllocator
  run [] a = a
  run (c ∷ cs) a = run cs (step a c)

  allocate-next_id :
      (a : IdentityAllocator) (labels : Labels)
      → IsValid digest a
      → a.next_id + 1 < u32_mod
      → (allocate_identity digest a labels).0.next_id ≤ a.next_id + 1
  unfolding add_identity
  allocate-next_id a labels v room = elim (allocate_identity-Outcome digest a labels v) [
    | created e c ↦ rw c (omega (arith, room))
    | reused i f e at c ↦ rw c (omega arith)
  ]

  release-next_id : (a : IdentityAllocator) (i : ℕ) → (release_identity a i).0.next_id ≡ a.next_id
  unfolding release_identity
  release-next_id a i = elim (Option-cases (lookup i a.identities)) [
    | inl e ↦ rw (e, release_identity) refl
    | inr (d, e) ↦ elim (Bool-cases (leb (d.ref_count - 1) 0)) [
      | inl last ↦ rw (e, release_identity, last) refl
      | inr more ↦ rw (e, release_identity, more) refl
    ]
  ]

  add_node-next_id :
      (a : IdentityAllocator) (i : ℕ) (node : Bytes)
      → (add_node_reference a i node).0.next_id ≡ a.next_id
  unfolding add_node_reference
  add_node-next_id a i node = elim (Option-cases (lookup i a.identities)) [
    | inl e ↦ rw (e, add_node_reference) refl
    | inr (d, e) ↦ rw (e, add_node_reference) refl
  ]

  remove_node-next_id :
      (a : IdentityAllocator) (i : ℕ) (node : Bytes)
      → (remove_node_reference a i node).0.next_id ≡ a.next_id
  unfolding remove_node_reference
  remove_node-next_id a i node = elim (Option-cases (lookup i a.identities)) [
    | inl e ↦ rw (e, remove_node_reference) refl
    | inr (d, e) ↦ rw (e, remove_node_reference) refl
  ]

  step-IsValid :
      (a : IdentityAllocator) (c : Call)
      → IsValid digest a
      → a.next_id + 1 < u32_mod
      → IsValid digest (step a c) × ((step a c).next_id ≤ a.next_id + 1)
  step-IsValid a (Call.allocates labels) v room =
      (allocate_identity-IsValid digest a labels v room, allocate-next_id a labels v room)
  step-IsValid a (Call.releases i) v room =
      (release_identity-IsValid digest a i v, omega (arith, release-next_id a i))
  step-IsValid a (Call.adds_node i node) v room =
      (add_node_reference-IsValid digest a i node v, omega (arith, add_node-next_id a i node))
  step-IsValid a (Call.removes_node i node) v room =
      (remove_node_reference-IsValid digest a i node v, omega (arith, remove_node-next_id a i node))

  run-IsValid :
      (cs : List Call) (a : IdentityAllocator)
      → IsValid digest a
      → a.next_id + length cs < u32_mod
      → IsValid digest (run cs a)
  run-IsValid [] a v room = v
  run-IsValid (c ∷ cs) a v room =
      let (w, grown) = step-IsValid a c v (omega (arith, room)) in
      run-IsValid cs (step a c) w (omega (arith, room, grown))

  -- After any calls of AllocateIdentity, ReleaseIdentity, AddNodeReference and RemoveNodeReference
  -- on a new allocator, fewer than 2^32 - 1 of them, two numbers whose identities have labels of one
  -- hash are one number; it is not the wildcard 0, and its identity carries that number and has a
  -- positive reference count.
  pub no_shared_identity :
      (cs : List Call) (i j : ℕ) (d f : Identity)
      → length cs + 1 < u32_mod
      → lookup i (run cs new_identity_allocator).identities ≡ some d
      → lookup j (run cs new_identity_allocator).identities ≡ some f
      → hash_labels digest d.labels ≡ hash_labels digest f.labels
      → (i ≡ j) × (0 < i) × (0 < d.ref_count) × (d.id ≡ i)
  unfolding new_identity_allocator
  no_shared_identity cs i j d f room li lj same =
      let v =
        run-IsValid cs new_identity_allocator (new_identity_allocator-IsValid digest)
          (omega (arith, room)) in
      let x = v.entries i d li in
      let y = v.entries j f lj in
      (
        some-injective _ _ (
            sym x.indexed
            ∙ ap (λ h. lookup h (run cs new_identity_allocator).hash_to_id)
                (x.own_hash ∙ same ∙ sym y.own_hash)
            ∙ y.indexed),
        x.not_wildcard,
        x.referenced,
        x.own_id,
      )
