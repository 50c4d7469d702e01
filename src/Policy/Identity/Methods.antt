-- ===== src/Policy/Identity/Methods.antt =====
-- The methods of IdentityAllocator (pkg/policy/identity.go) keep its invariant.
use coordino.Base.{
  ℕ, ◌+◌, ◌-◌, ◌<◌, ◌≡◌, refl, sym, ap, ◌∙◌, ◌≢◌, inl, inr, true, none, some, Bytes, bytes_eq,
  nat_eq, ok, leb, arith, Bool-cases, Option-cases, ◌==◌, ne_of_beq, beq_of_ne,
}
use coordino.Base.GoMap.{lookup, insert, delete, lookup-delete}
use coordino.Net.{u32_mod}
use coordino.Policy.Labels.{Labels, hash_labels}
use coordino.Policy.Identity.{
  Identity, IdentityAllocator, with_ref_count, new_identity, add_identity, allocate_identity,
  release_identity, add_node_reference, remove_node_reference,
}
use coordino.Policy.Identity.Invariant.{IsValid, replace-IsValid, add_identity-IsValid, same_hash}

module _ (digest : Bytes → Bytes) where
  -- The two outcomes of `AllocateIdentity` on a valid allocator; it never dereferences nil.
  pub data Outcome (a : IdentityAllocator) (labels : Labels) : Type 0 where
    reused :
        (i : ℕ) (d : Identity)
        → lookup (hash_labels digest labels) a.hash_to_id ≡ some i
        → lookup i a.identities ≡ some d
        → allocate_identity digest a labels ≡ (
          record a { identities = insert i (with_ref_count d (d.ref_count + 1)) a.identities },
          ok (with_ref_count d (d.ref_count + 1)),
        )
        → Outcome a labels
    created :
        lookup (hash_labels digest labels) a.hash_to_id ≡ none
        → allocate_identity digest a labels
          ≡ (add_identity digest a labels, ok (new_identity digest a labels))
        → Outcome a labels

  pub allocate_identity-Outcome :
      (a : IdentityAllocator) (labels : Labels) → IsValid digest a → Outcome a labels
  unfolding allocate_identity
  allocate_identity-Outcome a labels v =
      elim (Option-cases (lookup (hash_labels digest labels) a.hash_to_id)) [
        | inl e ↦ created e (rw (e, allocate_identity) refl)
        | inr (i, e) ↦
            let (d, at, _) = v.hashed _ i e in reused i d e at (rw (e, at, allocate_identity) refl)
      ]

  -- AllocateIdentity keeps the allocator's invariant while the next number plus one is below 2^32:
  -- both maps are inverse, every stored identity has its own number and hash, a positive count, and
  -- a number that was issued and is not the wildcard 0.
  pub allocate_identity-IsValid :
      (a : IdentityAllocator) (labels : Labels)
      → IsValid digest a
      → a.next_id + 1 < u32_mod
      → IsValid digest (allocate_identity digest a labels).0
  allocate_identity-IsValid a labels v room = elim (allocate_identity-Outcome a labels v) [
    | created e c ↦ rw c (add_identity-IsValid digest a labels v e room)
    | reused i d e at c ↦ rw c (
        replace-IsValid digest a i d (with_ref_count d (d.ref_count + 1)) v at
          (record { id = refl; labels = refl; label_hash = refl; referenced = omega arith }))
  ]

  drop-IsValid :
      (a : IdentityAllocator) (i : ℕ) (d : Identity)
      → IsValid digest a
      → lookup i a.identities ≡ some d
      → IsValid digest (record a {
        identities = delete i a.identities;
        hash_to_id = delete d.label_hash a.hash_to_id;
      })
  drop-IsValid a i d v found = record {
    entries = λ j f h.
        let (ne, old) = stays j f h in
        let x = v.entries j f old in
        record {
          own_id = x.own_id;
          own_hash = x.own_hash;
          indexed =
              lookup-delete d.label_hash f.label_hash a.hash_to_id
              ∙ rw (beq_of_ne d.label_hash f.label_hash (λ e. ne (same_number j f x.indexed e)))
                  x.indexed;
          referenced = x.referenced;
          not_wildcard = x.not_wildcard;
          issued = x.issued;
        };
    hashed = λ h j l.
        let (ne, old) = stays_hashed h j l in
        let (f, at, is) = v.hashed h j old in
        (
          f,
          lookup-delete i j a.identities
              ∙ rw
                  (beq_of_ne i j (λ e.
                    ne (same_hash d f (sym found ∙ ap (λ n. lookup n a.identities) e ∙ at) ∙ is)))
                  at,
          is,
        );
    fresh = v.fresh;
    in_range = v.in_range;
  }
    where
      stays :
          (j : ℕ) (f : Identity)
          → lookup j (delete i a.identities) ≡ some f
          → (i ≢ j) × (lookup j a.identities ≡ some f)
      stays j f h = elim (Bool-cases (i == j)) [
        | inl e ↦ absurd (ground (arith, lookup-delete i j a.identities))
        | inr e ↦ (ne_of_beq i j e, ground (arith, lookup-delete i j a.identities))
      ]

      stays_hashed :
          (h : Bytes) (j : ℕ)
          → lookup h (delete d.label_hash a.hash_to_id) ≡ some j
          → (d.label_hash ≢ h) × (lookup h a.hash_to_id ≡ some j)
      stays_hashed h j l = elim (Bool-cases (d.label_hash == h)) [
        | inl e ↦ absurd (ground (arith, lookup-delete d.label_hash h a.hash_to_id))
        | inr e ↦
            (ne_of_beq d.label_hash h e, ground (arith, lookup-delete d.label_hash h a.hash_to_id))
      ]

      same_number :
          (j : ℕ) (f : Identity)
          → lookup f.label_hash a.hash_to_id ≡ some j
          → d.label_hash ≡ f.label_hash
          → i ≡ j
      same_number j f l e =
          let x = (v.entries i d found).indexed in
          ground (arith, x, l, ap (λ h. lookup h a.hash_to_id) e)

  -- ReleaseIdentity keeps the allocator's invariant, also for a number that is not known.
  pub release_identity-IsValid :
      (a : IdentityAllocator) (i : ℕ) → IsValid digest a → IsValid digest (release_identity a i).0
  unfolding release_identity
  release_identity-IsValid a i v = elim (Option-cases (lookup i a.identities)) [
    | inl e ↦ rw (e, release_identity) v
    | inr (d, e) ↦ elim (Bool-cases (leb (d.ref_count - 1) 0)) [
      | inl last ↦ rw (e, release_identity, last) (drop-IsValid a i d v e)
      | inr more ↦
          rw (e, release_identity, more)
            (replace-IsValid digest a i d (with_ref_count d (d.ref_count - 1)) v e
              (record { id = refl; labels = refl; label_hash = refl; referenced = ground arith }))
    ]
  ]

  pub add_node_reference-IsValid :
      (a : IdentityAllocator) (i : ℕ) (node : Bytes)
      → IsValid digest a
      → IsValid digest (add_node_reference a i node).0
  unfolding add_node_reference
  add_node_reference-IsValid a i node v = elim (Option-cases (lookup i a.identities)) [
    | inl e ↦ rw (e, add_node_reference) v
    | inr (d, e) ↦
        rw (e, add_node_reference)
          (replace-IsValid digest a i d (record d { nodes = insert node true d.nodes }) v e
            (record {
              id = refl;
              labels = refl;
              label_hash = refl;
              referenced = (v.entries i d e).referenced;
            }))
  ]

  pub remove_node_reference-IsValid :
      (a : IdentityAllocator) (i : ℕ) (node : Bytes)
      → IsValid digest a
      → IsValid digest (remove_node_reference a i node).0
  unfolding remove_node_reference
  remove_node_reference-IsValid a i node v = elim (Option-cases (lookup i a.identities)) [
    | inl e ↦ rw (e, remove_node_reference) v
    | inr (d, e) ↦
        rw (e, remove_node_reference)
          (replace-IsValid digest a i d (record d { nodes = delete node d.nodes }) v e
            (record {
              id = refl;
              labels = refl;
              label_hash = refl;
              referenced = (v.entries i d e).referenced;
            }))
  ]
