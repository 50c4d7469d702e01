-- ===== src/Policy/Identity/Counting.antt =====
-- Reference counting and the numbering of identities (pkg/policy/identity.go).
use coordino.Base.{
  ℕ, ◌+◌, ◌-◌, ◌<◌, ◌≡◌, sym, ap, subst, ◌∙◌, ◌↔◌, inl, inr, Option, none, some, Bytes, bytes_eq,
  nat_eq, ok, arith, Option-cases,
}
use coordino.Base.GoMap.{
  lookup, insert, lookup-insert_self, insert_same, insert-insert, delete-insert_fresh,
}
use coordino.Net.{u32_mod}
use coordino.Policy.Labels.{Labels, hash_labels}
use coordino.Policy.Identity.{
  Identity, IdentityAllocator, with_ref_count, new_identity, add_identity, allocate_identity,
  release_identity,
}
use coordino.Policy.Identity.Invariant.{IsValid, same_hash}
use coordino.Policy.Identity.Methods.{
  reused, created, allocate_identity-Outcome, allocate_identity-IsValid,
}

abbrev Undone : IdentityAllocator → IdentityAllocator → ℕ → Type 0
Undone a b n =
    ((release_identity b n).0.identities ≡ a.identities)
    × ((release_identity b n).0.hash_to_id ≡ a.hash_to_id)

same_id : {i j : ℕ} → ◌≡◌ {A = Option ℕ} (some i) (some j) → i ≡ j
same_id e = ground arith

minus_one : (n : ℕ) → n + 1 - 1 ≡ n
minus_one n = omega arith

abbrev counted_up : IdentityAllocator → ℕ → Identity → IdentityAllocator
counted_up a i f = record a {
  identities = insert i (with_ref_count f (f.ref_count + 1)) a.identities;
}

undo_reused :
    (a : IdentityAllocator) (i : ℕ) (f : Identity)
    → lookup i a.identities ≡ some f
    → 0 < f.ref_count
    → Undone a (counted_up a i f) i
unfolding release_identity
undo_reused a i f at pos =
    let up = with_ref_count f (f.ref_count + 1) in
    let back : with_ref_count up (f.ref_count + 1 - 1) ≡ f =
      ap (with_ref_count f) (minus_one f.ref_count) in
    ground (
      arith,
      lookup-insert_self i up a.identities,
      back,
      insert-insert i up (with_ref_count up (f.ref_count + 1 - 1)) a.identities,
      ap (λ x. insert i x a.identities) back,
      insert_same i f a.identities at,
    )

module _ (digest : Bytes → Bytes) where
  undo_created :
      (a : IdentityAllocator) (labels : Labels)
      → lookup a.next_id a.identities ≡ none
      → lookup (hash_labels digest labels) a.hash_to_id ≡ none
      → Undone a (add_identity digest a labels) a.next_id
  unfolding release_identity add_identity
  undo_created a labels new e =
      let d = new_identity digest a labels in
      ground (
        arith,
        lookup-insert_self a.next_id d a.identities,
        delete-insert_fresh a.next_id d a.identities new,
        delete-insert_fresh (hash_labels digest labels) a.next_id a.hash_to_id e,
      )

  created_id :
      (a : IdentityAllocator) (labels : Labels) (d : Identity)
      → allocate_identity digest a labels
        ≡ (add_identity digest a labels, ok (new_identity digest a labels))
      → (allocate_identity digest a labels).1 ≡ ok d
      → d.id ≡ a.next_id
  created_id a labels d c h = ground (arith, c, h)

  reused_is :
      (a : IdentityAllocator) (labels : Labels) (d e : Identity) {b : IdentityAllocator}
      → allocate_identity digest a labels ≡ (b, ok e)
      → (allocate_identity digest a labels).1 ≡ ok d
      → d ≡ e
  reused_is a labels d e c h = ground (arith, c, h)

  unissued : (a : IdentityAllocator) → IsValid digest a → lookup a.next_id a.identities ≡ none
  unissued a v = elim (Option-cases (lookup a.next_id a.identities)) [
    | inl e ↦ e
    | inr (d, e) ↦ absurd (omega (arith, (v.entries a.next_id d e).issued))
  ]

  -- On a valid allocator, releasing the identity that AllocateIdentity has just returned gives back
  -- the same identities and the same hashes as before, with new labels and with known ones.
  pub release-allocate_identity :
      (a : IdentityAllocator) (labels : Labels) (d : Identity)
      → IsValid digest a
      → (allocate_identity digest a labels).1 ≡ ok d
      → ((release_identity (allocate_identity digest a labels).0 d.id).0.identities ≡ a.identities)
        × ((release_identity (allocate_identity digest a labels).0 d.id).0.hash_to_id
            ≡ a.hash_to_id)
  release-allocate_identity a labels d v h = elim (allocate_identity-Outcome digest a labels v) [
    | created e c ↦
        let same : a.next_id ≡ d.id = ground (arith, c, h) in
        rw c (
          subst (λ n. Undone a (add_identity digest a labels) n) same
            (undo_created a labels (unissued a v) e))
    | reused i f e at c ↦
        let same : i ≡ d.id = sym (v.entries i f at).own_id ∙ ground (arith, c, h) in
        rw c (
          subst (λ n. Undone a (counted_up a i f) n) same
            (undo_reused a i f at (v.entries i f at).referenced))
  ]

  -- Where the labels of an allocation are found afterwards.
  allocated_hash :
      (a : IdentityAllocator) (labels : Labels) (d : Identity)
      → IsValid digest a
      → (allocate_identity digest a labels).1 ≡ ok d
      → lookup (hash_labels digest labels) (allocate_identity digest a labels).0.hash_to_id
        ≡ some d.id
  unfolding add_identity
  allocated_hash a labels d v h = elim (allocate_identity-Outcome digest a labels v) [
    | created e c ↦
        rw (c, add_identity)
          (lookup-insert_self (hash_labels digest labels) a.next_id a.hash_to_id
            ∙ ground (arith, c, h))
    | reused i f e at c ↦ rw c (e ∙ ap some (sym (v.entries i f at).own_id) ∙ ground (arith, c, h))
  ]

  -- On a valid allocator with room for one more number, two calls of AllocateIdentity in a row give
  -- one number exactly when the two label sets have one hash.
  pub allocate_identity-eq_iff :
      (a : IdentityAllocator) (l m : Labels) (d f : Identity)
      → IsValid digest a
      → a.next_id + 1 < u32_mod
      → (allocate_identity digest a l).1 ≡ ok d
      → (allocate_identity digest (allocate_identity digest a l).0 m).1 ≡ ok f
      → (d.id ≡ f.id) ↔ (hash_labels digest l ≡ hash_labels digest m)
  allocate_identity-eq_iff a l m d f v room hd hf =
      let b = (allocate_identity digest a l).0 in
      let w = allocate_identity-IsValid digest a l v room in
      let at_l = allocated_hash a l d v hd in
      let (g, at_d, is_d) = w.hashed _ d.id at_l in
      elim (allocate_identity-Outcome digest b m w) [
        | created e c ↦ (
          λ p. absurd (omega (arith, (w.entries d.id g at_d).issued, p, created_id b m f c hf)),
          λ p. absurd (ground (arith, at_l, e, ap (λ h. lookup h b.hash_to_id) p)),
        )
        | reused i x e at c ↦
            let fi : f.id ≡ i =
              ap (λ (y : Identity). y.id) (reused_is b m f _ c hf) ∙ (w.entries i x at).own_id in
            let (y, at_i, is_m) = w.hashed _ i e in
            (
              λ p.
                  sym is_d
                  ∙ same_hash g y (sym at_d ∙ ap (λ n. lookup n b.identities) (p ∙ fi) ∙ at_i)
                  ∙ is_m,
              λ p. same_id (sym at_l ∙ ap (λ h. lookup h b.hash_to_id) p ∙ e) ∙ sym fi,
            )
      ]
