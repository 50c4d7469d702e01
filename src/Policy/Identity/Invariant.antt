-- ===== src/Policy/Identity/Invariant.antt =====
-- The two maps of IdentityAllocator (pkg/policy/identity.go) are inverse to one another.
use coordino.Base.{
  ℕ, ◌+◌, ◌<◌, ◌≡◌, refl, sym, ap, subst, ◌∙◌, ◌≢◌, ◌⊎◌, inl, inr, Option, none, some, Bytes,
  bytes_eq, nat_eq, arith, Bool-cases, ◌==◌, eq_of_beq, ne_of_beq, beq_of_ne, beq_refl,
}
use coordino.Base.GoMap.{GoMap, lookup, insert, lookup-insert, lookup-insert_self}
use coordino.Net.{u32_mod}
use coordino.Policy.Labels.{Labels, hash_labels}
use coordino.Policy.Identity.{
  Identity, IdentityAllocator, new_identity_allocator, new_identity, add_identity,
}

found_after {ℓ} :
    {A : Type ℓ} (i j : ℕ) (x : A) (m : GoMap ℕ A) (y : A)
    → lookup j (insert i x m) ≡ some y
    → ((i ≡ j) × (x ≡ y)) ⊎ ((i ≢ j) × (lookup j m ≡ some y))
found_after i j x m y h = elim (Bool-cases (i == j)) [
  | inl e ↦ inl (eq_of_beq i j e, ground (arith, lookup-insert i j x m))
  | inr e ↦ inr (ne_of_beq i j e, ground (arith, lookup-insert i j x m))
]

found_elsewhere :
    (h g : Bytes) (i j : ℕ) (m : GoMap Bytes ℕ)
    → lookup g (insert h i m) ≡ some j
    → ((h ≡ g) × (i ≡ j)) ⊎ ((h ≢ g) × (lookup g m ≡ some j))
found_elsewhere h g i j m e = elim (Bool-cases (h == g)) [
  | inl x ↦ inl (eq_of_beq h g x, ground (arith, lookup-insert h g i m))
  | inr x ↦ inr (ne_of_beq h g x, ground (arith, lookup-insert h g i m))
]

hash_of : Bytes → Option Identity → Bytes
hash_of h none = h
hash_of h (some d) = d.label_hash

pub same_hash :
    (d f : Identity) → ◌≡◌ {A = Option Identity} (some d) (some f) → d.label_hash ≡ f.label_hash
unfolding hash_of
same_hash d f e = ap (hash_of d.label_hash) e

module _ (digest : Bytes → Bytes) where
  -- What the entry of an identity says.
  pub record Entry (a : IdentityAllocator) (i : ℕ) (d : Identity) : Type 0 where
    pub own_id : d.id ≡ i
    pub own_hash : d.label_hash ≡ hash_labels digest d.labels
    pub indexed : lookup d.label_hash a.hash_to_id ≡ some i
    pub referenced : 0 < d.ref_count
    pub not_wildcard : 0 < i
    pub issued : i < a.next_id

  pub record IsValid (a : IdentityAllocator) : Type 0 where
    pub entries : (i : ℕ) (d : Identity) → lookup i a.identities ≡ some d → Entry a i d
    pub hashed :
        (h : Bytes) (i : ℕ)
        → lookup h a.hash_to_id ≡ some i
        → (d : Identity) × (lookup i a.identities ≡ some d) × (d.label_hash ≡ h)
    pub fresh : 0 < a.next_id
    pub in_range : a.next_id < u32_mod

  pub new_identity_allocator-IsValid : IsValid new_identity_allocator
  unfolding new_identity_allocator lookup
  new_identity_allocator-IsValid = record {
    entries = λ i d h. absurd (ground arith);
    hashed = λ h i e. absurd (ground arith);
    fresh = omega arith;
    in_range = omega arith;
  }

  -- An identity replaced in place, under the same number, hash and labels.
  pub record Same (d e : Identity) : Type 0 where
    pub id : e.id ≡ d.id
    pub labels : e.labels ≡ d.labels
    pub label_hash : e.label_hash ≡ d.label_hash
    pub referenced : 0 < e.ref_count

  pub replace-IsValid :
      (a : IdentityAllocator) (i : ℕ) (d e : Identity)
      → IsValid a
      → lookup i a.identities ≡ some d
      → Same d e
      → IsValid (record a { identities = insert i e a.identities })
  replace-IsValid a i d e v found s = record {
    entries = λ j f h. elim (found_after i j e a.identities f h) [
      | inl (ij, ef) ↦
          let x = v.entries i d found in
          subst (λ g. Entry (record a { identities = insert i e a.identities }) j g) ef
            (record {
              own_id = s.id ∙ x.own_id ∙ ij;
              own_hash = s.label_hash ∙ x.own_hash ∙ ap (hash_labels digest) (sym s.labels);
              indexed = ap (λ h. lookup h a.hash_to_id) s.label_hash ∙ x.indexed ∙ ap some ij;
              referenced = s.referenced;
              not_wildcard = omega (arith, x.not_wildcard, ij);
              issued = omega (arith, x.issued, ij);
            })
      | inr (ne, old) ↦
          let x = v.entries j f old in
          record {
            own_id = x.own_id;
            own_hash = x.own_hash;
            indexed = x.indexed;
            referenced = x.referenced;
            not_wildcard = x.not_wildcard;
            issued = x.issued;
          }
    ];
    hashed = λ h j l.
        let (f, at, is) = v.hashed h j l in
        elim (Bool-cases (i == j)) [
          | inl ij ↦ (
            e,
            ground (arith, lookup-insert i j e a.identities),
            s.label_hash
                ∙ same_hash d f
                    (sym found ∙ ap (λ n. lookup n a.identities) (eq_of_beq i j ij) ∙ at)
                ∙ is,
          )
          | inr ij ↦ (f, ground (arith, at, lookup-insert i j e a.identities), is)
        ];
    fresh = v.fresh;
    in_range = v.in_range;
  }

  pub add_identity-IsValid :
      (a : IdentityAllocator) (labels : Labels)
      → IsValid a
      → lookup (hash_labels digest labels) a.hash_to_id ≡ none
      → a.next_id + 1 < u32_mod
      → IsValid (add_identity digest a labels)
  unfolding add_identity
  add_identity-IsValid a labels v new room = record {
    entries = λ j f h. elim (found_after a.next_id j d a.identities f h) [
      | inl (ij, ef) ↦
          subst (λ g. Entry (add_identity digest a labels) j g) ef
            (record {
              own_id = ij;
              own_hash = refl;
              indexed =
                  lookup-insert key key a.next_id a.hash_to_id ∙ rw (beq_refl key) (ap some ij);
              referenced = omega arith;
              not_wildcard = omega (arith, v.fresh);
              issued = omega arith;
            })
      | inr (ne, old) ↦
          let x = v.entries j f old in
          record {
            own_id = x.own_id;
            own_hash = x.own_hash;
            indexed =
                lookup-insert key f.label_hash a.next_id a.hash_to_id
                ∙ rw (beq_of_ne key f.label_hash (other f j x.indexed)) x.indexed;
            referenced = x.referenced;
            not_wildcard = x.not_wildcard;
            issued = omega (arith, x.issued);
          }
    ];
    hashed = λ h j l. elim (found_elsewhere key h a.next_id j a.hash_to_id l) [
      | inl (kh, ij) ↦ (d, ap (λ n. lookup n (insert a.next_id d a.identities)) (sym ij) ∙ self, kh)
      | inr (ne, old) ↦
          let (f, at, is) = v.hashed h j old in
          let below = (v.entries j f at).issued in
          (f, ground (arith, at, below, lookup-insert a.next_id j d a.identities), is)
    ];
    fresh = omega arith;
    in_range = omega arith;
  }
    where
      key : Bytes
      key = hash_labels digest labels

      d : Identity
      d = new_identity digest a labels

      self : lookup a.next_id (insert a.next_id d a.identities) ≡ some d
      self = lookup-insert_self a.next_id d a.identities

      other :
          (f : Identity) (j : ℕ) → lookup f.label_hash a.hash_to_id ≡ some j → key ≢ f.label_hash
      other f j l e = ground (arith, new, l, ap (λ h. lookup h a.hash_to_id) e)
