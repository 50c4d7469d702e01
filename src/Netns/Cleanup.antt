-- ===== src/Netns/Cleanup.antt =====
-- SetupPodNetwork and TeardownPodNetwork (pkg/netns/netns.go) on the simulated operator.
use coordino.Base.{
  ◌≡◌, ◌≢◌, refl, sym, ap, ◌∙◌, subst, ◌⊎◌, inl, inr, arith, ◌++◌, false, none, [], Bytes, bytes,
  bytes_eq, Result, ok, err, ◌==◌, beq_of_ne,
}
use coordino.Base.GoMap.{lookup, delete, lookup-delete}
use coordino.Netns.{
  VethPair, NetnsConfig, check, setup_steps, undo_unless_done, setup_pod_network,
  teardown_pod_network, generate_host_veth_name, teardown_error,
}
use coordino.Netns.Simulated.{
  Simulated, simulated_netlink_operator, logged, create_veth_pair, delete_link, delete_op,
}
use coordino.Netns.Paired.{Paired, create_veth_pair-Paired, setup_steps-Keeps}

-- The same links under the same names.
abbrev pub SameLinks : Simulated → Simulated → Type 0
SameLinks s t = (j : Bytes) → lookup j t.links ≡ lookup j s.links

module _ (host pod : Bytes) (s : Simulated) (h : lookup host s.links ≡ none)
    (q : lookup pod s.links ≡ none) (named : pod ≢ []) (works : s.fail_on ≢ delete_op host) where
  deleted :
      (t : Simulated)
      → Paired host pod s t
      → delete_link t host
        ≡ (record (logged (delete_op host) t) { links = delete pod (delete host t.links) }, none)
  unfolding delete_link
  deleted t p =
      let fine : (t.fail_on == delete_op host) ≡ false =
        beq_of_ne t.fail_on (delete_op host) (λ e. works (sym p.same_fail_on ∙ e)) in
      rw (fine, p.at_host, p.peer_is_pod, beq_of_ne pod [] named, delete_link) refl

  -- Deleting the host's link of a pair that was new gives back the links from before.
  delete_link-Paired :
      (t : Simulated)
      → Paired host pod s t
      → ((delete_link t host).1 ≡ none) × SameLinks s (delete_link t host).0
  delete_link-Paired t p =
      subst (λ r. (r.1 ≡ none) × SameLinks s r.0) (sym (deleted t p))
        (
          refl,
          λ j. ground (
            arith,
            h,
            q,
            lookup-delete pod j (delete host t.links),
            lookup-delete host j t.links,
            p.others j,
            bytes_eq.beq_iff host j,
            bytes_eq.beq_iff pod j,
            λ (e : host ≡ j). ap (λ k. lookup k s.links) e,
            λ (e : pod ≡ j). ap (λ k. lookup k s.links) e,
          ),
        )

  undone :
      (r : Simulated × Result Bytes VethPair) (e : Bytes)
      → Paired host pod s r.0
      → (undo_unless_done simulated_netlink_operator host r).1 ≡ err e
      → SameLinks s (undo_unless_done simulated_netlink_operator host r).0
  unfolding undo_unless_done
  undone (t, ok pair) e p failed = absurd (ground (arith, failed))
  undone (t, err x) e p failed = (delete_link-Paired t p).1

  kept :
      (r : Simulated × Result Bytes VethPair) (pair : VethPair)
      → Paired host pod s r.0
      → (undo_unless_done simulated_netlink_operator host r).1 ≡ ok pair
      → Paired host pod s (undo_unless_done simulated_netlink_operator host r).0
  unfolding undo_unless_done
  kept (t, ok x) pair p done = p
  kept (t, err x) pair p done = absurd (ground (arith, done))

module _ (sha256 : Bytes → Bytes) (config : NetnsConfig) (s : Simulated) where
  abbrev pub host_name_of : Bytes
  host_name_of = generate_host_veth_name sha256 config.container_id

  abbrev setup : Simulated × Result Bytes VethPair
  setup = setup_pod_network simulated_netlink_operator sha256 config s

  -- Setting up after the pair was created.
  abbrev rest : Simulated → Simulated × Result Bytes VethPair
  rest t =
      undo_unless_done simulated_netlink_operator host_name_of
        (setup_steps simulated_netlink_operator host_name_of config t)

  -- Either the pair was created and the later steps ran, or nothing changed but the log.
  setup_cases :
      ((t : Simulated) × Paired host_name_of config.if_name s t × (setup ≡ rest t))
      ⊎ ((e : Bytes) × (setup ≡ (logged (bytes "CreateVethPair") s, err e)))
  unfolding setup_pod_network check
  setup_cases =
      let text = bytes "failed to create veth pair: " in
      let r = create_veth_pair s host_name_of config.if_name in
      elim (create_veth_pair-Paired host_name_of config.if_name s) [
        | inl (fine, p) ↦ inl (r.0, p, ap (λ o. check (r.0, o) text rest) fine)
        | inr (e, failed) ↦ inr (text ++ e, ap (λ x. check x text rest) failed)
      ]

  -- On the simulated operator, where neither end of the pair exists yet, the pod's interface has a
  -- name and deleting the host's end is not the operation that fails: a SetupPodNetwork that returns
  -- an error, at whichever step, leaves the links exactly as they were.
  pub setup_pod_network_fails :
      (e : Bytes)
      → lookup host_name_of s.links ≡ none
      → lookup config.if_name s.links ≡ none
      → config.if_name ≢ []
      → s.fail_on ≢ delete_op host_name_of
      → (setup_pod_network simulated_netlink_operator sha256 config s).1 ≡ err e
      → SameLinks s (setup_pod_network simulated_netlink_operator sha256 config s).0
  setup_pod_network_fails e h q named works failed = elim setup_cases [
    | inr (x, made) ↦ subst (λ r. SameLinks s r.0) (sym made) (λ j. refl)
    | inl (t, p, made) ↦
        subst (λ r. SameLinks s r.0) (sym made)
          (undone host_name_of config.if_name s h q named works
            (setup_steps simulated_netlink_operator host_name_of config t) e
            (setup_steps-Keeps host_name_of config s t p) (sym (ap (λ r. r.1) made) ∙ failed))
  ]

  -- On the simulated operator, where neither end of the pair existed, the pod's interface has a name
  -- and deleting the host's end is not the operation that fails: after a SetupPodNetwork that
  -- succeeds, TeardownPodNetwork of the same configuration succeeds and leaves the links exactly as
  -- they were before.
  pub teardown-setup_pod_network :
      (pair : VethPair)
      → lookup host_name_of s.links ≡ none
      → lookup config.if_name s.links ≡ none
      → config.if_name ≢ []
      → s.fail_on ≢ delete_op host_name_of
      → (setup_pod_network simulated_netlink_operator sha256 config s).1 ≡ ok pair
      → (let t = (setup_pod_network simulated_netlink_operator sha256 config s).0 in
          ((teardown_pod_network simulated_netlink_operator sha256 config t).1 ≡ none)
          × SameLinks s (teardown_pod_network simulated_netlink_operator sha256 config t).0)
  unfolding teardown_pod_network
  teardown-setup_pod_network pair h q named works done = elim setup_cases [
    | inr (x, made) ↦ absurd (ground (arith, made, done))
    | inl (t, p, made) ↦
        let left : Paired host_name_of config.if_name s setup.0 =
          subst (λ r. Paired host_name_of config.if_name s r.0) (sym made)
            (kept host_name_of config.if_name s h q named works
              (setup_steps simulated_netlink_operator host_name_of config t) pair
              (setup_steps-Keeps host_name_of config s t p) (sym (ap (λ r. r.1) made) ∙ done)) in
        let (fine, same) =
          delete_link-Paired host_name_of config.if_name s h q named works setup.0 left in
        (ap (teardown_error host_name_of) fine, same)
  ]
