-- ===== src/Agent/Handler.antt =====
-- The outcomes of NodeAgentHandler.HandleAdd (cmd/node-agent/main.go), step by step.
use coordino.Base.{
  ℕ, ◌≡◌, ◌≢◌, refl, sym, ◌∙◌, subst, inl, inr, arith, none, some, [], ◌++◌, Bytes, bytes, bytes_eq,
  ok, err, Option-cases, Result-cases, some-injective,
}
use coordino.Base.GoMap.{insert}
use coordino.Net.{Ip}
use coordino.Ipam.Node.{NodeAllocator, pod_key, allocate, release}
use coordino.Ipam.Node
use coordino.Ipam.Node.Allocate.{known, fresh_at, full, allocate-Outcome}
use coordino.Ipam.Checkpoint.{allocate_error}
use coordino.Policy.Identity.{Identity, allocate_identity, release_identity}
use coordino.Netns.{setup_pod_network}
use coordino.Rpc.{AddRequest, AddResponse}
use coordino.Agent.{
  Environment, NodeAgent, PodEndpointInfo, release_pod, program_pod, connect_pod, address_pod,
  handle_add, with_allocator, with_identities, with_netns, index_or_zero, labels_of_request,
  add_config, add_error, next_ip,
}

module _ (E : Environment) (now : ℕ) (req : AddRequest) where
  abbrev pub key_of : Bytes
  key_of = pod_key req.pod_name req.pod_namespace

  abbrev pub info_of : Ip → ℕ → PodEndpointInfo
  info_of ip id = record { ip = ip; identity_id = id; if_name = req.if_name; netns = req.netns }

  -- The failing paths after the address was allocated.
  pub record Undone (id : ℕ) (a b : NodeAgent E) : Type 0 where
    pub allocator : b.allocator ≡ release a.allocator req.pod_name req.pod_namespace
    pub identities : b.identity_allocator ≡ (release_identity a.identity_allocator id).0
    pub endpoints : b.pod_endpoints ≡ a.pod_endpoints

  -- The path that succeeds.
  pub record Tracked (ip : Ip) (id : ℕ) (a b : NodeAgent E) : Type 0 where
    pub allocator : b.allocator ≡ a.allocator
    pub identities : b.identity_allocator ≡ a.identity_allocator
    pub endpoints : b.pod_endpoints ≡ insert key_of (info_of ip id) a.pod_endpoints

  pub data Attempt (ip : Ip) (id : ℕ) (a : NodeAgent E) (r : NodeAgent E × AddResponse)
      : Type 0 where
    undone : Undone id a r.0 → r.1.error ≢ [] → Attempt ip id a r
    tracked :
        Tracked ip id a r.0
        → r.1.error ≡ []
        → r.1.ip ≡ E.ip_string ip ++ bytes "/24"
        → Attempt ip id a r

  program_pod-Attempt :
      (ip : Ip) (id : ℕ) (gateway host : Bytes) (a : NodeAgent E)
      → Attempt ip id a (
          program_pod E now req ip id
            (add_config req (E.ip_string ip ++ bytes "/24") gateway)
            host
            a)
  unfolding program_pod release_pod
  program_pod-Attempt ip id gateway host a =
      elim (Option-cases
        (E.data_plane.add_pod_endpoint now ip id (index_or_zero (E.interface_index host)) a.dp).1) [
          | inl fine ↦
              rw (fine, program_pod)
                (tracked (record { allocator = refl; identities = refl; endpoints = refl }) refl
                  refl)
          | inr (e, failed) ↦
              rw (failed, program_pod)
                (undone (record { allocator = refl; identities = refl; endpoints = refl })
                  (λ x. ground (arith, x)))
        ]

  -- The state of the namespaces is not looked at.
  with_netns-Attempt :
      (ip : Ip) (id : ℕ) (a : NodeAgent E) (n : E.netlink.State) (r : NodeAgent E × AddResponse)
      → Attempt ip id (with_netns E n a) r
      → Attempt ip id a r
  with_netns-Attempt ip id a n r (undone u e) =
      undone
        (record { allocator = u.allocator; identities = u.identities; endpoints = u.endpoints }) e
  with_netns-Attempt ip id a n r (tracked t e i) =
      tracked
        (record { allocator = t.allocator; identities = t.identities; endpoints = t.endpoints }) e i

  pub connect_pod-Attempt :
      (ip : Ip) (id : ℕ) (gateway : Bytes) (a : NodeAgent E)
      → Attempt ip id a (connect_pod E now req ip id gateway a)
  unfolding connect_pod release_pod
  connect_pod-Attempt ip id gateway a =
      let config = add_config req (E.ip_string ip ++ bytes "/24") gateway in
      let r = setup_pod_network E.netlink E.sha256 config a.netns in
      elim (Result-cases r.1) [
        | inl (e, failed) ↦
            rw (failed, connect_pod)
              (undone (record { allocator = refl; identities = refl; endpoints = refl })
                (λ x. ground (arith, x)))
        | inr (veth, fine) ↦
            rw (fine, connect_pod)
              (with_netns-Attempt ip id a r.0 _
                (program_pod-Attempt ip id gateway veth.host_name (with_netns E r.0 a)))
      ]

  -- The ways in which HandleAdd answers, by its identity and address.
  pub data Outcome (a b : NodeAgent E) (resp : AddResponse) : Type 0 where
    no_address :
        (identity : Identity) (e : Node.Error)
        → (allocate_identity E.digest a.identity_allocator (labels_of_request req)).1 ≡ ok identity
        → (allocate a.allocator req.pod_name req.pod_namespace now).1 ≡ err e
        → b.allocator ≡ a.allocator
        → b.identity_allocator
          ≡ (release_identity
              (allocate_identity E.digest a.identity_allocator (labels_of_request req)).0
              identity.id).0
        → b.pod_endpoints ≡ a.pod_endpoints
        → resp.error ≢ []
        → Outcome a b resp
    addressed :
        (identity : Identity) (ip : Ip)
        → (allocate_identity E.digest a.identity_allocator (labels_of_request req)).1 ≡ ok identity
        → (allocate a.allocator req.pod_name req.pod_namespace now).1 ≡ ok ip
        → Attempt ip identity.id
            (with_allocator E (allocate a.allocator req.pod_name req.pod_namespace now).0 (
              with_identities E
                (allocate_identity E.digest a.identity_allocator (labels_of_request req)).0
                a))
            (b, resp)
        → Outcome a b resp

  abbrev numbered : NodeAgent E → NodeAgent E
  numbered a =
      with_identities E (allocate_identity E.digest a.identity_allocator (labels_of_request req)).0
        a

  abbrev placed : NodeAgent E → NodeAgent E
  placed a =
      with_allocator E (allocate a.allocator req.pod_name req.pod_namespace now).0 (numbered a)

  -- The answer of the path without a free address.
  abbrev refusal : NodeAgent E → ℕ → NodeAgent E × AddResponse
  refusal a id = (
    with_identities E (release_identity (numbered a).identity_allocator id).0 (placed a),
    add_error (bytes "IP allocation failed: " ++ allocate_error E.cidr_string a.allocator),
  )

  err-allocate :
      (m : NodeAllocator) (e : Node.Error)
      → (allocate m req.pod_name req.pod_namespace now).1 ≡ err e
      → (allocate m req.pod_name req.pod_namespace now).0 ≡ m
  err-allocate m e h = elim (allocate-Outcome m req.pod_name req.pod_namespace now) [
    | known r l made ↦ absurd (ground (arith, made, h))
    | full l none_free made ↦ rw made refl
    | fresh_at i l first made ↦ absurd (ground (arith, made, h))
  ]

  pub handle_add-Outcome :
      (a b : NodeAgent E) (resp : AddResponse)
      → handle_add E now req a ≡ some (b, resp)
      → Outcome a b resp
  unfolding handle_add address_pod
  handle_add-Outcome a b resp h =
      elim (Result-cases
        (allocate_identity E.digest a.identity_allocator (labels_of_request req)).1) [
          | inl (e, panics) ↦
              let made : handle_add E now req a ≡ none = rw (panics, handle_add) refl in
              absurd (ground (arith, made, h))
          | inr (identity, fine) ↦
              let named : handle_add E now req a ≡ address_pod E now req identity.id (numbered a) =
                rw (fine, handle_add) refl in
              elim (Result-cases (allocate a.allocator req.pod_name req.pod_namespace now).1) [
                | inl (e, failed) ↦
                    let refused : handle_add E now req a ≡ some (refusal a identity.id) =
                      named ∙ rw (failed, address_pod) refl in
                    subst (λ r. Outcome a r.0 r.1) (some-injective _ _ (sym refused ∙ h))
                      (no_address identity e fine failed (err-allocate a.allocator e failed) refl
                        refl (λ x. ground (arith, x)))
                | inr (ip, found) ↦ elim (Option-cases (E.parse_cidr a.pod_cidr)) [
                  | inl bad ↦
                      let panics : handle_add E now req a ≡ none =
                        named ∙ rw (found, bad, address_pod) refl in
                      absurd (ground (arith, panics, h))
                  | inr (net, parsed) ↦
                      let went_on : handle_add E now req a
                          ≡ some (
                              connect_pod E now req ip identity.id (E.ip_string (next_ip net.ip))
                                (placed a)) =
                        named ∙ rw (found, parsed, address_pod) refl in
                      addressed identity ip fine found (
                        subst (Attempt ip identity.id (placed a))
                          (some-injective _ _ (sym went_on ∙ h))
                          (connect_pod-Attempt ip identity.id (E.ip_string (next_ip net.ip))
                            (placed a)))
                ]
              ]
        ]
