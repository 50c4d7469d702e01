-- ===== src/Netns/Paired.antt =====
-- What the steps of SetupPodNetwork (pkg/netns/netns.go) keep on the simulated operator: the host's
-- link leads to the pod's, and the other links stay as they are.
use coordino.Base.{
  ◌≡◌, refl, sym, ap, ◌∙◌, ◌⊎◌, inl, inr, arith, Bool, true, false, Option, none, some, [], Bytes,
  bytes, bytes_eq, Result, if◌then◌else◌, ◌==◌, Bool-cases, Option-cases, eq_of_beq, beq_refl,
  length, ◌+◌,
}
use coordino.Base.GoMap.{lookup, insert, lookup-insert, lookup-insert_self}
use coordino.Netns.{
  VethPair, NetnsConfig, check, add_default_route, set_mtus, read_macs, setup_steps, is_positive,
}
use coordino.Netns.Simulated.{
  SimLink, Simulated, simulated_netlink_operator, record_op, logged, new_link, change_link,
  set_interface_up, move_to_netns, add_address, add_route, set_mtu, create_veth_pair,
}

module _ (host pod : Bytes) (start : Simulated) where
  pub record Paired (t : Simulated) : Type 0 where
    pub same_fail_on : t.fail_on ≡ start.fail_on
    pub host_link : SimLink
    pub at_host : lookup host t.links ≡ some host_link
    pub peer_is_pod : host_link.peer ≡ pod
    pub others :
        (j : Bytes)
        → (host == j) ≡ false
        → (pod == j) ≡ false
        → lookup j t.links ≡ lookup j start.links

  logged-Paired : (op : Bytes) (t : Simulated) → Paired t → Paired (logged op t)
  logged-Paired op t p = record {
    same_fail_on = p.same_fail_on;
    host_link = p.host_link;
    at_host = p.at_host;
    peer_is_pod = p.peer_is_pod;
    others = p.others;
  }

  -- One of the two links is written, and keeps its peer.
  abbrev IsOwn : Bytes → Type 0
  IsOwn name = ((host == name) ≡ true) ⊎ ((pod == name) ≡ true)

  written-Paired :
      (op name : Bytes) (link new : SimLink) (t : Simulated)
      → IsOwn name
      → lookup name t.links ≡ some link
      → new.peer ≡ link.peer
      → Paired t
      → Paired (record (logged op t) { links = insert name new t.links })
  written-Paired op name link new t own l keeps p = elim (Bool-cases (name == host)) [
    | inl e ↦
        let same : name ≡ host = eq_of_beq name host e in
        let old : link ≡ p.host_link =
          ap (λ o. elim o [ none ↦ link | some x ↦ x ])
            (sym l ∙ ap (λ j. lookup j t.links) same ∙ p.at_host) in
        record {
          same_fail_on = p.same_fail_on;
          host_link = new;
          at_host = lookup-insert name host new t.links ∙ rw e refl;
          peer_is_pod = keeps ∙ ap (λ (x : SimLink). x.peer) old ∙ p.peer_is_pod;
          others = others_stay;
        }
    | inr e ↦ record {
      same_fail_on = p.same_fail_on;
      host_link = p.host_link;
      at_host = lookup-insert name host new t.links ∙ rw e p.at_host;
      peer_is_pod = p.peer_is_pod;
      others = others_stay;
    }
  ]
    where
      others_stay :
          (j : Bytes)
          → (host == j) ≡ false
          → (pod == j) ≡ false
          → lookup j (insert name new t.links) ≡ lookup j start.links
      others_stay j h q = ground (
        arith,
        own,
        lookup-insert name j new t.links,
        p.others j h q,
        bytes_eq.beq_iff host name,
        bytes_eq.beq_iff pod name,
        bytes_eq.beq_iff name j,
        bytes_eq.beq_iff host j,
        bytes_eq.beq_iff pod j,
      )

  change_link-Paired :
      (op name : Bytes) (f : SimLink → SimLink) (t : Simulated)
      → IsOwn name
      → ((l : SimLink) → (f l).peer ≡ l.peer)
      → Paired t
      → Paired (change_link op name f t).0
  unfolding change_link
  change_link-Paired op name f t own keeps p = elim (Option-cases (record_op op t)) [
    | inr (e, failed) ↦ rw (failed, change_link) (logged-Paired op t p)
    | inl fine ↦ elim (Option-cases (lookup name t.links)) [
      | inl gone ↦ rw (fine, gone, change_link) (logged-Paired op t p)
      | inr (link, l) ↦
          rw (fine, l, change_link) (written-Paired op name link (f link) t own l (keeps link) p)
    ]
  ]

  add_route-Paired :
      (t : Simulated) (name dst gw : Bytes) → Paired t → Paired (add_route t name dst gw).0
  unfolding add_route
  add_route-Paired t name dst gw p = logged-Paired _ t p

  check-Paired :
      {A : Type 0} (r : Simulated × Option Bytes) (text : Bytes)
      (next : Simulated → Simulated × Result Bytes A)
      → Paired r.0
      → ((t : Simulated) → Paired t → Paired (next t).0)
      → Paired (check r text next).0
  unfolding check
  check-Paired (t, none) text next p keeps = keeps t p
  check-Paired (t, some e) text next p keeps = p

  if-Paired :
      {A : Type 0} (b : Bool) (x y : Simulated × Result Bytes A)
      → Paired x.0
      → Paired y.0
      → Paired (if b then x else y).0
  if-Paired true x y p q = p
  if-Paired false x y p q = q

created-Paired :
    (host pod : Bytes) (s : Simulated)
    → Paired host pod s (record (logged (bytes "CreateVethPair") s) {
      links =
          insert pod
            (new_link pod (length s.links + 1) host)
            (insert host (new_link host (length s.links) pod) s.links);
    })
created-Paired host pod s =
    let hosts = new_link host (length s.links) pod in
    let pods = new_link pod (length s.links + 1) host in
    let others : (j : Bytes)
        → (host == j) ≡ false
        → (pod == j) ≡ false
        → lookup j (insert pod pods (insert host hosts s.links)) ≡ lookup j s.links =
      λ j h q.
        lookup-insert pod j pods (insert host hosts s.links)
        ∙ rw q (lookup-insert host j hosts s.links ∙ rw h refl) in
    elim (Bool-cases (pod == host)) [
      | inl e ↦ record {
        same_fail_on = refl;
        host_link = pods;
        at_host = lookup-insert pod host pods (insert host hosts s.links) ∙ rw e refl;
        peer_is_pod = sym (eq_of_beq pod host e);
        others = others;
      }
      | inr e ↦ record {
        same_fail_on = refl;
        host_link = hosts;
        at_host =
            lookup-insert pod host pods (insert host hosts s.links)
            ∙ rw e (lookup-insert_self host hosts s.links);
        peer_is_pod = refl;
        others = others;
      }
    ]

-- A pair that was created, or the error on which nothing was written.
pub create_veth_pair-Paired :
    (host pod : Bytes) (s : Simulated)
    → ((create_veth_pair s host pod).1 ≡ none × Paired host pod s (create_veth_pair s host pod).0)
      ⊎ ((e : Bytes) × (create_veth_pair s host pod ≡ (logged (bytes "CreateVethPair") s, some e)))
unfolding create_veth_pair
create_veth_pair-Paired host pod s = elim (Option-cases (record_op (bytes "CreateVethPair") s)) [
  | inr (e, failed) ↦ inr (e, rw (failed, create_veth_pair) refl)
  | inl fine ↦
      inl
        (rw (fine, create_veth_pair) refl, rw (fine, create_veth_pair) (created-Paired host pod s))
]

module _ (host : Bytes) (config : NetnsConfig) (start : Simulated) where
  abbrev Keeps : {A : Type 0} → (Simulated → Simulated × Result Bytes A) → Type 0
  Keeps step =
      (t : Simulated)
      → Paired host config.if_name start t
      → Paired host config.if_name start (step t).0

  abbrev pod_changes :
      (op : Bytes) (f : SimLink → SimLink)
      → ((l : SimLink) → (f l).peer ≡ l.peer)
      → (t : Simulated) → Paired host config.if_name start t
      → Paired host config.if_name start (change_link op config.if_name f t).0
  pod_changes op f keeps t p =
      change_link-Paired host config.if_name start op config.if_name f t
        (inr (beq_refl config.if_name)) keeps p

  abbrev host_changes :
      (op : Bytes) (f : SimLink → SimLink)
      → ((l : SimLink) → (f l).peer ≡ l.peer)
      → (t : Simulated) → Paired host config.if_name start t
      → Paired host config.if_name start (change_link op host f t).0
  host_changes op f keeps t p =
      change_link-Paired host config.if_name start op host f t (inl (beq_refl host)) keeps p

  read_macs-Keeps : Keeps (read_macs simulated_netlink_operator host config)
  unfolding read_macs
  read_macs-Keeps t p = p

  set_mtus-Keeps :
      (next : Simulated → Simulated × Result Bytes VethPair)
      → Keeps next
      → Keeps (set_mtus simulated_netlink_operator host config next)
  unfolding set_mtus set_mtu
  set_mtus-Keeps next keeps t p =
      if-Paired host config.if_name start (is_positive config.mtu) _ _
        (check-Paired host config.if_name start _ _ _ (host_changes _ _ (λ l. refl) t p) λ t' p'.
          check-Paired host config.if_name start _ _ next (pod_changes _ _ (λ l. refl) t' p') keeps)
        (keeps t p)

  add_default_route-Keeps :
      (next : Simulated → Simulated × Result Bytes VethPair)
      → Keeps next
      → Keeps (add_default_route simulated_netlink_operator config next)
  unfolding add_default_route
  add_default_route-Keeps next keeps t p =
      if-Paired host config.if_name start (config.gateway == []) _ _ (keeps t p) (
        check-Paired host config.if_name start _ _ next
          (add_route-Paired host config.if_name start t config.if_name _ config.gateway p) keeps)

  pub setup_steps-Keeps : Keeps (setup_steps simulated_netlink_operator host config)
  unfolding setup_steps set_interface_up move_to_netns add_address
  setup_steps-Keeps t p =
      check-Paired host config.if_name start _ _ _ (pod_changes _ _ (λ l. refl) t p) λ t2 p2.
        check-Paired host config.if_name start _ _ _ (pod_changes _ _ (λ l. refl) t2 p2) λ t3 p3.
          check-Paired host config.if_name start _ _ _ (host_changes _ _ (λ l. refl) t3 p3) λ t4 p4.
            check-Paired host config.if_name start _ _ _ (pod_changes _ _ (λ l. refl) t4 p4)
              (add_default_route-Keeps _ (set_mtus-Keeps _ read_macs-Keeps))
