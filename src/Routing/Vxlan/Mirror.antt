-- ===== src/Routing/Vxlan/Mirror.antt =====
-- The forwarding database of pkg/routing/vxlan.go mirrors the known nodes.
use coordino.Base.{
  ◌≡◌, refl, sym, subst, inl, inr, Bytes, bytes_eq, Bool, true, false, Option, none, some, List, [],
  ◌∷◌, length, arith, if◌then◌else◌, Bool-cases, Option-cases,
}
use coordino.Base.GoMap.{GoMap, lookup, insert, lookup-insert, lookup-delete}
use coordino.Routing.{NodeInfo, Error}
use coordino.Routing.Vxlan.{
  VxlanConfig, FdbEntry, VxlanBackend, new_vxlan_backend, init, put_node, drop_node, add_node,
  remove_node, update_node, entry_of, remove_stale, put_nodes, sync_routes, close,
}

-- The name and the address that the entry of a node holds.
abbrev pub entry_for : Option FdbEntry → Option (Bytes × Bytes)
entry_for none = none
entry_for (some f) = some (f.node_name, f.remote_ip)

abbrev pub wanted_entry : Bytes → Option NodeInfo → Option (Bytes × Bytes)
wanted_entry name none = none
wanted_entry name (some n) = some (name, n.node_ip)

-- Every known node has its entry in the database, with its name and its address, and there is no
-- other entry.
abbrev pub IsMirrored : VxlanBackend → Type 0
IsMirrored v =
    (name : Bytes) → entry_for (lookup name v.fdb) ≡ wanted_entry name (lookup name v.nodes)

put_node-IsMirrored :
    (name : Bytes) (node : NodeInfo) (v : VxlanBackend)
    → IsMirrored v
    → IsMirrored (put_node name node v)
unfolding put_node
put_node-IsMirrored name node v m j =
    let n = length (insert name node v.nodes) in
    ground (
      arith,
      m j,
      lookup-insert name j (entry_of n name node) v.fdb,
      lookup-insert name j node v.nodes,
      bytes_eq.beq_iff name j,
    )

drop_node-IsMirrored :
    (name : Bytes) (node : NodeInfo) (v : VxlanBackend)
    → IsMirrored v
    → IsMirrored (drop_node name node v)
unfolding drop_node
drop_node-IsMirrored name node v m j =
    ground (arith, m j, lookup-delete name j v.fdb, lookup-delete name j v.nodes)

remove_stale-IsMirrored :
    (d ps : GoMap Bytes NodeInfo) (v : VxlanBackend)
    → IsMirrored v
    → IsMirrored (remove_stale d ps v)
unfolding remove_stale
remove_stale-IsMirrored d [] v m = m
remove_stale-IsMirrored d ((j, n) ∷ ps) v m = elim (Option-cases (lookup j d)) [
  | inl e ↦
      rw (e, remove_stale)
        (remove_stale-IsMirrored d ps (drop_node j n v) (drop_node-IsMirrored j n v m))
  | inr (x, e) ↦ rw (e, remove_stale) (remove_stale-IsMirrored d ps v m)
]

put_nodes-IsMirrored :
    (d : GoMap Bytes NodeInfo) (v : VxlanBackend) → IsMirrored v → IsMirrored (put_nodes d v)
unfolding put_nodes
put_nodes-IsMirrored [] v m = m
put_nodes-IsMirrored ((j, n) ∷ d) v m =
    put_nodes-IsMirrored d (put_node j n v) (put_node-IsMirrored j n v m)

-- One call of a method that changes the backend.
pub data Call : Type 0 where
  inits : NodeInfo → Call
  adds : NodeInfo → Call
  removes : Bytes → Call
  updates : NodeInfo → Call
  syncs : List NodeInfo → Call
  closes : Call

abbrev pub step : Call → VxlanBackend → VxlanBackend
step (Call.inits n) v = init n v
step (Call.adds n) v = (add_node n v).0
step (Call.removes name) v = remove_node name v
step (Call.updates n) v = update_node n v
step (Call.syncs ns) v = sync_routes ns v
step Call.closes v = close v

abbrev pub run : List Call → VxlanBackend → VxlanBackend
run [] v = v
run (c ∷ cs) v = run cs (step c v)

step-IsMirrored : (c : Call) (v : VxlanBackend) → IsMirrored v → IsMirrored (step c v)
unfolding init add_node remove_node update_node sync_routes close
step-IsMirrored (Call.inits n) v m = m
step-IsMirrored (Call.adds n) v m =
    let Left = λ (x : Bool). IsMirrored (if x then put_node n.name n v else v) in
    elim (Bool-cases v.running) [
      | inl e ↦ moved v.running (subst Left (sym e) (put_node-IsMirrored n.name n v m))
      | inr e ↦ moved v.running (subst Left (sym e) m)
    ]
  where
    moved :
        (x : Bool)
        → IsMirrored (if x then put_node n.name n v else v)
        → (let r : VxlanBackend × Option Error =
              if x then (put_node n.name n v, none) else (v, some Error.not_running) in
            IsMirrored r.0)
    moved true w = w
    moved false w = w
step-IsMirrored (Call.removes name) v m = elim (Option-cases (lookup name v.nodes)) [
  | inl e ↦ rw (e, remove_node) m
  | inr (n, e) ↦ rw (e, remove_node) (drop_node-IsMirrored name n v m)
]
step-IsMirrored (Call.updates n) v m = put_node-IsMirrored n.name n _ m
step-IsMirrored (Call.syncs ns) v m =
    put_nodes-IsMirrored _ _ (remove_stale-IsMirrored _ v.nodes v m)
step-IsMirrored Call.closes v m = m

run_from-IsMirrored : (cs : List Call) (v : VxlanBackend) → IsMirrored v → IsMirrored (run cs v)
run_from-IsMirrored [] v m = m
run_from-IsMirrored (c ∷ cs) v m = run_from-IsMirrored cs (step c v) (step-IsMirrored c v m)

-- After any calls on a new VXLAN backend, every known node has an entry in the forwarding database
-- with its name and its address, and there is no other entry.
pub run-IsMirrored :
    (config : VxlanConfig) (cs : List Call) → IsMirrored (run cs (new_vxlan_backend config))
unfolding new_vxlan_backend lookup
run-IsMirrored config cs = run_from-IsMirrored cs _ (λ name. refl)
