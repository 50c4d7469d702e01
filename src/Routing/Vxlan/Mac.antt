-- ===== src/Routing/Vxlan/Mac.antt =====
-- The hardware addresses that pkg/routing/vxlan.go gives to nodes.
use coordino.Base.{◌≡◌, ◌≢◌, sym, ap, ◌∙◌, bytes_eq, none, some, arith, length, beq_of_ne}
use coordino.Base.GoMap.{
  lookup, insert, delete, Distinct, lookup-insert, lookup-delete, lookup-insert_self, length-insert,
  length-delete, insert-Distinct,
}
use coordino.Routing.{NodeInfo}
use coordino.Routing.Vxlan.{VxlanBackend, FdbEntry, entry_of, mac_of, put_node, drop_node}

-- Of three new nodes with different names in a backend whose node names are distinct, if the first
-- two join, the first leaves and the third joins, the second and the third have one hardware address
-- in the forwarding database.
pub mac_reused :
    (a b c : NodeInfo) (v : VxlanBackend)
    → Distinct v.nodes
    → lookup a.name v.nodes ≡ none
    → lookup b.name v.nodes ≡ none
    → lookup c.name v.nodes ≡ none
    → a.name ≢ b.name
    → a.name ≢ c.name
    → b.name ≢ c.name
    → (let w = put_node c.name c (drop_node a.name a (put_node b.name b (put_node a.name a v))) in
        (f : FdbEntry) × (g : FdbEntry) × (lookup b.name w.fdb ≡ some f)
        × (lookup c.name w.fdb ≡ some g)
        × (f.mac ≡ g.mac))
unfolding put_node drop_node
mac_reused a b c v d la lb lc ab ac bc =
    let na = insert a.name a v.nodes in
    let nb = insert b.name b na in
    let nc = insert c.name c (delete a.name nb) in
    let fb =
      insert b.name (entry_of (length nb) b.name b)
        (insert a.name (entry_of (length na) a.name a) v.fdb) in
    let la' : lookup a.name nb ≡ some a =
      lookup-insert b.name a.name b na
      ∙ rw (beq_of_ne b.name a.name (λ e. ab (sym e))) (lookup-insert_self a.name a v.nodes) in
    let lb' : lookup b.name na ≡ none =
      lookup-insert a.name b.name a v.nodes ∙ rw (beq_of_ne a.name b.name ab) lb in
    let lc' : lookup c.name (delete a.name nb) ≡ none =
      lookup-delete a.name c.name nb
      ∙ rw (beq_of_ne a.name c.name ac) (
          lookup-insert b.name c.name b na
          ∙ rw (beq_of_ne b.name c.name bc)
              (lookup-insert a.name c.name a v.nodes ∙ rw (beq_of_ne a.name c.name ac) lc)) in
    let dn = insert-Distinct b.name b na (insert-Distinct a.name a v.nodes d) in
    let same : length nb ≡ length nc = omega (
      arith,
      length-delete a.name {v = a} nb dn la',
      length-insert c.name c (delete a.name nb) lc',
    ) in
    (
      entry_of (length nb) b.name b,
      entry_of (length nc) c.name c,
      lookup-insert c.name b.name (entry_of (length nc) c.name c) (delete a.name fb)
          ∙ rw (beq_of_ne c.name b.name (λ e. bc (sym e))) (
              lookup-delete a.name b.name fb
              ∙ rw (beq_of_ne a.name b.name ab) (lookup-insert_self b.name _ _)),
      lookup-insert_self c.name (entry_of (length nc) c.name c) (delete a.name fb),
      ap mac_of same,
    )
