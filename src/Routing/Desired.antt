-- ===== src/Routing/Desired.antt =====
-- The desired remote nodes that SyncRoutes of both backends collects, described from the list.
use coordino.Base.{
  ◌≡◌, refl, ◌∙◌, inl, inr, Bytes, bytes_eq, Option, none, some, List, [], ◌∷◌, arith,
  if◌then◌else◌, ◌==◌, Bool-cases,
}
use coordino.Base.GoMap.{GoMap, lookup, insert, Distinct, lookup-insert, insert-Distinct}
use coordino.Routing.{NodeInfo, new_node_map}

-- The last node of a name in the list of desired nodes; the local node is never wanted.
abbrev pub wanted : Bytes → List NodeInfo → Bytes → Option NodeInfo
wanted local [] name = none
wanted local (n ∷ ns) name =
    let here = if n.name == name then some n else none in
    elim (wanted local ns name) [ some m ↦ some m | none ↦ if n.name == local then none else here ]

abbrev pub or_else : {A : Type 0} → Option A → Option A → Option A
or_else (some a) b = some a
or_else none b = b

pub lookup-new_node_map :
    (local : Bytes) (ns : List NodeInfo) (m : GoMap Bytes NodeInfo) (name : Bytes)
    → lookup name (new_node_map local ns m) ≡ or_else (wanted local ns name) (lookup name m)
unfolding new_node_map
lookup-new_node_map local [] m name = refl
lookup-new_node_map local (n ∷ ns) m name = ground (
  arith,
  lookup-new_node_map local ns m name,
  lookup-new_node_map local ns (insert n.name n m) name,
  lookup-insert n.name name n m,
)

pub new_node_map-Distinct :
    (local : Bytes) (ns : List NodeInfo) (m : GoMap Bytes NodeInfo)
    → Distinct m
    → Distinct (new_node_map local ns m)
unfolding new_node_map
new_node_map-Distinct local [] m d = d
new_node_map-Distinct local (n ∷ ns) m d = elim (Bool-cases (n.name == local)) [
  | inl e ↦ rw (e, new_node_map) (new_node_map-Distinct local ns m d)
  | inr e ↦
      rw (e, new_node_map)
        (new_node_map-Distinct local ns (insert n.name n m) (insert-Distinct n.name n m d))
]

or_else-none : {A : Type 0} (o : Option A) → or_else o none ≡ o
or_else-none none = refl
or_else-none (some a) = refl

pub lookup-desired :
    (local : Bytes) (ns : List NodeInfo) (name : Bytes)
    → lookup name (new_node_map local ns []) ≡ wanted local ns name
unfolding lookup
lookup-desired local ns name =
    lookup-new_node_map local ns [] name ∙ or_else-none (wanted local ns name)
