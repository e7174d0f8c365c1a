-- ===== src/Fdt/Lookup/Parent.antt =====
-- `Node::parent` in crates/fdt/src/lib.rs, which searches the whole tree for the offset of the parent.
use rv.Base.{
  ℕ, ◌+◌, ◌<◌, ◌≤◌, ◌≡◌, ◌⊎◌, inl, inr, ap, ◌∙◌, refl, arith, Option, none, some, List, done,
}
use rv.Fdt.{Fdt}
use rv.Fdt.Combinators.{Nom, IsNom}
use rv.Fdt.Lookup.{at_offset, parent}
use rv.Fdt.Lookup.Places.{
  Place, place, node_at, kids_off, kids_rest, InForest, first_kid, later_kid, IsChild, IsBelow,
  self, under, InForest-Bounds, IsChild-Bounds, IsBelow-Bounds,
}
use rv.Fdt.Nodes.{Node}
use rv.Fdt.Nodes.Tree.{
  Tree, tree, Forest, leafless, plant, head_len, put_forest, put_end, size_props, size_tree,
  size_forest, node_of,
}
use rv.Fdt.Nodes.Tree.Find.{
  kids_of, nodes_of, forest_nodes, first, first-append, or_first, IsBlobOf, find-first,
}
use rv.Fdt.Writes.{up_4}

-- An offset outside a tree belongs to none of its nodes.
mutual
  unfolding nodes_of first size_tree

  nodes_of_outside :
      (o : ℕ) (t : Tree) (off : ℕ) (parent_off : Option ℕ) (rest : List ℕ)
      → (o < off) ⊎ (off + size_tree t ≤ o)
      → first (at_offset o) (nodes_of t off parent_off rest) ≡ done none
  nodes_of_outside o (tree nops name props kids end_nops) off parent_off rest h = ground (
    arith,
    forest_nodes_outside o kids (off + (up_4 (head_len nops name) + size_props props)) off
        (put_end end_nops rest) (omega arith),
  )

  forest_nodes_outside :
      (o : ℕ) (ts : Forest) (off parent_off : ℕ) (rest : List ℕ)
      → (o < off) ⊎ (off + size_forest ts ≤ o)
      → first (at_offset o) (forest_nodes ts off parent_off rest) ≡ done none
  forest_nodes_outside o leafless off parent_off rest h = refl
  forest_nodes_outside o (plant t ts) off parent_off rest h =
      first-append (at_offset o) (nodes_of t off (some parent_off) (put_forest ts rest))
        (forest_nodes ts (off + size_tree t) parent_off rest)
      ∙ ap (λ r. or_first (at_offset o) r (forest_nodes ts (off + size_tree t) parent_off rest))
          (nodes_of_outside o t off (some parent_off) (put_forest ts rest)
            (elim h [ inl l ↦ inl l | inr r ↦ inr (omega arith) ]))
      ∙ forest_nodes_outside o ts (off + size_tree t) parent_off rest
          (elim h [ inl l ↦ inl (omega arith) | inr r ↦ inr (omega arith) ])

first-node_of :
    (t : Tree) (off : ℕ) (parent_off : Option ℕ) (rest : List ℕ)
    → first (at_offset off) (nodes_of t off parent_off rest)
      ≡ done (some (node_of t off parent_off rest))
unfolding nodes_of first
first-node_of (tree nops name props kids end_nops) off parent_off rest = ground arith

first-kids :
    (o : ℕ) (t : Tree) (off : ℕ) (parent_off : Option ℕ) (rest : List ℕ)
    → off < o
    → first (at_offset o) (nodes_of t off parent_off rest)
      ≡ first (at_offset o) (forest_nodes (kids_of t) (kids_off t off) off (kids_rest t rest))
unfolding nodes_of first
first-kids o (tree nops name props kids end_nops) off parent_off rest h = ground arith

-- The search for an offset in one of the trees of a forest comes to that tree.
first-InForest :
    (parent_off : ℕ) (ts : Forest) (off : ℕ) (rest : List ℕ) (c : Place) (o : ℕ) (n : Node)
    → InForest parent_off ts off rest c
    → c.off ≤ o
    → first (at_offset o) (nodes_of c.tree c.off c.parent_off c.rest) ≡ done (some n)
    → first (at_offset o) (forest_nodes ts off parent_off rest) ≡ done (some n)
unfolding nodes_of
first-InForest parent_off leafless off rest c o n kid above found = elim kid [ ]
first-InForest parent_off (plant t ts) off rest c o n first_kid above found =
    first-append (at_offset o) (nodes_of t off (some parent_off) (put_forest ts rest))
      (forest_nodes ts (off + size_tree t) parent_off rest)
    ∙ ap (λ r. or_first (at_offset o) r (forest_nodes ts (off + size_tree t) parent_off rest)) found
first-InForest parent_off (plant t ts) off rest c o n (later_kid later) above found =
    let b = InForest-Bounds parent_off ts (off + size_tree t) rest c later in
    first-append (at_offset o) (nodes_of t off (some parent_off) (put_forest ts rest))
      (forest_nodes ts (off + size_tree t) parent_off rest)
    ∙ ap (λ r. or_first (at_offset o) r (forest_nodes ts (off + size_tree t) parent_off rest))
        (nodes_of_outside o t off (some parent_off) (put_forest ts rest) (inr (omega arith)))
    ∙ first-InForest parent_off ts (off + size_tree t) rest c o n later above found

first-IsBelow :
    (p q : Place)
    → IsBelow p q
    → first (at_offset q.off) (nodes_of p.tree p.off p.parent_off p.rest) ≡ done (some (node_at q))
first-IsBelow p q self = first-node_of p.tree p.off p.parent_off p.rest
first-IsBelow p q (under {c = c} child below) =
    let b = IsChild-Bounds p c child in
    let k = IsBelow-Bounds c q below in
    first-kids q.off p.tree p.off p.parent_off p.rest (omega arith)
    ∙ first-InForest p.off (kids_of p.tree) (kids_off p.tree p.off) (kids_rest p.tree p.rest) c
        q.off (node_at q) child k.0 (first-IsBelow c q below)

InForest-parent_off :
    (parent_off : ℕ) (ts : Forest) (off : ℕ) (rest : List ℕ) (c : Place)
    → InForest parent_off ts off rest c
    → c.parent_off ≡ some parent_off
InForest-parent_off parent_off leafless off rest c kid = elim kid [ ]
InForest-parent_off parent_off (plant t ts) off rest c first_kid = refl
InForest-parent_off parent_off (plant t ts) off rest c (later_kid later) =
    InForest-parent_off parent_off ts (off + size_tree t) rest c later

parent_off-node_of :
    (t : Tree) (off : ℕ) (parent_off : Option ℕ) (rest : List ℕ)
    → (node_of t off parent_off rest).parent_off ≡ parent_off
parent_off-node_of (tree nops name props kids end_nops) off parent_off rest = refl

module _ {E : Type 0} {nom : Nom E} (laws : IsNom nom) (utf8 : List ℕ → Option (List ℕ))
    (fdt : Fdt) where
  -- In the blob of a tree, the parent of a child of a node is that node, with its properties and children: no other
  -- node has its offset.
  pub parent-IsChild :
      (t : Tree) (rest : List ℕ) (p c : Place)
      → IsBlobOf utf8 fdt t rest
      → IsBelow (place t 0 none rest) p
      → IsChild p c
      → parent nom utf8 fdt (node_at c) ≡ done (some (node_at p))
  unfolding parent
  parent-IsChild t rest p c blob below child = rw (
    parent,
    parent_off-node_of c.tree c.off c.parent_off c.rest,
    InForest-parent_off p.off (kids_of p.tree) (kids_off p.tree p.off) (kids_rest p.tree p.rest) c
        child,
    find-first laws utf8 fdt (at_offset p.off) t rest blob,
    first-IsBelow (place t 0 none rest) p below,
  )

  -- The root has no parent.
  pub parent-root :
      (t : Tree) (rest : List ℕ) → parent nom utf8 fdt (node_at (place t 0 none rest)) ≡ done none
  unfolding parent
  parent-root (tree nops name props kids end_nops) rest = refl
