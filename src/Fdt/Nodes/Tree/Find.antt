-- ===== src/Fdt/Nodes/Tree/Find.antt =====
-- `Fdt::find` and `Node::find` in crates/fdt/src/lib.rs on a tree: the first node in document order.
use rv.Base.{
  ℕ, zero, suc, ◌+◌, ◌-◌, ◌^◌, ◌<◌, ◌≤◌, ◌≡◌, ap, refl, arith, Bool, true, false, Option, none,
  some, List, [], ◌∷◌, ◌++◌, length, slice, Run, done, panic, ok, lt→ltb, le→ltb-false,
}
use rv.Base.Fallible
use rv.Base.Fallible.{R}
use rv.Fdt.{Fdt, FdtParseError}
use rv.Fdt.Combinators.{Nom, IsNom}
use rv.Fdt.Nodes.{Node, new_iter, read_node, next_node, root_node, find_node, find_children, find}
use rv.Fdt.Nodes.Tree.{
  Tree, tree, Forest, leafless, plant, head_len, put_forest, put_end, put_tree, size_props,
  size_tree, size_forest, IsTreeOf, IsForestOf, node_of, Writes-put_forest, Writes-put_tree,
}
use rv.Fdt.Nodes.Tree.Read.{parse_node-put_end, read_node-put_tree}
use rv.Fdt.Writes.{up_4, length-Writes}

-- The nodes of a tree in document order.
unfoldable mutual
  pub nodes_of : Tree → (off : ℕ) → Option ℕ → (rest : List ℕ) → List Node
  nodes_of (tree nops name props kids end_nops) off parent_off rest =
      node_of (tree nops name props kids end_nops) off parent_off rest
      ∷ forest_nodes kids (off + (up_4 (head_len nops name) + size_props props)) off
          (put_end end_nops rest)

  pub forest_nodes : Forest → (off parent_off : ℕ) → (rest : List ℕ) → List Node
  forest_nodes leafless off parent_off rest = []
  forest_nodes (plant t ts) off parent_off rest =
      nodes_of t off (some parent_off) (put_forest ts rest)
      ++ forest_nodes ts (off + size_tree t) parent_off rest

-- The first that passes the test.
unfoldable pub first : (Node → Run Bool) → List Node → Run (Option Node)
first f [] = done none
first f (n ∷ ns) = elim (f n) [
  | panic ↦ panic
  | done true ↦ done (some n)
  | done false ↦ first f ns
]

abbrev pub or_first : (Node → Run Bool) → Run (Option Node) → List Node → Run (Option Node)
or_first f panic ns = panic
or_first f (done (some n)) ns = done (some n)
or_first f (done none) ns = first f ns

pub first-append :
    (f : Node → Run Bool) (ms ns : List Node) → first f (ms ++ ns) ≡ or_first f (first f ms) ns
unfolding first
first-append f [] ns = refl
first-append f (m ∷ ms) ns = ground (arith, first-append f ms ns)

abbrev pub kids_of : Tree → Forest
kids_of (tree nops name props kids end_nops) = kids

pub size-kids_of : (t : Tree) → size_forest (kids_of t) + 12 ≤ size_tree t
unfolding size_tree
size-kids_of (tree nops name props kids end_nops) = omega arith

length-children :
    (t : Tree) (off : ℕ) (parent_off : Option ℕ) (rest : List ℕ)
    → size_forest (kids_of t) ≤ length (node_of t off parent_off rest).children.bytes
length-children (tree nops name props kids end_nops) off parent_off rest =
    omega (arith, length-Writes (Writes-put_forest kids) (put_end end_nops rest))

-- The blob of `fdt` has the tree in its block of structure, in front of `rest`.
pub record IsBlobOf (utf8 : List ℕ → Option (List ℕ)) (fdt : Fdt) (t : Tree) (rest : List ℕ)
    : Type 0 where
  pub is : IsTreeOf utf8 fdt t
  pub fits : size_tree t + 3 < 2 ^ 64
  pub word : fdt.hdr.off_dt_struct + fdt.hdr.size_dt_struct < 2 ^ 32
  pub inside : fdt.hdr.off_dt_struct + fdt.hdr.size_dt_struct ≤ length fdt.bytes
  pub block :
      slice fdt.bytes fdt.hdr.off_dt_struct (fdt.hdr.off_dt_struct + fdt.hdr.size_dt_struct)
      ≡ put_tree t rest

module _ {E : Type 0} {nom : Nom E} (laws : IsNom nom) (utf8 : List ℕ → Option (List ℕ))
    (fdt : Fdt) where
  -- The iterator gives the trees of a forest in turn.
  pub next_node-plant :
      (off parent_off : ℕ) (t : Tree) (ts : Forest) (rest : List ℕ)
      → IsTreeOf utf8 fdt t
      → size_tree t + 3 < 2 ^ 64
      → next_node nom utf8 fdt (new_iter off parent_off (put_forest (plant t ts) rest))
        ≡ done (
            some (
              node_of t off (some parent_off) (put_forest ts rest),
              new_iter (off + size_tree t) parent_off (put_forest ts rest),
            ))
  unfolding next_node put_tree
  next_node-plant off parent_off t ts rest is fits =
      rw (read_node-put_tree laws utf8 fdt off (some parent_off) t (put_forest ts rest) is fits) (
        ap
          (λ k. done (
            some (
              node_of t off (some parent_off) (put_forest ts rest),
              new_iter (off + k) parent_off (put_forest ts rest),
            )))
          span)
    where
      span : length (put_tree t (put_forest ts rest)) - length (put_forest ts rest) ≡ size_tree t
      span = omega (arith, length-Writes (Writes-put_tree t) (put_forest ts rest))

  pub next_node-leafless :
      (off parent_off nops : ℕ) (rest : List ℕ)
      → next_node nom utf8 fdt (new_iter off parent_off (put_end nops rest)) ≡ done none
  unfolding next_node read_node
  next_node-leafless off parent_off nops rest =
      rw
        (parse_node-put_end laws utf8 fdt (length (put_end nops rest)) off (some parent_off) nops
          rest).1

  mutual
    unfolding find_node nodes_of first size_tree IsTreeOf put_tree

    pub find_node-first :
        (fuel : ℕ) (f : Node → Run Bool) (t : Tree) (off : ℕ) (parent_off : Option ℕ)
        (rest : List ℕ)
        → IsTreeOf utf8 fdt t
        → size_tree t + 3 < 2 ^ 64
        → size_forest (kids_of t) + 3 ≤ fuel
        → find_node nom utf8 fdt fuel f (node_of t off parent_off rest)
          ≡ first f (nodes_of t off parent_off rest)
    find_node-first zero f t off parent_off rest is fits enough = absurd (omega arith)
    find_node-first (suc fuel) f (tree nops name props kids end_nops) off parent_off rest is fits
          enough =
        ground (
          arith,
          find_children-first fuel f kids (off + (up_4 (head_len nops name) + size_props props)) off
              end_nops rest is.3 (omega arith) (omega arith),
        )

    pub find_children-first :
        (fuel : ℕ) (f : Node → Run Bool) (ts : Forest) (off parent_off nops : ℕ) (rest : List ℕ)
        → IsForestOf utf8 fdt ts
        → size_forest ts + 3 < 2 ^ 64
        → size_forest ts + 2 ≤ fuel
        → find_children nom utf8 fdt fuel f
            (new_iter off parent_off (put_forest ts (put_end nops rest)))
          ≡ first f (forest_nodes ts off parent_off (put_end nops rest))
    find_children-first zero f ts off parent_off nops rest is fits enough = absurd (omega arith)
    find_children-first (suc fuel) f leafless off parent_off nops rest is fits enough =
        rw (find_children, next_node-leafless off parent_off nops rest)
    find_children-first (suc fuel) f (plant t ts) off parent_off nops rest is fits enough =
        rw
          (
            find_children,
            next_node-plant off parent_off t ts (put_end nops rest) is.0 (omega arith),
            find_node-first fuel f t off (some parent_off) (put_forest ts (put_end nops rest)) is.0
                (omega arith) (omega (arith, size-kids_of t)),
          )
          (ground (
            arith,
            find_children-first fuel f ts (off + size_tree t) parent_off nops rest is.1
                (omega arith) (omega (arith, size-kids_of t)),
            first-append f (nodes_of t off (some parent_off) (put_forest ts (put_end nops rest)))
                (forest_nodes ts (off + size_tree t) parent_off (put_end nops rest)),
          ))

  pub root_node-put_tree :
      (t : Tree) (rest : List ℕ)
      → IsBlobOf utf8 fdt t rest
      → root_node nom utf8 fdt ≡ done (ok (node_of t 0 none rest))
  unfolding root_node
  root_node-put_tree t rest b = rw (
    root_node,
    lt→ltb _ _ b.word,
    le→ltb-false _ _ b.inside,
    b.block,
    read_node-put_tree laws utf8 fdt 0 none t rest b.is b.fits,
  )

  -- Where the block of structure holds a tree, find gives the first of its nodes in document order that passes the
  -- test, or none if there is none; it panics only where the test does.
  pub find-first :
      (f : Node → Run Bool) (t : Tree) (rest : List ℕ)
      → IsBlobOf utf8 fdt t rest
      → find nom utf8 fdt f ≡ Fallible.lift (first f (nodes_of t 0 none rest))
  unfolding find
  find-first f t rest b =
      rw
        (
          find,
          root_node-put_tree t rest b,
          find_node-first (length (node_of t 0 none rest).children.bytes + 3) f t 0 none rest b.is
              b.fits (omega (arith, length-children t 0 none rest)),
        )
        (wrapped _)
    where
      wrapped :
          {A : Type 0} (r : Run A)
          → elim r [ panic ↦ panic | done a ↦ done (ok a) ] ≡ Fallible.lift {E = FdtParseError E} r
      wrapped panic = refl
      wrapped (done a) = refl
