-- ===== src/Fdt/Lookup/Places.antt =====
-- Trees at their places in a blob, and which are the children of which.
use rv.Base.{ℕ, ◌+◌, ◌<◌, ◌≤◌, arith, Option, some, List}
use rv.Fdt.Nodes.{Node}
use rv.Fdt.Nodes.Tree.{
  Tree, tree, Forest, leafless, plant, head_len, put_forest, put_end, size_props, size_tree,
  size_forest, node_of,
}
use rv.Fdt.Nodes.Tree.Find.{kids_of, size-kids_of}
use rv.Fdt.Writes.{up_4}

pub record Place : Type 0 where
  pub tree : Tree
  pub off : ℕ
  pub parent_off : Option ℕ
  pub rest : List ℕ

abbrev pub place : Tree → ℕ → Option ℕ → List ℕ → Place
place t off parent_off rest = record { tree = t; off = off; parent_off = parent_off; rest = rest }

abbrev pub node_at : Place → Node
node_at p = node_of p.tree p.off p.parent_off p.rest

-- Where the children of a tree start, and what follows them.
abbrev pub kids_off : Tree → ℕ → ℕ
kids_off (tree nops name props kids end_nops) off =
    off + (up_4 (head_len nops name) + size_props props)

abbrev pub kids_rest : Tree → List ℕ → List ℕ
kids_rest (tree nops name props kids end_nops) rest = put_end end_nops rest

-- The places of a forest that lies at `off` in the node at `parent_off`.
pub data InForest (parent_off : ℕ) : Forest → (off : ℕ) → (rest : List ℕ) → Place → Type 0 where
  first_kid :
      {t : Tree} {ts : Forest} {off : ℕ} {rest : List ℕ}
      → InForest parent_off
          (plant t ts)
          off
          rest
          (place t off (some parent_off) (put_forest ts rest))
  later_kid :
      {t : Tree} {ts : Forest} {off : ℕ} {rest : List ℕ} {c : Place}
      → InForest parent_off ts (off + size_tree t) rest c
      → InForest parent_off (plant t ts) off rest c

-- `c` is a child of `p`.
abbrev pub IsChild : Place → Place → Type 0
IsChild p c = InForest p.off (kids_of p.tree) (kids_off p.tree p.off) (kids_rest p.tree p.rest) c

-- `q` is `p` or below it.
pub data IsBelow : Place → Place → Type 0 where
  self : {p : Place} → IsBelow p p
  under : {p c q : Place} → IsChild p c → IsBelow c q → IsBelow p q

pub InForest-Bounds :
    (parent_off : ℕ) (ts : Forest) (off : ℕ) (rest : List ℕ) (c : Place)
    → InForest parent_off ts off rest c
    → (off ≤ c.off) × (c.off + size_tree c.tree ≤ off + size_forest ts)
unfolding size_tree
InForest-Bounds parent_off leafless off rest c kid = elim kid [ ]
InForest-Bounds parent_off (plant t ts) off rest c first_kid = (omega arith, omega arith)
InForest-Bounds parent_off (plant t ts) off rest c (later_kid later) =
    let b = InForest-Bounds parent_off ts (off + size_tree t) rest c later in
    (omega arith, omega arith)

kids_Bounds :
    (t : Tree) (off : ℕ)
    → (off < kids_off t off) × (kids_off t off + size_forest (kids_of t) + 4 ≤ off + size_tree t)
unfolding size_tree
kids_Bounds (tree nops name props kids end_nops) off = (omega arith, omega arith)

-- The children of a tree lie behind its start and before its end.
pub IsChild-Bounds :
    (p c : Place)
    → IsChild p c
    → (p.off < c.off) × (c.off + size_tree c.tree ≤ p.off + size_tree p.tree)
IsChild-Bounds p c child =
    let k = kids_Bounds p.tree p.off in
    let b =
      InForest-Bounds p.off (kids_of p.tree) (kids_off p.tree p.off) (kids_rest p.tree p.rest) c
        child in
    (omega arith, omega arith)

pub IsBelow-Bounds :
    (p q : Place) → IsBelow p q → (p.off ≤ q.off) × (q.off < p.off + size_tree p.tree)
IsBelow-Bounds p q self = (omega arith, omega (arith, size-kids_of p.tree))
IsBelow-Bounds p q (under {c = c} child below) =
    let k = IsChild-Bounds p c child in
    let b = IsBelow-Bounds c q below in (omega arith, omega arith)
