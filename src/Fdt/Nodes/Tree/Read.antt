-- ===== src/Fdt/Nodes/Tree/Read.antt =====
-- `Node::parse` and `NodeIter::span` in crates/fdt/src/lib.rs read a tree back from its bytes.
use rv.Base.{
  ℕ, zero, suc, ◌+◌, ◌-◌, ◌^◌, ◌<◌, ◌≤◌, ◌≡◌, ap₂, refl, arith, Option, some, List, [], ◌∷◌, length,
  done, ok, err,
}
use rv.Base.Fallible.{R}
use rv.Fdt.{Fdt}
use rv.Fdt.Combinators.{Nom, IsNom}
use rv.Fdt.Nodes.{not_nul, Node, new_iter, parse_node, nodes_span, read_node}
use rv.Fdt.Nodes.Tree.{
  Tree, tree, Forest, leafless, plant, head_len, put_head, put_props, put_forest, put_end, put_tree,
  size_props, size_tree, size_forest, IsTreeOf, IsForestOf, node_of, Writes-put_head,
  Writes-put_props, Writes-put_forest, Writes-put_tree,
}
use rv.Fdt.Nodes.Tree.Props.{taken, padding, IsAtToken, props_span-put_props}
use rv.Fdt.Writes.{
  put_padding, up_4, length-Writes, Writes-put_padding, step, step_fail, step_lift, take_Writes,
  many0_count-put_nops, take_while-name,
}

-- What follows the properties of a node: a child, or its end.
pub inner_IsAtToken :
    (kids : Forest) (end_nops : ℕ) (rest : List ℕ)
    → IsAtToken (put_forest kids (put_end end_nops rest))
unfolding put_tree put_end put_head
inner_IsAtToken leafless end_nops rest = record {
  nops = end_nops;
  later = _;
  split = refl;
  no_nop = refl;
  no_prop = refl;
}
inner_IsAtToken (plant (tree nops name props kids end_nops') ts) end_nops rest = record {
  nops = nops;
  later = _;
  split = refl;
  no_nop = refl;
  no_prop = refl;
}

pub size_tree-pos : (t : Tree) → 12 ≤ size_tree t
unfolding size_tree
size_tree-pos (tree nops name props kids end_nops) = omega arith

pub span-node_of :
    (t : Tree) (off : ℕ) (parent_off : Option ℕ) (rest : List ℕ)
    → (node_of t off parent_off rest).span ≡ size_tree t
span-node_of (tree nops name props kids end_nops) off parent_off rest = refl

module _ {E : Type 0} {nom : Nom E} (laws : IsNom nom) (utf8 : List ℕ → Option (List ℕ))
    (fdt : Fdt) where
  -- A node does not begin where the node around it ends.
  pub parse_node-put_end :
      (fuel off : ℕ) (parent_off : Option ℕ) (nops : ℕ) (rest : List ℕ)
      → (e : E) × (parse_node nom utf8 fdt (suc fuel) off parent_off (put_end nops rest)
          ≡ done (err e))
  unfolding parse_node put_end
  parse_node-put_end fuel off parent_off nops rest =
      let failed = laws.tag_other (0 ∷ 0 ∷ 0 ∷ 1 ∷ []) (0 ∷ 0 ∷ 0 ∷ 2 ∷ rest) refl in
      (failed.0, step _ (many0_count-put_nops laws nops _ refl) (step_fail _ failed.1))

  mutual
    unfolding parse_node put_tree put_head put_end size_tree IsTreeOf

    pub parse_node-put_tree :
        (fuel off : ℕ) (parent_off : Option ℕ) (t : Tree) (rest : List ℕ)
        → IsTreeOf utf8 fdt t
        → size_tree t + 3 < 2 ^ 64
        → size_tree t < fuel
        → parse_node nom utf8 fdt fuel off parent_off (put_tree t rest)
          ≡ done (ok (rest, node_of t off parent_off rest))
    parse_node-put_tree zero off parent_off t rest is fits enough = absurd (omega arith)
    parse_node-put_tree (suc fuel) off parent_off (tree nops name props kids end_nops) rest is fits
          enough =
        step _ (many0_count-put_nops laws nops _ refl) (
          step _ (laws.tag_here (0 ∷ 0 ∷ 0 ∷ 1 ∷ []) _) (
            step _
              (laws.map_res_ok _ _ _ _ _ _ (take_while-name laws not_nul name _ is.0 refl) is.1)
              (step _ (laws.tag_here (0 ∷ []) _) (
                step _
                  (take_Writes laws (Writes-put_padding (head_len nops name)) _ body
                    (padding (head_len nops name) _ m (omega arith)))
                  (step_lift _ _
                    (props_span-put_props laws utf8 fdt (suc (length body)) props inner is.2
                      (omega arith) (inner_IsAtToken kids end_nops rest)
                      (omega (arith, length-Writes (Writes-put_props props) inner)))
                    (step _ (take_Writes laws (Writes-put_props props) _ inner refl) (
                      step_lift _ _
                        (nodes_span-put_forest fuel _ off kids end_nops rest is.3 (omega arith)
                          (omega arith))
                        (step _
                          (take_Writes laws (Writes-put_forest kids) _ (put_end end_nops rest) refl)
                          (step _ (many0_count-put_nops laws end_nops _ refl) (
                            step _ (laws.tag_here (0 ∷ 0 ∷ 0 ∷ 2 ∷ []) _)
                              (ap₂ finish spanned offset)))))))))))
      where
        t : Tree
        t = tree nops name props kids end_nops

        inner : List ℕ
        inner = put_forest kids (put_end end_nops rest)

        body : List ℕ
        body = put_props props inner

        m :
            length (put_head nops name body) - length (put_padding (head_len nops name) body)
            ≡ head_len nops name
        m = taken (head_len nops name) body (Writes-put_head nops name)

        finish : (span child_off : ℕ) → R E (List ℕ × Node)
        finish span child_off = done (
            ok (
              rest,
              record (node_of t off parent_off rest) {
                span = span;
                children = new_iter child_off off inner;
              },
            ))

        spanned : length (put_head nops name body) - length rest ≡ size_tree t
        spanned = omega (arith, length-Writes (Writes-put_tree t) rest)

        offset :
            off + length (put_head nops name body) - length inner
            ≡ off + (up_4 (head_len nops name) + size_props props)
        offset = omega (
          arith,
          length-Writes (Writes-put_head nops name) body,
          length-Writes (Writes-put_props props) inner,
        )

    pub nodes_span-put_forest :
        (fuel off parent_off : ℕ) (ts : Forest) (nops : ℕ) (rest : List ℕ)
        → IsForestOf utf8 fdt ts
        → size_forest ts + 3 < 2 ^ 64
        → size_forest ts + 2 ≤ fuel
        → nodes_span nom utf8 fdt fuel (new_iter off parent_off (put_forest ts (put_end nops rest)))
          ≡ done (size_forest ts)
    nodes_span-put_forest zero off parent_off ts nops rest is fits enough = absurd (omega arith)
    nodes_span-put_forest (suc zero) off parent_off ts nops rest is fits enough =
        absurd (omega arith)
    nodes_span-put_forest (suc (suc fuel)) off parent_off leafless nops rest is fits enough =
        rw (parse_node-put_end fuel off (some parent_off) nops rest).1
    nodes_span-put_forest (suc (suc fuel)) off parent_off (plant t ts) nops rest is fits enough =
        rw (
          parse_node-put_tree (suc fuel) off (some parent_off) t (put_forest ts (put_end nops rest))
              is.0 (omega arith) (omega (arith, enough)),
          nodes_span-put_forest (suc fuel)
              (off
                + (length (put_tree t (put_forest ts (put_end nops rest)))
                    - length (put_forest ts (put_end nops rest))))
              parent_off ts nops rest is.1 (omega arith) (omega (arith, size_tree-pos t)),
          span-node_of t off (some parent_off) (put_forest ts (put_end nops rest)),
        )

  -- A tree is read from its bytes, whatever follows: the node has its name and position, what it spans is its
  -- bytes, and its properties and children start where they were written.
  pub read_node-put_tree :
      (off : ℕ) (parent_off : Option ℕ) (t : Tree) (rest : List ℕ)
      → IsTreeOf utf8 fdt t
      → size_tree t + 3 < 2 ^ 64
      → read_node nom utf8 fdt off parent_off (put_tree t rest)
        ≡ done (ok (rest, node_of t off parent_off rest))
  unfolding read_node
  read_node-put_tree off parent_off t rest is fits =
      parse_node-put_tree (suc (length (put_tree t rest))) off parent_off t rest is fits
        (omega (arith, length-Writes (Writes-put_tree t) rest))
