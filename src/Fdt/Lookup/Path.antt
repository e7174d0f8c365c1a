-- ===== src/Fdt/Lookup/Path.antt =====
-- `Fdt::find_by_path` in crates/fdt/src/lib.rs on a tree: it follows the names of a path downwards.
use rv.Base.{
  ℕ, zero, suc, ◌+◌, ◌^◌, ◌<◌, ◌≡◌, ap, refl, arith, Bool, true, false, not, Option, none, some,
  List, [], ◌∷◌, ◌++◌, length, done, ok, ◌==◌, Bool-cases, Option-cases, subst, inl, inr,
}
use rv.Cpio.{bytes_eq}
use rv.Fdt.{Fdt}
use rv.Fdt.Combinators.{Nom, IsNom}
use rv.Fdt.Lookup.{find_child, descend, find_by_path, slice_from_1, split}
use rv.Fdt.Lookup.Places.{Place, place, node_at, kids_off, kids_rest}
use rv.Fdt.Nodes.{Node, new_iter}
use rv.Fdt.Nodes.Tree.{
  Tree, tree, Forest, leafless, plant, put_forest, put_end, put_tree, size_tree, size_forest,
  IsTreeOf, IsForestOf, node_of, Writes-put_forest,
}
use rv.Fdt.Nodes.Tree.Find.{
  kids_of, IsBlobOf, next_node-plant, next_node-leafless, root_node-put_tree, size-kids_of,
}
use rv.Fdt.Writes.{All, length-Writes}

abbrev name_of : Tree → List ℕ
name_of (tree nops name props kids end_nops) = name

name-node_of :
    (t : Tree) (off : ℕ) (parent_off : Option ℕ) (rest : List ℕ)
    → (node_of t off parent_off rest).name ≡ name_of t
name-node_of (tree nops name props kids end_nops) off parent_off rest = refl

-- The first tree of a forest with a name, at its place.
unfoldable pub child_named : List ℕ → Forest → (off parent_off : ℕ) → (rest : List ℕ) → Option Place
child_named s leafless off parent_off rest = none
child_named s (plant t ts) off parent_off rest = elim (bytes_eq (name_of t) s) [
  | true ↦ some (place t off (some parent_off) (put_forest ts rest))
  | false ↦ child_named s ts (off + size_tree t) parent_off rest
]

-- The place that a path of names leads to.
unfoldable pub follow : List (List ℕ) → Place → Option Place
unfolding child_named
follow [] p = some p
follow (s ∷ path) p =
    elim (child_named s (kids_of p.tree) (kids_off p.tree p.off) p.off (kids_rest p.tree p.rest)) [
      | none ↦ none
      | some c ↦ follow path c
    ]

abbrev pub nodes_at : Option Place → Option Node
nodes_at none = none
nodes_at (some p) = some (node_at p)

-- A path of names with a slash in front of each.
abbrev pub path_of : List (List ℕ) → List ℕ
path_of [] = []
path_of (s ∷ names) = 47 ∷ (s ++ path_of names)

abbrev pub no_slash : ℕ → Bool
no_slash c = not (c == 47)

abbrev pub ArePieces : List (List ℕ) → Type 0
ArePieces [] = Unit {0}
ArePieces (s ∷ names) = All no_slash s × ArePieces names

split-path_of :
    (s : List ℕ) (names : List (List ℕ))
    → All no_slash s
    → ArePieces names
    → split 47 (s ++ path_of names) ≡ s ∷ names
unfolding split
split-path_of [] [] a bs = refl
split-path_of [] (s ∷ names) a bs = ap (◌∷◌ []) (split-path_of s names bs.0 bs.1)
split-path_of (c ∷ s) names a bs = ground (arith, a.0, split-path_of s names a.1 bs)

-- What a tree in a blob is, for a place.
abbrev IsPlaceOf : (List ℕ → Option (List ℕ)) → Fdt → Place → Type 0
IsPlaceOf utf8 fdt p = IsTreeOf utf8 fdt p.tree × (size_tree p.tree + 3 < 2 ^ 64)

module _ {E : Type 0} {nom : Nom E} (laws : IsNom nom) (utf8 : List ℕ → Option (List ℕ))
    (fdt : Fdt) where
  find_child-child_named :
      (fuel : ℕ) (s : List ℕ) (ts : Forest) (off parent_off nops : ℕ) (rest : List ℕ)
      → IsForestOf utf8 fdt ts
      → size_forest ts + 3 < 2 ^ 64
      → size_forest ts < fuel
      → find_child nom utf8 fdt fuel s (new_iter off parent_off (put_forest ts (put_end nops rest)))
        ≡ done (nodes_at (child_named s ts off parent_off (put_end nops rest)))
  unfolding find_child child_named put_tree size_tree IsTreeOf
  find_child-child_named zero s ts off parent_off nops rest is fits enough = absurd (omega arith)
  find_child-child_named (suc fuel) s leafless off parent_off nops rest is fits enough =
      rw (find_child, next_node-leafless {nom = nom} laws utf8 fdt off parent_off nops rest)
  find_child-child_named (suc fuel) s (plant t ts) off parent_off nops rest is fits enough =
      rw
        (
          find_child,
          next_node-plant laws utf8 fdt off parent_off t ts (put_end nops rest) is.0 (omega arith),
        )
        (ground (
          arith,
          name-node_of t off (some parent_off) (put_forest ts (put_end nops rest)),
          find_child-child_named fuel s ts (off + size_tree t) parent_off nops rest is.1
              (omega arith) (omega (arith, size-kids_of t)),
        ))

  child_named-IsPlaceOf :
      (s : List ℕ) (ts : Forest) (off parent_off : ℕ) (rest : List ℕ) (c : Place)
      → IsForestOf utf8 fdt ts
      → size_forest ts + 3 < 2 ^ 64
      → child_named s ts off parent_off rest ≡ some c
      → IsPlaceOf utf8 fdt c
  unfolding child_named size_tree IsTreeOf
  child_named-IsPlaceOf s leafless off parent_off rest c is fits h = cc
  child_named-IsPlaceOf s (plant t ts) off parent_off rest c is fits h =
      elim (Bool-cases (bytes_eq (name_of t) s)) [
        | inl e ↦
            subst (IsPlaceOf utf8 fdt) {x = place t off (some parent_off) (put_forest ts rest)}
              (found e) (is.0, omega arith)
        | inr e ↦
            child_named-IsPlaceOf s ts (off + size_tree t) parent_off rest c is.1 (omega arith)
              (skipped e)
      ]
    where
      found : bytes_eq (name_of t) s ≡ true → place t off (some parent_off) (put_forest ts rest) ≡ c
      found e = ground arith

      skipped :
          bytes_eq (name_of t) s ≡ false
          → child_named s ts (off + size_tree t) parent_off rest ≡ some c
      skipped e = ground arith

  find_child-kids :
      (s : List ℕ) (t : Tree) (off : ℕ) (parent_off : Option ℕ) (rest : List ℕ)
      → IsTreeOf utf8 fdt t
      → size_tree t + 3 < 2 ^ 64
      → find_child nom utf8 fdt
          (suc (length (node_of t off parent_off rest).children.bytes))
          s
          (node_of t off parent_off rest).children
        ≡ done (nodes_at (child_named s (kids_of t) (kids_off t off) off (kids_rest t rest)))
  unfolding IsTreeOf size_tree
  find_child-kids s (tree nops name props kids end_nops) off parent_off rest is fits =
      find_child-child_named (suc (length (put_forest kids (put_end end_nops rest)))) s kids _ off
        end_nops rest is.3 (omega arith)
        (omega (arith, length-Writes (Writes-put_forest kids) (put_end end_nops rest)))

  IsForestOf-kids : (t : Tree) → IsTreeOf utf8 fdt t → IsForestOf utf8 fdt (kids_of t)
  unfolding IsTreeOf
  IsForestOf-kids (tree nops name props kids end_nops) is = is.3

  descend-follow :
      (path : List (List ℕ)) (p : Place)
      → IsPlaceOf utf8 fdt p
      → descend nom utf8 fdt path (node_at p) ≡ done (nodes_at (follow path p))
  unfolding descend follow
  descend-follow [] p is = refl
  descend-follow (s ∷ path) p is =
      let kid =
        child_named s (kids_of p.tree) (kids_off p.tree p.off) p.off (kids_rest p.tree p.rest) in
      rw (descend, find_child-kids s p.tree p.off p.parent_off p.rest is.0 is.1)
        (elim (Option-cases kid) [
          | inl e ↦ rw (follow, e) refl
          | inr (c, e) ↦
              rw (follow, e)
                (descend-follow path c (
                  child_named-IsPlaceOf s (kids_of p.tree) (kids_off p.tree p.off) p.off
                    (kids_rest p.tree p.rest) c (IsForestOf-kids p.tree is.0)
                    (omega (arith, size-kids_of p.tree)) e))
        ])

  -- In the blob of a tree, a path of names without slashes, each with a slash in front and the first of them with a
  -- first byte in ASCII, leads from the root through the first child with each name, and the result is none where
  -- there is no such child.
  pub find_by_path-follow :
      (t : Tree) (rest : List ℕ) (c : ℕ) (s : List ℕ) (names : List (List ℕ))
      → IsBlobOf utf8 fdt t rest
      → c < 128
      → ArePieces ((c ∷ s) ∷ names)
      → find_by_path nom utf8 fdt (path_of ((c ∷ s) ∷ names))
        ≡ done (ok (nodes_at (follow ((c ∷ s) ∷ names) (place t 0 none rest))))
  unfolding find_by_path slice_from_1
  find_by_path-follow t rest c s names blob ascii pieces = rw (
    find_by_path,
    root_node-put_tree laws utf8 fdt t rest blob,
    from_1,
    split-path_of (c ∷ s) names pieces.0 pieces.1,
    descend-follow ((c ∷ s) ∷ names) (place t 0 none rest) (blob.is, blob.fits),
  )
    where
      from_1 : slice_from_1 (47 ∷ c ∷ (s ++ path_of names)) ≡ done (c ∷ (s ++ path_of names))
      from_1 = ground arith
