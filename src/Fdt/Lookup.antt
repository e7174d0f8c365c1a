-- ===== src/Fdt/Lookup.antt =====
-- The lookups of `Fdt` and `Node` in crates/fdt/src/lib.rs: names and addresses, properties, paths, parents and
-- compatible nodes. A string is its bytes in UTF-8.
pub mod Places
pub mod Path
pub mod Parent
pub mod Property
use rv.Base.{
  ℕ, zero, suc, ◌+◌, ◌-◌, ◌*◌, Bool, true, false, not, ◌&&◌, ◌||◌, Option, none, some, List, [],
  ◌∷◌, length, Run, done, panic, Result, ok, err, ◌==◌, ltb, if◌then◌else◌,
}
use rv.Base.Fallible.{R}
use rv.Cpio.{bytes_eq}
use rv.Fdt.{Fdt, FdtParseError}
use rv.Fdt.Combinators.{Nom}
use rv.Fdt.Nodes.{Node, NodeIter, next_property, next_node, root_node, find}
use rv.Fdt.Value.{PropValue, parse_rest, string_list, any_eq}

-- The bytes of `"compatible"`.
abbrev compatible_name : List ℕ
compatible_name = 99 ∷ 111 ∷ 109 ∷ 112 ∷ 97 ∷ 116 ∷ 105 ∷ 98 ∷ 108 ∷ 101 ∷ []

-- `split_once('@')`
unfoldable pub split_once : ℕ → List ℕ → Option (List ℕ × List ℕ)
split_once sep [] = none
split_once sep (c ∷ cs) =
    if c == sep
    then some ([], cs)
    else elim (split_once sep cs) [ none ↦ none | some (before, after) ↦ some (c ∷ before, after) ]

unfoldable pub name : Node → List ℕ
name n = elim (split_once 64 n.name) [ none ↦ n.name | some (before, after) ↦ before ]

unfoldable pub address : Node → Option (List ℕ)
address n = elim (split_once 64 n.name) [ none ↦ none | some (before, after) ↦ some after ]

-- `split('/')`, with the piece that is being read.
abbrev pub cons_piece : ℕ → List (List ℕ) → List (List ℕ)
cons_piece c [] = (c ∷ []) ∷ []
cons_piece c (piece ∷ pieces) = (c ∷ piece) ∷ pieces

unfoldable pub split : ℕ → List ℕ → List (List ℕ)
split sep [] = [] ∷ []
split sep (c ∷ cs) = if c == sep then [] ∷ split sep cs else cons_piece c (split sep cs)

-- `path[1..]`, which panics inside a character: a byte from 128 to 191 continues one.
unfoldable pub slice_from_1 : List ℕ → Run (List ℕ)
slice_from_1 [] = panic
slice_from_1 (c ∷ []) = done []
slice_from_1 (c ∷ d ∷ cs) = if ltb d 128 || not (ltb d 192) then done (d ∷ cs) else panic

abbrev pub name_is : Option (List ℕ) → List ℕ → Bool
name_is none s = false
name_is (some t) s = bytes_eq t s

-- `n.off == parent_off`
abbrev pub at_offset : ℕ → Node → Run Bool
at_offset off n = done (n.off == off)

module _ {E : Type 0} (nom : Nom E) (utf8 : List ℕ → Option (List ℕ)) (fdt : Fdt) where
  -- `properties().find(|p| p.name() == Some(name)).and_then(|p| p.value())`, on fuel: a property takes a byte at least.
  unfoldable pub find_property :
      {T : Type 0} → (fuel : ℕ) → PropValue T → List ℕ → List ℕ → Run (Option T)
  find_property zero parse s bytes = panic
  find_property (suc fuel) parse s bytes = elim (next_property nom utf8 fdt bytes) [
    | panic ↦ panic
    | done none ↦ done none
    | done (some (p, rest)) ↦ elim (name_is p.name s) [
      | true ↦ elim (parse p.value) [ none ↦ done none | some (left, t) ↦ done (some t) ]
      | false ↦ find_property fuel parse s rest
    ]
  ]

  unfoldable pub property : {T : Type 0} → PropValue T → List ℕ → Node → Run (Option T)
  unfolding find_property
  property parse s n = find_property (suc (length n.props)) parse s n.props

  -- `children().find(|n| n.identifier() == name)`, on fuel: a node takes a byte at least.
  unfoldable pub find_child : (fuel : ℕ) → List ℕ → NodeIter → Run (Option Node)
  find_child zero s it = panic
  find_child (suc fuel) s it = elim (next_node nom utf8 fdt it) [
    | panic ↦ panic
    | done none ↦ done none
    | done (some (n, it')) ↦ elim (bytes_eq n.name s) [
      | true ↦ done (some n)
      | false ↦ find_child fuel s it'
    ]
  ]

  -- The loop of `find_by_path`.
  unfoldable pub descend : List (List ℕ) → Node → Run (Option Node)
  unfolding find_child
  descend [] node = done (some node)
  descend (s ∷ path) node = elim (find_child (suc (length node.children.bytes)) s node.children) [
    | panic ↦ panic
    | done none ↦ done none
    | done (some child) ↦ descend path child
  ]

  unfoldable pub find_by_path : List ℕ → R (FdtParseError E) (Option Node)
  unfolding descend slice_from_1 split root_node
  find_by_path path = elim (root_node nom utf8 fdt) [
    | panic ↦ panic
    | done (err e) ↦ done (err e)
    | done (ok root) ↦
        if bytes_eq path [] || bytes_eq path (47 ∷ [])
        then done (ok (some root))
        else elim (slice_from_1 path) [
          | panic ↦ panic
          | done names ↦ elim (descend (split 47 names) root) [
            | panic ↦ panic
            | done r ↦ done (ok r)
          ]
        ]
  ]

  unfoldable pub is_compatible : List ℕ → Node → Run Bool
  unfolding property string_list any_eq parse_rest
  is_compatible s n = elim (property parse_rest compatible_name n) [
    | panic ↦ panic
    | done none ↦ done false
    | done (some bytes) ↦ done (any_eq s (string_list utf8 bytes))
  ]

  unfoldable pub find_compatible : List ℕ → R (FdtParseError E) (Option Node)
  unfolding is_compatible find
  find_compatible s = find nom utf8 fdt (is_compatible s)

  -- `Node::parent`; `.ok().flatten()`
  unfoldable pub parent : Node → Run (Option Node)
  unfolding find
  parent n = elim n.parent_off [
    | none ↦ done none
    | some off ↦ elim (find nom utf8 fdt (at_offset off)) [
      | panic ↦ panic
      | done (err e) ↦ done none
      | done (ok r) ↦ done r
    ]
  ]

  -- `Node::root`; `expect`
  unfoldable pub root : Run Node
  unfolding root_node
  root = elim (root_node nom utf8 fdt) [
    | panic ↦ panic
    | done (err e) ↦ panic
    | done (ok n) ↦ done n
  ]
