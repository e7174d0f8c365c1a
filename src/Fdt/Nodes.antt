-- ===== src/Fdt/Nodes.antt =====
-- `Node`, `Property` and their iterators in crates/fdt/src/lib.rs. A node and an iterator hold the bytes
-- that follow; the tree is read again wherever it is walked.
pub mod Tree
use rv.Base.{
  ℕ, zero, suc, ◌+◌, ◌-◌, ◌*◌, bit_and, Bool, true, false, not, ◌&&◌, ◌||◌, Option, none, some,
  List, [], ◌∷◌, length, slice, drop, Run, done, panic, Result, ok, err, ◌==◌, ltb, if◌then◌else◌,
}
use rv.Base.Fallible.{R}
use rv.Base.Word.{complement}
use rv.Cpio.{bytes_eq}
use rv.Fdt.{Fdt, FdtParseError, get_string, value_of, add_u32}
use rv.Fdt.Combinators.{Nom, P, ◌>>=◌, ◌>>◌, pure, run, lift, rest_of}
use rv.Fdt.Value.{PropValue, parse_rest, string_list, any_eq}

pub record Property : Type 0 where
  pub span : ℕ
  pub name : Option (List ℕ)
  pub value : List ℕ

pub record NodeIter : Type 0 where
  pub bytes : List ℕ
  pub offset : ℕ
  pub parent_off : ℕ

-- `NodeIter::new`
abbrev pub new_iter : (offset parent_off : ℕ) → List ℕ → NodeIter
new_iter offset parent_off bytes = record {
  bytes = bytes;
  offset = offset;
  parent_off = parent_off;
}

-- `props` is the data of the `PropertyIter`.
pub record Node : Type 0 where
  pub off : ℕ
  pub span : ℕ
  pub name : List ℕ
  pub props : List ℕ
  pub children : NodeIter
  pub parent_off : Option ℕ

-- The tokens.
abbrev pub fdt_nop : List ℕ
fdt_nop = 0 ∷ 0 ∷ 0 ∷ 4 ∷ []

abbrev pub fdt_begin_node : List ℕ
fdt_begin_node = 0 ∷ 0 ∷ 0 ∷ 1 ∷ []

abbrev pub fdt_prop : List ℕ
fdt_prop = 0 ∷ 0 ∷ 0 ∷ 3 ∷ []

abbrev pub fdt_end : List ℕ
fdt_end = 0 ∷ 0 ∷ 0 ∷ 2 ∷ []

-- `(n + 3) & !3`
abbrev pub align_4 : ℕ → ℕ
align_4 n = bit_and (n + 3) (complement 3)

-- `c != 0`
abbrev pub not_nul : ℕ → Bool
not_nul c = not (c == 0)

module _ {E : Type 0} (nom : Nom E) (utf8 : List ℕ → Option (List ℕ)) (fdt : Fdt) where
  abbrev pub skip_nops : P E ℕ
  skip_nops = run (nom.many0_count (nom.tag fdt_nop))

  -- `Property::parse`
  unfoldable pub parse_property : P E Property
  unfolding get_string
  parse_property = do
    start ← rest_of
    skip_nops
    run (nom.tag fdt_prop)
    len ← run nom.be_u32
    name_off ← run nom.be_u32
    value ← run (nom.take len)
    input ← rest_of
    let n = length start - length input
    run (nom.take (align_4 n - n))
    name ← lift (get_string utf8 fdt name_off)
    pure (record { span = align_4 n; name = name; value = value })

  -- `PropertyIter::next`: an error ends the iteration.
  unfoldable pub next_property : List ℕ → Run (Option (Property × List ℕ))
  unfolding parse_property
  next_property bytes = elim (parse_property bytes) [
    | panic ↦ panic
    | done (err e) ↦ done none
    | done (ok (rest, p)) ↦ done (some (p, rest))
  ]

  -- `PropertyIter::span`, on fuel: each property takes twelve bytes at least.
  unfoldable pub props_span : (fuel : ℕ) → List ℕ → Run ℕ
  unfolding next_property
  props_span zero bytes = panic
  props_span (suc fuel) bytes = elim (next_property bytes) [
    | panic ↦ panic
    | done none ↦ done 0
    | done (some (p, rest)) ↦ elim (props_span fuel rest) [
      | panic ↦ panic
      | done n ↦ done (p.span + n)
    ]
  ]

  -- `Node::parse` and `NodeIter::span`, on fuel: each node takes twelve bytes at least.
  unfoldable mutual
    pub parse_node : (fuel off : ℕ) → Option ℕ → P E Node
    parse_node zero off parent_off = λ input. panic
    parse_node (suc fuel) off parent_off = do
      start ← rest_of
      skip_nops
      run (nom.tag fdt_begin_node)
      name ← run (nom.map_res (nom.take_while not_nul) utf8)
      run (nom.tag (0 ∷ []))
      named ← rest_of
      let n = length start - length named
      run (nom.take (align_4 n - n))
      props ← rest_of
      props_len ← lift (props_span (suc (length props)) props)
      run (nom.take props_len)
      inner ← rest_of
      let children = new_iter (off + length start - length inner) off inner
      children_len ← lift (nodes_span fuel children)
      run (nom.take children_len)
      skip_nops
      run (nom.tag fdt_end)
      input ← rest_of
      pure (record {
        off = off;
        span = length start - length input;
        name = name;
        props = props;
        children = children;
        parent_off = parent_off;
      })

    pub nodes_span : (fuel : ℕ) → NodeIter → Run ℕ
    nodes_span zero it = panic
    nodes_span (suc fuel) it = elim (parse_node fuel it.offset (some it.parent_off) it.bytes) [
      | panic ↦ panic
      | done (err e) ↦ done 0
      | done (ok (rest, node)) ↦
          let it' : NodeIter = record it {
            bytes = rest;
            offset = it.offset + (length it.bytes - length rest);
          } in
          elim (nodes_span fuel it') [ panic ↦ panic | done n ↦ done (node.span + n) ]
    ]

  -- `Node::parse`
  unfoldable pub read_node : (off : ℕ) → Option ℕ → P E Node
  unfolding parse_node props_span
  read_node off parent_off input = parse_node (suc (length input)) off parent_off input

  -- `NodeIter::next`: an error ends the iteration.
  unfoldable pub next_node : NodeIter → Run (Option (Node × NodeIter))
  unfolding read_node
  next_node it = elim (read_node it.offset (some it.parent_off) it.bytes) [
    | panic ↦ panic
    | done (err e) ↦ done none
    | done (ok (rest, node)) ↦ done (
        some
          (node, record it { bytes = rest; offset = it.offset + (length it.bytes - length rest) }))
  ]

  -- `Fdt::root_node`. The slice panics out of bounds.
  unfoldable pub root_node : R (FdtParseError E) Node
  unfolding read_node
  root_node = elim (add_u32 fdt.hdr.off_dt_struct fdt.hdr.size_dt_struct) [
    | panic ↦ panic
    | done end ↦
        if ltb (length fdt.bytes) end
        then panic
        else value_of nom (read_node 0 none (slice fdt.bytes fdt.hdr.off_dt_struct end))
  ]

  -- `Node::find`, with a predicate that may panic; on fuel.
  unfoldable mutual
    pub find_node : (fuel : ℕ) → (Node → Run Bool) → Node → Run (Option Node)
    find_node zero f node = panic
    find_node (suc fuel) f node = elim (f node) [
      | panic ↦ panic
      | done true ↦ done (some node)
      | done false ↦ find_children fuel f node.children
    ]

    pub find_children : (fuel : ℕ) → (Node → Run Bool) → NodeIter → Run (Option Node)
    find_children zero f it = panic
    find_children (suc fuel) f it = elim (next_node it) [
      | panic ↦ panic
      | done none ↦ done none
      | done (some (node, it')) ↦ elim (find_node fuel f node) [
        | panic ↦ panic
        | done (some found) ↦ done (some found)
        | done none ↦ find_children fuel f it'
      ]
    ]

  -- `Fdt::find`
  unfoldable pub find : (Node → Run Bool) → R (FdtParseError E) (Option Node)
  unfolding root_node find_node
  find f = elim root_node [
    | panic ↦ panic
    | done (err e) ↦ done (err e)
    | done (ok root) ↦ elim (find_node (length root.children.bytes + 3) f root) [
      | panic ↦ panic
      | done r ↦ done (ok r)
    ]
  ]
