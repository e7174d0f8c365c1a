-- ===== src/Fdt/Nodes/Tree.antt =====
-- Device trees as data, and the bytes of their structure block by the Devicetree Specification. A token may
-- have no-operation tokens in front; the padding is of zeros.
pub mod Props
pub mod Read
pub mod Find
use rv.Base.{
  ℕ, zero, suc, ◌+◌, ◌-◌, ◌*◌, ◌/◌, ◌%◌, ◌^◌, ◌<◌, ◌≤◌, ◌≡◌, ap, ◌∙◌, sym, refl, arith, true,
  Option, some, List, [], ◌∷◌, ◌++◌, length, Run, done,
}
use rv.Fdt.{Fdt, get_string}
use rv.Fdt.Nodes.{not_nul, Node, NodeIter, new_iter}
use rv.Fdt.Writes.{
  put_nops, put_u32, put_padding, up_4, All, Writes, Writes-id, Writes-append, Writes-then,
  Writes-eq, Writes-put_nops, Writes-put_u32, Writes-put_padding,
}

-- A property: the offset of its name in the block of strings, the name found there, and the value.
pub record PropSpec : Type 0 where
  pub nops : ℕ
  pub name_off : ℕ
  pub name : Option (List ℕ)
  pub value : List ℕ

mutual
  pub data Tree : Type 0 where
    tree : (nops : ℕ) → (name : List ℕ) → List PropSpec → Forest → (end_nops : ℕ) → Tree

  pub data Forest : Type 0 where
    leafless : Forest
    plant : Tree → Forest → Forest

-- The bytes of a property and of the head of a node before their padding.
abbrev pub prop_len : PropSpec → ℕ
prop_len p = 4 * p.nops + (4 + (4 + (4 + length p.value)))

abbrev pub head_len : ℕ → List ℕ → ℕ
head_len nops name = 4 * nops + (4 + (length name + 1))

unfoldable pub put_prop : PropSpec → List ℕ → List ℕ
put_prop p rest = put_nops p.nops (
    (0 ∷ 0 ∷ 0 ∷ 3 ∷ [])
    ++ (put_u32 (length p.value) (put_u32 p.name_off (p.value ++ put_padding (prop_len p) rest))))

unfoldable pub put_props : List PropSpec → List ℕ → List ℕ
unfolding put_prop
put_props [] rest = rest
put_props (p ∷ ps) rest = put_prop p (put_props ps rest)

unfoldable pub put_head : ℕ → List ℕ → List ℕ → List ℕ
put_head nops name rest =
    put_nops nops
      ((0 ∷ 0 ∷ 0 ∷ 1 ∷ []) ++ (name ++ ((0 ∷ []) ++ put_padding (head_len nops name) rest)))

unfoldable pub put_end : ℕ → List ℕ → List ℕ
put_end nops rest = put_nops nops ((0 ∷ 0 ∷ 0 ∷ 2 ∷ []) ++ rest)

unfoldable mutual
  pub put_tree : Tree → List ℕ → List ℕ
  put_tree (tree nops name props kids end_nops) rest =
      put_head nops name (put_props props (put_forest kids (put_end end_nops rest)))

  pub put_forest : Forest → List ℕ → List ℕ
  put_forest leafless rest = rest
  put_forest (plant t ts) rest = put_tree t (put_forest ts rest)

unfoldable pub size_props : List PropSpec → ℕ
size_props [] = 0
size_props (p ∷ ps) = up_4 (prop_len p) + size_props ps

unfoldable mutual
  pub size_tree : Tree → ℕ
  size_tree (tree nops name props kids end_nops) =
      up_4 (head_len nops name) + (size_props props + (size_forest kids + (4 * end_nops + 4)))

  pub size_forest : Forest → ℕ
  size_forest leafless = 0
  size_forest (plant t ts) = size_tree t + size_forest ts

Writes-padded :
    {f : List ℕ → List ℕ} (n : ℕ) → Writes f n → Writes (λ rest. f (put_padding n rest)) (up_4 n)
Writes-padded n w = Writes-eq (omega arith) (Writes-then w (Writes-put_padding n))

pub Writes-put_prop : (p : PropSpec) → Writes (put_prop p) (up_4 (prop_len p))
unfolding put_prop
Writes-put_prop p = Writes-padded (prop_len p) (
    Writes-then (Writes-put_nops p.nops) (
      Writes-then (Writes-append (0 ∷ 0 ∷ 0 ∷ 3 ∷ [])) (
        Writes-then (Writes-put_u32 (length p.value))
          (Writes-then (Writes-put_u32 p.name_off) (Writes-append p.value)))))

pub Writes-put_props : (ps : List PropSpec) → Writes (put_props ps) (size_props ps)
unfolding put_props size_props
Writes-put_props [] = Writes-id
Writes-put_props (p ∷ ps) = Writes-then (Writes-put_prop p) (Writes-put_props ps)

pub Writes-put_head :
    (nops : ℕ) (name : List ℕ) → Writes (put_head nops name) (up_4 (head_len nops name))
unfolding put_head
Writes-put_head nops name = Writes-padded (head_len nops name) (
    Writes-then (Writes-put_nops nops) (
      Writes-then (Writes-append (0 ∷ 0 ∷ 0 ∷ 1 ∷ []))
        (Writes-then (Writes-append name) (Writes-append (0 ∷ [])))))

pub Writes-put_end : (nops : ℕ) → Writes (put_end nops) (4 * nops + 4)
unfolding put_end
Writes-put_end nops = Writes-then (Writes-put_nops nops) (Writes-append (0 ∷ 0 ∷ 0 ∷ 2 ∷ []))

mutual
  unfolding put_tree size_tree

  pub Writes-put_tree : (t : Tree) → Writes (put_tree t) (size_tree t)
  Writes-put_tree (tree nops name props kids end_nops) = Writes-then (Writes-put_head nops name) (
      Writes-then (Writes-put_props props)
        (Writes-then (Writes-put_forest kids) (Writes-put_end end_nops)))

  pub Writes-put_forest : (ts : Forest) → Writes (put_forest ts) (size_forest ts)
  Writes-put_forest leafless = Writes-id
  Writes-put_forest (plant t ts) = Writes-then (Writes-put_tree t) (Writes-put_forest ts)

-- What the reader relies on: a property fits its fields and has its name, if any, in the block of strings.
pub record IsPropOf (utf8 : List ℕ → Option (List ℕ)) (fdt : Fdt) (p : PropSpec) : Type 0 where
  pub value : length p.value < 2 ^ 32
  pub name_off : p.name_off < 2 ^ 32
  pub name : get_string utf8 fdt p.name_off ≡ done p.name

abbrev pub ArePropsOf : (List ℕ → Option (List ℕ)) → Fdt → List PropSpec → Type 0
ArePropsOf utf8 fdt [] = Unit {0}
ArePropsOf utf8 fdt (p ∷ ps) = IsPropOf utf8 fdt p × ArePropsOf utf8 fdt ps

-- A name is UTF-8 without a zero.
unfoldable mutual
  pub IsTreeOf : (List ℕ → Option (List ℕ)) → Fdt → Tree → Type 0
  IsTreeOf utf8 fdt (tree nops name props kids end_nops) =
      All not_nul name
      × (utf8 name ≡ some name)
      × ArePropsOf utf8 fdt props
      × IsForestOf utf8 fdt kids

  pub IsForestOf : (List ℕ → Option (List ℕ)) → Fdt → Forest → Type 0
  IsForestOf utf8 fdt leafless = Unit {0}
  IsForestOf utf8 fdt (plant t ts) = IsTreeOf utf8 fdt t × IsForestOf utf8 fdt ts

-- The node of a tree at the offset `off`, with `rest` behind it.
abbrev pub node_of : Tree → (off : ℕ) → Option ℕ → (rest : List ℕ) → Node
node_of (tree nops name props kids end_nops) off parent_off rest =
    let inner = put_forest kids (put_end end_nops rest) in
    record {
      off = off;
      span = size_tree (tree nops name props kids end_nops);
      name = name;
      props = put_props props inner;
      children = new_iter (off + (up_4 (head_len nops name) + size_props props)) off inner;
      parent_off = parent_off;
    }
