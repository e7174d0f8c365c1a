-- ===== src/Fdt/Lookup/Property.antt =====
-- `Node::property` in crates/fdt/src/lib.rs on the properties of a tree, and `StringList` on a list of strings.
use rv.Base.{
  ℕ, zero, suc, ◌+◌, ◌^◌, ◌<◌, ◌≤◌, ◌≡◌, refl, arith, true, false, Option, none, some, List, [],
  ◌∷◌, ◌++◌, length, done, length-append, take-append, drop-append,
}
use rv.Fdt.{Fdt, position_nul}
use rv.Fdt.Combinators.{Nom, IsNom}
use rv.Fdt.Lookup.{name_is, find_property, property}
use rv.Fdt.Nodes.{not_nul, next_property}
use rv.Fdt.Nodes.Tree.{
  PropSpec, Tree, tree, put_props, put_forest, put_end, size_props, size_tree, ArePropsOf, IsTreeOf,
  node_of, Writes-put_props,
}
use rv.Fdt.Nodes.Tree.Props.{IsAtToken, parse_property-put_prop, parse_property-stop}
use rv.Fdt.Nodes.Tree.Read.{inner_IsAtToken}
use rv.Fdt.Value.{PropValue, parse_str, items, string_list}
use rv.Fdt.Writes.{All, length-Writes}

abbrev value_only : {T : Type 0} → Option (List ℕ × T) → Option T
value_only none = none
value_only (some (rest, t)) = some t

-- The value of the first property with a name; none if there is none, or if it does not parse.
unfoldable pub first_value : {T : Type 0} → PropValue T → List ℕ → List PropSpec → Option T
first_value parse s [] = none
first_value parse s (p ∷ ps) = elim (name_is p.name s) [
  | true ↦ value_only (parse p.value)
  | false ↦ first_value parse s ps
]

abbrev pub props_of : Tree → List PropSpec
props_of (tree nops name props kids end_nops) = props

-- Strings with a zero behind each.
abbrev pub put_strings : List (List ℕ) → List ℕ
put_strings [] = []
put_strings (s ∷ ss) = s ++ (0 ∷ put_strings ss)

abbrev pub AreStrings : (List ℕ → Option (List ℕ)) → List (List ℕ) → Type 0
AreStrings utf8 [] = Unit {0}
AreStrings utf8 (s ∷ ss) = All not_nul s × (utf8 s ≡ some s) × AreStrings utf8 ss

position_nul-append :
    (s rest : List ℕ) → All not_nul s → position_nul (s ++ (0 ∷ rest)) ≡ some (length s)
position_nul-append [] rest a = refl
position_nul-append (c ∷ s) rest a = ground (arith, a.0, position_nul-append s rest a.1)

parse_str-append :
    (utf8 : List ℕ → Option (List ℕ)) (s rest : List ℕ)
    → All not_nul s
    → utf8 s ≡ some s
    → parse_str utf8 (s ++ (0 ∷ rest)) ≡ some (rest, s)
unfolding parse_str
parse_str-append utf8 s rest a u =
    rw (position_nul-append s rest a, take-append s (0 ∷ rest), u, drop-append s (0 ∷ rest))

items-put_strings :
    (utf8 : List ℕ → Option (List ℕ)) (ss : List (List ℕ)) (fuel : ℕ)
    → AreStrings utf8 ss
    → length (put_strings ss) ≤ fuel
    → items fuel (parse_str utf8) (put_strings ss) ≡ ss
unfolding items parse_str
items-put_strings utf8 [] zero a h = refl
items-put_strings utf8 [] (suc fuel) a h = refl
items-put_strings utf8 (s ∷ ss) zero a h =
    absurd (omega (arith, length-append s (0 ∷ put_strings ss)))
items-put_strings utf8 (s ∷ ss) (suc fuel) a h = rw (
  items,
  parse_str-append utf8 s (put_strings ss) a.0 a.1,
  items-put_strings utf8 ss fuel a.2 (omega (arith, length-append s (0 ∷ put_strings ss))),
)

-- A list of strings is read back from its bytes.
pub string_list-put_strings :
    (utf8 : List ℕ → Option (List ℕ)) (ss : List (List ℕ))
    → AreStrings utf8 ss
    → string_list utf8 (put_strings ss) ≡ ss
unfolding string_list
string_list-put_strings utf8 ss a =
    items-put_strings utf8 ss (length (put_strings ss)) a (omega arith)

module _ {E : Type 0} {nom : Nom E} (laws : IsNom nom) (utf8 : List ℕ → Option (List ℕ))
    (fdt : Fdt) where
  find_property-put_props :
      {T : Type 0} (parse : PropValue T) (fuel : ℕ) (s : List ℕ) (ps : List PropSpec)
      (rest : List ℕ)
      → ArePropsOf utf8 fdt ps
      → size_props ps + 3 < 2 ^ 64
      → IsAtToken rest
      → size_props ps < fuel
      → find_property nom utf8 fdt fuel parse s (put_props ps rest) ≡ done (first_value parse s ps)
  unfolding find_property put_props size_props next_property first_value
  find_property-put_props parse zero s ps rest are fits at enough = absurd (omega arith)
  find_property-put_props parse (suc fuel) s [] rest are fits at enough =
      rw (find_property, (parse_property-stop laws utf8 fdt rest at).1)
  find_property-put_props parse (suc fuel) s (p ∷ ps) rest are fits at enough =
      rw
        (
          find_property,
          parse_property-put_prop laws utf8 fdt p (put_props ps rest) are.0 (omega arith),
        )
        (ground (
          arith,
          find_property-put_props parse fuel s ps rest are.1 (omega arith) at (omega arith),
        ))

  -- On the node of a tree, property gives the value of the first of its properties with the name.
  pub property-first_value :
      {T : Type 0} (parse : PropValue T) (s : List ℕ) (t : Tree) (off : ℕ) (parent_off : Option ℕ)
      (rest : List ℕ)
      → IsTreeOf utf8 fdt t
      → size_tree t + 3 < 2 ^ 64
      → property nom utf8 fdt parse s (node_of t off parent_off rest)
        ≡ done (first_value parse s (props_of t))
  unfolding property IsTreeOf size_tree
  property-first_value parse s (tree nops name props kids end_nops) off parent_off rest is fits =
      let inner = put_forest kids (put_end end_nops rest) in
      find_property-put_props parse (suc (length (put_props props inner))) s props inner is.2
        (omega arith) (inner_IsAtToken kids end_nops rest)
        (omega (arith, length-Writes (Writes-put_props props) inner))
