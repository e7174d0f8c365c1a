-- ===== src/Fdt/Tests.antt =====
-- The reader of device trees at concrete inputs.
use rv.Base.{
  ℕ, ◌+◌, ◌^◌, ◌<◌, ◌≡◌, ◌∙◌, refl, arith, Bool, not, Option, none, some, List, [], ◌∷◌, ◌++◌,
  length, Run, done, panic, ok, err, ◌==◌, if◌then◌else◌,
}
use rv.Fdt.{Fdt, Header, get_string}
use rv.Fdt.Blob.{put_header}
use rv.Fdt.Nodes.Tree.{
  put_tree, put_head, put_props, put_end, put_prop, size_tree, size_props, IsTreeOf, IsPropOf,
  node_of,
}
use rv.Fdt.Nodes.Tree.Find.{IsBlobOf}
use rv.Fdt.Blob.{from_bytes-put_header, IsHeader, root_node_panics}
use rv.Fdt.{from_bytes, truncated}
use rv.Base.Fallible
use rv.Cpio.{bytes_eq}
use rv.Fdt.Lookup.{find_by_path, parent, property}
use rv.Fdt.Lookup.Parent.{parent-IsChild}
use rv.Fdt.Lookup.Path.{find_by_path-follow, path_of, follow, nodes_at}
use rv.Fdt.Lookup.Places.{
  Place, place, node_at, IsChild, self, under, first_kid, later_kid, kids_off, kids_rest,
}
use rv.Fdt.Lookup.Property.{property-first_value, first_value}
use rv.Fdt.Nodes.{Node, read_node, find, root_node}
use rv.Fdt.Nodes.Tree.Find.{find-first, first, nodes_of}
use rv.Fdt.Nodes.Tree.Read.{read_node-put_tree}
use rv.Fdt.Value.{parse_rest}
use rv.Fdt.Samples.{
  nom, nom-IsNom, utf8, prop_c, m_8, m, n, device, end_token, structure, header, blob,
}
use rv.Fdt.Writes.{put_nops}

size : size_tree device ≡ 88
unfolding size_tree size_props
size = refl

blob-length : length blob.bytes ≡ 134
unfolding structure put_tree put_head put_props put_end put_nops put_prop put_header
blob-length = refl

prop_c-IsPropOf : IsPropOf utf8 blob prop_c
unfolding structure put_tree put_head put_props put_end put_nops put_prop put_header get_string
prop_c-IsPropOf = record { value = omega arith; name_off = omega arith; name = refl }

device-IsTreeOf : IsTreeOf utf8 blob device
unfolding IsTreeOf
device-IsTreeOf = (
  tt,
  refl,
  (prop_c-IsPropOf, tt),
  (
    ((refl, (refl, (refl, tt))), refl, tt, tt),
    (((refl, tt), refl, tt, (((refl, tt), refl, tt, tt), tt)), tt),
  ),
)

blob-IsBlobOf : IsBlobOf utf8 blob device end_token
unfolding size_tree size_props structure put_tree put_head put_props put_end put_nops put_prop
    put_header
blob-IsBlobOf = record {
  is = device-IsTreeOf;
  fits = omega arith;
  word = omega arith;
  inside = omega (arith, blob-length);
  block = refl;
}

abbrev n_place : Place
n_place = place n (kids_off device 0 + size_tree m_8) (some 0) (kids_rest device end_token)

abbrev m_place : Place
m_place = place m (kids_off n n_place.off) (some n_place.off) (kids_rest n n_place.rest)

n_kid : IsChild (place device 0 none end_token) n_place
unfolding put_tree
n_kid = later_kid first_kid

m_kid : IsChild n_place m_place
unfolding put_tree
m_kid = first_kid

abbrev named_m : Node → Run Bool
named_m node = done (bytes_eq node.name (109 ∷ []))

find-first_example :
    find nom utf8 blob named_m ≡ Fallible.lift (first named_m (nodes_of device 0 none end_token))
find-first_example = find-first nom-IsNom utf8 blob named_m device end_token blob-IsBlobOf

-- It is the child of the second child, behind the first child with a longer name.
found_m : find nom utf8 blob named_m ≡ done (ok (some (node_at m_place)))
unfolding first nodes_of size_tree size_props put_tree put_end
found_m = find-first nom-IsNom utf8 blob named_m device end_token blob-IsBlobOf ∙ refl

read_node-put_tree_example :
    read_node nom utf8 blob 0 none (put_tree device end_token)
    ≡ done (ok (end_token, node_of device 0 none end_token))
read_node-put_tree_example =
    read_node-put_tree nom-IsNom utf8 blob 0 none device end_token device-IsTreeOf
      blob-IsBlobOf.fits

parent-IsChild_example : parent nom utf8 blob (node_at m_place) ≡ done (some (node_at n_place))
parent-IsChild_example =
    parent-IsChild nom-IsNom utf8 blob device end_token n_place m_place blob-IsBlobOf
      (under n_kid self) m_kid

find_by_path-follow_example :
    find_by_path nom utf8 blob (path_of ((110 ∷ []) ∷ (109 ∷ []) ∷ []))
    ≡ done (ok (nodes_at (follow ((110 ∷ []) ∷ (109 ∷ []) ∷ []) (place device 0 none end_token))))
find_by_path-follow_example =
    find_by_path-follow nom-IsNom utf8 blob device end_token 110 [] ((109 ∷ []) ∷ []) blob-IsBlobOf
      (omega arith) ((refl, tt), ((refl, tt), tt))

property-first_value_example :
    property nom utf8 blob parse_rest (99 ∷ []) (node_of device 0 none end_token)
    ≡ done (first_value parse_rest (99 ∷ []) (prop_c ∷ []))
property-first_value_example =
    property-first_value nom-IsNom utf8 blob parse_rest (99 ∷ []) device 0 none end_token
      device-IsTreeOf blob-IsBlobOf.fits

header-IsHeader : (size : ℕ) → size < 2 ^ 32 → IsHeader (record header { totalsize = size })
header-IsHeader size h = record {
  magic = omega arith;
  totalsize = h;
  off_dt_struct = omega arith;
  off_dt_strings = omega arith;
  off_mem_rsvmap = omega arith;
  version = omega arith;
  last_comp_version = omega arith;
  boot_cpuid_phys = omega arith;
  size_dt_strings = omega arith;
  size_dt_struct = omega arith;
}

from_bytes-put_header_example :
    from_bytes nom blob.bytes
    ≡ (if not (134 == length blob.bytes) then done (err truncated) else done (ok blob))
from_bytes-put_header_example =
    from_bytes-put_header nom-IsNom header (structure ++ (99 ∷ 0 ∷ []))
      (header-IsHeader 134 (omega arith))

-- A header with nothing behind it.
abbrev empty_header : Header
empty_header = record header { totalsize = 40 }

root_node_panics_example :
    (fdt : Fdt) × (from_bytes nom (put_header empty_header []) ≡ done (ok fdt))
    × ((u : List ℕ → Option (List ℕ)) → root_node nom u fdt ≡ panic)
unfolding put_header
root_node_panics_example =
    root_node_panics nom-IsNom empty_header [] (header-IsHeader 40 (omega arith)) refl refl refl
      refl (omega arith)
