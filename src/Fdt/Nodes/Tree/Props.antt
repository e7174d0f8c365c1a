-- ===== src/Fdt/Nodes/Tree/Props.antt =====
-- `Property::parse` and `PropertyIter::span` in crates/fdt/src/lib.rs on the properties of a tree.
use rv.Base.{
  ℕ, zero, suc, ◌+◌, ◌-◌, ◌^◌, ◌<◌, ◌≡◌, ap, ◌∙◌, refl, arith, false, Option, List, [], ◌∷◌, length,
  done, ok, err,
}
use rv.Base.Bits.{bit_and_not_low}
use rv.Fdt.{Fdt, get_string}
use rv.Fdt.Combinators.{Nom, IsNom, starts_with}
use rv.Fdt.Nodes.{align_4, parse_property, next_property, props_span}
use rv.Fdt.Nodes.Tree.{
  PropSpec, prop_len, put_prop, put_props, size_props, IsPropOf, ArePropsOf, Writes-put_prop,
}
use rv.Fdt.Writes.{
  put_nops, put_padding, up_4, length-Writes, Writes-put_padding, step, step_fail, step_lift,
  Writes, take_Writes, be_u32-put_u32, many0_count-put_nops,
}

pub align_4-eq : (n : ℕ) → n + 3 < 2 ^ 64 → align_4 n ≡ up_4 n
align_4-eq n h = bit_and_not_low 2 (n + 3) (omega arith) h

-- What the reader has taken of padded output when it comes to the padding.
pub taken :
    {f : List ℕ → List ℕ} (n : ℕ) (rest : List ℕ)
    → Writes f (up_4 n)
    → length (f rest) - length (put_padding n rest) ≡ n
taken n rest w = omega (arith, length-Writes w rest, length-Writes (Writes-put_padding n) rest)

pub padding : (n m : ℕ) → m ≡ n → n + 3 < 2 ^ 64 → align_4 m - m ≡ up_4 n - n
padding n m e h = ap (λ k. align_4 k - k) e ∙ ap (λ k. k - n) (align_4-eq n h)

-- Where the properties end: at a token that is neither a property nor no operation.
pub record IsAtToken (rest : List ℕ) : Type 0 where
  pub nops : ℕ
  pub later : List ℕ
  pub split : rest ≡ put_nops nops later
  pub no_nop : starts_with (0 ∷ 0 ∷ 0 ∷ 4 ∷ []) later ≡ false
  pub no_prop : starts_with (0 ∷ 0 ∷ 0 ∷ 3 ∷ []) later ≡ false

module _ {E : Type 0} {nom : Nom E} (laws : IsNom nom) (utf8 : List ℕ → Option (List ℕ))
    (fdt : Fdt) where
  pub parse_property-put_prop :
      (p : PropSpec) (rest : List ℕ)
      → IsPropOf utf8 fdt p
      → prop_len p + 3 < 2 ^ 64
      → parse_property nom utf8 fdt (put_prop p rest)
        ≡ done (ok (rest, record { span = up_4 (prop_len p); name = p.name; value = p.value }))
  unfolding parse_property put_prop get_string
  parse_property-put_prop p rest is fits = step _ (many0_count-put_nops laws p.nops _ refl) (
      step _ (laws.tag_here (0 ∷ 0 ∷ 0 ∷ 3 ∷ []) _) (
        step _ (be_u32-put_u32 laws (length p.value) _ is.value) (
          step _ (be_u32-put_u32 laws p.name_off _ is.name_off) (
            step _ (laws.take_here p.value _) (
              step _
                (take_Writes laws (Writes-put_padding (prop_len p)) _ rest
                  (padding (prop_len p) _ m fits))
                (step_lift _ _ is.name (
                  ap (λ s. done (ok (rest, record { span = s; name = p.name; value = p.value })))
                    (ap align_4 m ∙ align_4-eq (prop_len p) fits))))))))
    where
      m : length (put_prop p rest) - length (put_padding (prop_len p) rest) ≡ prop_len p
      m = taken (prop_len p) rest (Writes-put_prop p)

  pub parse_property-stop :
      (rest : List ℕ) → IsAtToken rest → (e : E) × (parse_property nom utf8 fdt rest ≡ done (err e))
  unfolding parse_property
  parse_property-stop rest at =
      let failed = laws.tag_other (0 ∷ 0 ∷ 0 ∷ 3 ∷ []) at.later at.no_prop in
      (
        failed.0,
        step _
            (ap (nom.many0_count _) at.split ∙ many0_count-put_nops laws at.nops at.later at.no_nop)
            (step_fail _ failed.1),
      )

  pub props_span-put_props :
      (fuel : ℕ) (ps : List PropSpec) (rest : List ℕ)
      → ArePropsOf utf8 fdt ps
      → size_props ps + 3 < 2 ^ 64
      → IsAtToken rest
      → size_props ps < fuel
      → props_span nom utf8 fdt fuel (put_props ps rest) ≡ done (size_props ps)
  unfolding props_span put_props size_props next_property
  props_span-put_props zero ps rest are fits at enough = absurd (omega arith)
  props_span-put_props (suc fuel) [] rest are fits at enough = rw (parse_property-stop rest at).1
  props_span-put_props (suc fuel) (p ∷ ps) rest are fits at enough = rw (
    parse_property-put_prop p (put_props ps rest) are.0 (omega arith),
    props_span-put_props fuel ps rest are.1 (omega arith) at (omega arith),
  )
