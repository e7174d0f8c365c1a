-- ===== src/Fdt/Blob.antt =====
-- `Fdt::from_bytes` in crates/fdt/src/lib.rs on headers as the Devicetree Specification writes them, and what a
-- header that it accepts does not promise.
use rv.Base.{
  ℕ, ◌+◌, ◌^◌, ◌<◌, ◌≡◌, ◌∙◌, refl, arith, not, ◌||◌, Option, List, length, done, panic, ok, err,
  ◌==◌, if◌then◌else◌,
}
use rv.Fdt.{
  Fdt, truncated, invalid_header, unsupported_version, Header, parse_header, check_header,
  header_from_bytes, from_bytes,
}
use rv.Fdt.Combinators.{Nom, IsNom}
use rv.Fdt.Nodes.{root_node}
use rv.Fdt.Writes.{put_u32, step, be_u32-put_u32}

-- Each field fits.
pub record IsHeader (h : Header) : Type 0 where
  pub magic : h.magic < 2 ^ 32
  pub totalsize : h.totalsize < 2 ^ 32
  pub off_dt_struct : h.off_dt_struct < 2 ^ 32
  pub off_dt_strings : h.off_dt_strings < 2 ^ 32
  pub off_mem_rsvmap : h.off_mem_rsvmap < 2 ^ 32
  pub version : h.version < 2 ^ 32
  pub last_comp_version : h.last_comp_version < 2 ^ 32
  pub boot_cpuid_phys : h.boot_cpuid_phys < 2 ^ 32
  pub size_dt_strings : h.size_dt_strings < 2 ^ 32
  pub size_dt_struct : h.size_dt_struct < 2 ^ 32

unfoldable pub put_header : Header → List ℕ → List ℕ
put_header h rest = put_u32 h.magic (
    put_u32 h.totalsize (
      put_u32 h.off_dt_struct (
        put_u32 h.off_dt_strings (
          put_u32 h.off_mem_rsvmap (
            put_u32 h.version (
              put_u32 h.last_comp_version (
                put_u32 h.boot_cpuid_phys
                  (put_u32 h.size_dt_strings (put_u32 h.size_dt_struct rest)))))))))

module _ {E : Type 0} {nom : Nom E} (laws : IsNom nom) where
  parse_header-put_header :
      (h : Header) (rest : List ℕ)
      → IsHeader h
      → parse_header nom (put_header h rest) ≡ done (ok (rest, h))
  unfolding parse_header put_header
  parse_header-put_header h rest is = step _ (be_u32-put_u32 laws h.magic _ is.magic) (
      step _ (be_u32-put_u32 laws h.totalsize _ is.totalsize) (
        step _ (be_u32-put_u32 laws h.off_dt_struct _ is.off_dt_struct) (
          step _ (be_u32-put_u32 laws h.off_dt_strings _ is.off_dt_strings) (
            step _ (be_u32-put_u32 laws h.off_mem_rsvmap _ is.off_mem_rsvmap) (
              step _ (be_u32-put_u32 laws h.version _ is.version) (
                step _ (be_u32-put_u32 laws h.last_comp_version _ is.last_comp_version) (
                  step _ (be_u32-put_u32 laws h.boot_cpuid_phys _ is.boot_cpuid_phys) (
                    step _ (be_u32-put_u32 laws h.size_dt_strings _ is.size_dt_strings) (
                      step _ (be_u32-put_u32 laws h.size_dt_struct _ is.size_dt_struct)
                        refl)))))))))

  -- What from_bytes makes of a header in front of the rest of a blob: the first check that fails decides.
  pub from_bytes-put_header :
      (h : Header) (rest : List ℕ)
      → IsHeader h
      → from_bytes nom (put_header h rest) ≡ (
          if not (h.magic == 0xd00dfeed)
          then done (err invalid_header)
          else if not (h.version == 17) || not (h.last_comp_version == 16)
          then done (err (unsupported_version h.last_comp_version))
          else if not (h.totalsize == length (put_header h rest))
          then done (err truncated)
          else done (ok (record { hdr = h; bytes = put_header h rest })))
  unfolding from_bytes header_from_bytes check_header
  from_bytes-put_header h rest is =
      rw (from_bytes, header_from_bytes, parse_header-put_header h rest is) (ground arith)

  -- from_bytes accepts a header whose block of structure leaves the blob, and root_node then panics, although it
  -- has an error for a blob that is too short.
  pub root_node_panics :
      (h : Header) (rest : List ℕ)
      → IsHeader h
      → h.magic ≡ 0xd00dfeed
      → h.version ≡ 17
      → h.last_comp_version ≡ 16
      → h.totalsize ≡ length (put_header h rest)
      → h.totalsize < h.off_dt_struct + h.size_dt_struct
      → (fdt : Fdt) × (from_bytes nom (put_header h rest) ≡ done (ok fdt))
        × ((utf8 : List ℕ → Option (List ℕ)) → root_node nom utf8 fdt ≡ panic)
  unfolding root_node
  root_node_panics h rest is magic version comp size outside = (
    record { hdr = h; bytes = put_header h rest },
    from_bytes-put_header h rest is ∙ ground arith,
    λ utf8. ground arith,
  )
