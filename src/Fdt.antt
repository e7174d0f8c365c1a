-- ===== src/Fdt.antt =====
-- The reader of flattened device trees in crates/fdt/src/lib.rs. A byte is a number, a string its bytes. The
-- combinators of nom and `core::str::from_utf8` are parameters.
pub mod Combinators
pub mod Writes
pub mod Value
pub mod Blob
pub mod Nodes
pub mod Lookup
mod Samples
mod Tests
use rv.Base.{
  ℕ, zero, suc, ◌+◌, ◌-◌, ◌*◌, ◌/◌, ◌^◌, Bool, true, false, not, ◌&&◌, ◌||◌, Option, none, some,
  List, [], ◌∷◌, length, slice, drop, Run, done, panic, Result, ok, err, unwrap, ◌==◌, ltb,
  if◌then◌else◌,
}
use rv.Base.Fallible.{R}
use rv.Fdt.Combinators.{Nom, P, ◌>>=◌, ◌>>◌, pure, run}

pub data FdtParseError (E : Type 0) : Type 0 where
  truncated invalid_header : FdtParseError E
  unsupported_version : ℕ → FdtParseError E
  parse_error : E → FdtParseError E

pub record Header : Type 0 where
  pub magic : ℕ
  pub totalsize : ℕ
  pub off_dt_struct : ℕ
  pub off_dt_strings : ℕ
  pub off_mem_rsvmap : ℕ
  pub version : ℕ
  pub last_comp_version : ℕ
  pub boot_cpuid_phys : ℕ
  pub size_dt_strings : ℕ
  pub size_dt_struct : ℕ

pub record Fdt : Type 0 where
  pub hdr : Header
  pub bytes : List ℕ

pub record ReserveEntry : Type 0 where
  pub address : ℕ
  pub size : ℕ

unfoldable pub is_empty : ReserveEntry → Bool
is_empty e = e.address == 0 && e.size == 0

-- `+` on `u32`
abbrev pub add_u32 : ℕ → ℕ → Run ℕ
add_u32 a b = if ltb (a + b) (2 ^ 32) then done (a + b) else panic

-- `position(|&b| b == 0)`
abbrev pub position_nul : List ℕ → Option ℕ
position_nul [] = none
position_nul (b ∷ bs) =
    if b == 0 then some 0 else elim (position_nul bs) [ none ↦ none | some n ↦ some (suc n) ]

module _ {E : Type 0} (nom : Nom E) where
  unfoldable pub parse_header : P E Header
  parse_header = do
    magic ← run nom.be_u32
    totalsize ← run nom.be_u32
    off_dt_struct ← run nom.be_u32
    off_dt_strings ← run nom.be_u32
    off_mem_rsvmap ← run nom.be_u32
    version ← run nom.be_u32
    last_comp_version ← run nom.be_u32
    boot_cpuid_phys ← run nom.be_u32
    size_dt_strings ← run nom.be_u32
    size_dt_struct ← run nom.be_u32
    pure (record {
      magic = magic;
      totalsize = totalsize;
      off_dt_struct = off_dt_struct;
      off_dt_strings = off_dt_strings;
      off_mem_rsvmap = off_mem_rsvmap;
      version = version;
      last_comp_version = last_comp_version;
      boot_cpuid_phys = boot_cpuid_phys;
      size_dt_strings = size_dt_strings;
      size_dt_struct = size_dt_struct;
    })

  -- The checks of `Header::from_bytes`.
  unfoldable pub check_header : Header → Result (FdtParseError E) Header
  check_header h =
      if not (h.magic == 0xd00dfeed)
      then err invalid_header
      else if not (h.version == 17) || not (h.last_comp_version == 16)
      then err (unsupported_version h.last_comp_version)
      else ok h

  -- The value that a parser gives, with its error wrapped: `.map_err(FdtParseError::ParseError)?.1`.
  abbrev pub value_of : {A : Type 0} → R E (List ℕ × A) → R (FdtParseError E) A
  value_of (done (ok (rest, a))) = done (ok a)
  value_of (done (err e)) = done (err (parse_error e))
  value_of panic = panic

  unfoldable pub header_from_bytes : List ℕ → R (FdtParseError E) Header
  unfolding parse_header check_header
  header_from_bytes s = elim (value_of (parse_header s)) [
    | panic ↦ panic
    | done (err e) ↦ done (err e)
    | done (ok h) ↦ done (check_header h)
  ]

  -- `Fdt::from_bytes`
  unfoldable pub from_bytes : List ℕ → R (FdtParseError E) Fdt
  unfolding header_from_bytes
  from_bytes fdt = elim (header_from_bytes fdt) [
    | panic ↦ panic
    | done (err e) ↦ done (err e)
    | done (ok h) ↦
        if not (h.totalsize == length fdt)
        then done (err truncated)
        else done (ok (record { hdr = h; bytes = fdt }))
  ]

  unfoldable pub parse_reserve : P E ReserveEntry
  parse_reserve = do
    address ← run nom.be_u64
    size ← run nom.be_u64
    pure (record { address = address; size = size })

  unfoldable pub reserve_from_bytes : List ℕ → R (FdtParseError E) ReserveEntry
  reserve_from_bytes s = value_of (parse_reserve s)

  -- `chunks_exact(16)`, mapped and taken while an entry is not empty, with `n` chunks left.
  unfoldable pub reserve_entries : (n : ℕ) → List ℕ → Run (List ReserveEntry)
  reserve_entries zero bytes = done []
  reserve_entries (suc n) bytes =
      let later = reserve_entries n (drop 16 bytes) in
      elim (reserve_from_bytes (slice bytes 0 16)) [
        | panic ↦ panic
        | done (err e) ↦ done []
        | done (ok e) ↦ elim (is_empty e) [
          | true ↦ done []
          | false ↦ elim later [ panic ↦ panic | done es ↦ done (e ∷ es) ]
        ]
      ]

  -- The items of `reserved_memory_map`; all of them are entries, since an error ends it.
  unfoldable pub reserved_memory_map : Fdt → Run (List ReserveEntry)
  reserved_memory_map fdt =
      if ltb (length fdt.bytes) fdt.hdr.off_mem_rsvmap
      then panic
      else reserve_entries (length (drop fdt.hdr.off_mem_rsvmap fdt.bytes) / 16)
          (drop fdt.hdr.off_mem_rsvmap fdt.bytes)

-- `Fdt::get_string`
unfoldable pub get_string : (utf8 : List ℕ → Option (List ℕ)) → Fdt → ℕ → Run (Option (List ℕ))
get_string utf8 fdt off = elim (add_u32 fdt.hdr.off_dt_strings off) [
  | panic ↦ panic
  | done start ↦ elim (ltb (length fdt.bytes) start) [
    | true ↦ panic
    | false ↦ elim (position_nul (drop start fdt.bytes)) [
      | none ↦ done none
      | some len ↦ elim (utf8 (slice fdt.bytes start (start + len))) [
        | none ↦ panic
        | some s ↦ done (some s)
      ]
    ]
  ]
]
