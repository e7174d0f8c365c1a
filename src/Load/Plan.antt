-- ===== src/Load/Plan.antt =====
-- The plan for a whole file.
use rv.Base.{ℕ, ◌+◌, ◌^◌, ◌≤◌, ◌<◌, ◌≡◌, inl, inr, sym, ap, ◌∙◌, arith, subst}
use rv.Base.{false, List, length, length-take, take, get_elem?-take}
use rv.Base.{done, panic, ok, Run-cases}
use rv.Base.Fallible.{R-cases}
use rv.Addr.Virt
use rv.Elf.{Elf64, parse, is_load, program_headers}
use rv.Elf.Headers.{IsChecked, parse-IsChecked}
use rv.Load.{LoadPolicy, LoadPlan, LoadSegment, fill, count_items, prefix, build_load_plan}
use rv.Load.Fill.{Slot, loaded, skipped, header, fill-Filled, fill-none_loadable, count_items-eq}

-- One segment for each program header of the file, with its index.
pub record IsPlanned (bytes : List ℕ) (buf : List LoadSegment) (plan : LoadPlan) : Type 0 where
  pub elf : Elf64
  pub parsed : parse bytes ≡ done (ok elf)
  pub entry : Virt.new elf.hdr.e_entry ≡ done plan.entry
  pub count : length plan.segments ≡ elf.hdr.e_phnum
  pub slots : (k : ℕ) → k < elf.hdr.e_phnum → Slot elf buf plan.segments k

prefix-inv :
    (buf : List LoadSegment) (n : ℕ) {segs : List LoadSegment}
    → prefix buf n ≡ done segs
    → (n ≤ length buf) × (segs ≡ take n buf)
unfolding prefix
prefix-inv buf n e = ground arith

prefix-short : (buf : List LoadSegment) (n : ℕ) → length buf < n → prefix buf n ≡ panic
unfolding prefix
prefix-short buf n h = ground arith

Slot-take :
    (elf : Elf64) (old new : List LoadSegment) (n k : ℕ)
    → k < n
    → Slot elf old new k
    → Slot elf old (take n new) k
Slot-take elf old new n k h (loaded seg l at g) = loaded seg l (get_elem?-take n k new h ∙ at) g
Slot-take elf old new n k h (skipped l at) = skipped l (get_elem?-take n k new h ∙ at)

module _ (bytes : List ℕ) (policy : LoadPolicy) (buf : List LoadSegment) (elf : Elf64)
    (parsed : parse bytes ≡ done (ok elf)) (word : length bytes < 2 ^ 64) where
  checked : IsChecked elf.bytes elf.hdr
  checked =
      let (same, c) = parse-IsChecked bytes elf parsed in
      subst (λ b. IsChecked b elf.hdr) (sym same) c

  word' : length elf.bytes < 2 ^ 64
  word' = let (same, c) = parse-IsChecked bytes elf parsed in omega (arith, ap length same)

  counted : count_items (elf.hdr.e_phnum + 1) (program_headers elf) 0 ≡ done elf.hdr.e_phnum
  unfolding program_headers
  counted =
      count_items-eq elf checked word' (elf.hdr.e_phnum + 1) 0 0 (omega arith) (omega arith)
      ∙ ap done (omega arith)

  plan_of_parts :
      (plan : LoadPlan) (filled : List LoadSegment) (v : ℕ)
      → fill (elf.hdr.e_phnum + 1) policy elf (program_headers elf) 0 buf ≡ done (ok filled)
      → Virt.new elf.hdr.e_entry ≡ done v
      → build_load_plan bytes policy buf ≡ done (ok plan)
      → IsPlanned bytes buf plan
  unfolding build_load_plan program_headers
  plan_of_parts plan filled v f at e = elim (Run-cases (prefix filled elf.hdr.e_phnum)) [
    | inl (segs, got) ↦
        let same : plan ≡ record { entry = v; segments = segs } =
          ground (arith, parsed, f, at, counted, got, e) in
        let (inside, taken) = prefix-inv filled elf.hdr.e_phnum got in
        subst (λ p. IsPlanned bytes buf p)
          (sym (same ∙ ap (λ l. record { entry = v; segments = l }) taken))
          (record {
            elf = elf;
            parsed = parsed;
            entry = at;
            count = length-take elf.hdr.e_phnum filled inside;
            slots = λ k h. Slot-take elf buf filled elf.hdr.e_phnum k h (
                (fill-Filled policy elf checked word' (elf.hdr.e_phnum + 1) 0 buf filled f).slots k
                  (omega arith) h);
          })
    | inr got ↦ absurd (ground (arith, parsed, f, at, counted, got, e))
  ]

  -- The entry cannot be above the highest address, since the plan was built.
  plan_of_entry :
      (plan : LoadPlan) (filled : List LoadSegment)
      → fill (elf.hdr.e_phnum + 1) policy elf (program_headers elf) 0 buf ≡ done (ok filled)
      → build_load_plan bytes policy buf ≡ done (ok plan)
      → IsPlanned bytes buf plan
  unfolding build_load_plan
  plan_of_entry plan filled f e = elim (Run-cases (Virt.new elf.hdr.e_entry)) [
    | inl (v, at) ↦ plan_of_parts plan filled v f at e
    | inr at ↦ absurd (ground (arith, parsed, f, at, e))
  ]

  plan_of_fill :
      (plan : LoadPlan)
      → build_load_plan bytes policy buf ≡ done (ok plan)
      → IsPlanned bytes buf plan
  unfolding build_load_plan
  plan_of_fill plan e =
      elim (R-cases (fill (elf.hdr.e_phnum + 1) policy elf (program_headers elf) 0 buf)) [
        | inl (filled, f) ↦ plan_of_entry plan filled f e
        | inr (inl (x, f)) ↦ absurd (ground (arith, parsed, f, e))
        | inr (inr f) ↦ absurd (ground (arith, parsed, f, e))
      ]

module _ (bytes : List ℕ) (policy : LoadPolicy) (buf : List LoadSegment) where
  -- A plan that is built has as many segments as the file has program headers. Segment k is the
  -- checked segment of header k where that header is loadable, and otherwise what the
  -- caller's buffer held at index k.
  pub build_load_plan-IsPlanned :
      (plan : LoadPlan)
      → length bytes < 2 ^ 64
      → build_load_plan bytes policy buf ≡ done (ok plan)
      → IsPlanned bytes buf plan
  unfolding build_load_plan
  build_load_plan-IsPlanned plan word e = elim (R-cases (parse bytes)) [
    | inl (elf, parsed) ↦ plan_of_fill bytes policy buf elf parsed word plan e
    | inr (inl (x, parsed)) ↦ absurd (ground (arith, parsed, e))
    | inr (inr parsed) ↦ absurd (ground (arith, parsed, e))
  ]

  -- Where no header is loadable and the caller's buffer has fewer entries than the file has
  -- program headers, no header is too many for the loop, and the slice of the buffer panics.
  pub build_load_plan_panics :
      (elf : Elf64) (v : ℕ)
      → length bytes < 2 ^ 64
      → parse bytes ≡ done (ok elf)
      → Virt.new elf.hdr.e_entry ≡ done v
      → ((k : ℕ) → k < elf.hdr.e_phnum → is_load (header elf k) ≡ false)
      → length buf < elf.hdr.e_phnum
      → build_load_plan bytes policy buf ≡ panic
  unfolding build_load_plan program_headers
  build_load_plan_panics elf v word parsed at none_loadable short =
      let f =
        fill-none_loadable policy elf (checked bytes policy buf elf parsed word)
          (word' bytes policy buf elf parsed word) (elf.hdr.e_phnum + 1) 0 buf (omega arith)
          (omega arith) (λ k p q. none_loadable k q) in
      let c = counted bytes policy buf elf parsed word in
      let s = prefix-short buf elf.hdr.e_phnum short in ground (arith, parsed, f, at, c, s)
