-- ===== src/Load/Fill.antt =====
-- What the loop over the program headers leaves in the buffer.
use native.Mathlib.Decide.{dec_lt}
use rv.Base.{ℕ, zero, suc, ◌+◌, ◌-◌, ◌^◌, ◌≤◌, ◌<◌, ◌≡◌, inl, inr, refl, sym, ap, ◌∙◌, arith, subst}
use rv.Base.{
  true, false, List, length, length-set, get_elem?, get_elem?-set_self, get_elem?-set_ne, set, some,
  none,
}
use rv.Base.{done, panic, Result, ok, Bool-cases}
use rv.Base.Fallible.{R-cases}
use rv.Elf
use rv.Elf.{Elf64, Elf64Phdr, ProgramHeaderIter, is_load}
use rv.Elf.Headers.{IsChecked, iter_at, entry_bytes, phdr_of, next-entry, next-end}
use rv.Load.{LoadPolicy, LoadSegment, segment_of, fill, count_items}

-- Program header `i`.
abbrev pub header : Elf64 → ℕ → Elf64Phdr
header elf i = phdr_of (entry_bytes elf i)

-- Index `k` of the buffer after the loop: the segment of a loadable header, and otherwise what was there.
pub data Slot (elf : Elf64) (old new : List LoadSegment) (k : ℕ) : Type 0 where
  loaded :
      (seg : LoadSegment)
      → is_load (header elf k) ≡ true
      → get_elem? new k ≡ some seg
      → segment_of elf (header elf k) ≡ done (ok seg)
      → Slot elf old new k
  skipped : is_load (header elf k) ≡ false → get_elem? new k ≡ get_elem? old k → Slot elf old new k

-- The loop has gone through the headers from `i` on.
pub record Filled (elf : Elf64) (old new : List LoadSegment) (i : ℕ) : Type 0 where
  pub same_length : length new ≡ length old
  pub before : (k : ℕ) → k < i → get_elem? new k ≡ get_elem? old k
  pub slots : (k : ℕ) → i ≤ k → k < elf.hdr.e_phnum → Slot elf old new k

module _ (fuel : ℕ) (policy : LoadPolicy) (elf : Elf64) (it it' : ProgramHeaderIter) (i : ℕ)
    (buf : List LoadSegment) (ph : Elf64Phdr) (e : Elf.next it ≡ done (some (ok ph, it'))) where
  fill-skip :
      is_load ph ≡ false
      → fill (suc fuel) policy elf it i buf ≡ fill fuel policy elf it' (i + 1) buf
  unfolding fill
  fill-skip skip = ground (arith, e)

  -- A loop that returns has found room and a segment.
  fill-load :
      {out : List LoadSegment}
      → is_load ph ≡ true
      → fill (suc fuel) policy elf it i buf ≡ done (ok out)
      → (seg : LoadSegment) × (i < length buf)
        × (segment_of elf ph ≡ done (ok seg))
        × (fill fuel policy elf it' (i + 1) (set buf i seg) ≡ done (ok out))
  unfolding fill
  fill-load load r = elim (R-cases (segment_of elf ph)) [
    | inl (seg, got) ↦ (seg, ground (arith, e, r, got), got, ground (arith, e, r, got))
    | inr (inl (x, got)) ↦ absurd (ground (arith, e, r, got))
    | inr (inr got) ↦ absurd (ground (arith, e, r, got))
  ]

fill-last :
    (fuel : ℕ) (policy : LoadPolicy) (elf : Elf64) (it : ProgramHeaderIter) (i : ℕ)
    (buf : List LoadSegment)
    → Elf.next it ≡ done none
    → fill (suc fuel) policy elf it i buf ≡ done (ok buf)
unfolding fill
fill-last fuel policy elf it i buf e = ground (arith, e)

fill-out_of_fuel :
    (policy : LoadPolicy) (elf : Elf64) (it : ProgramHeaderIter) (i : ℕ) (buf : List LoadSegment)
    → fill zero policy elf it i buf ≡ panic
unfolding fill
fill-out_of_fuel policy elf it i buf = refl

module _ (elf : Elf64) (old : List LoadSegment) (i : ℕ) where
  Filled-end : elf.hdr.e_phnum ≤ i → Filled elf old old i
  Filled-end h = record {
    same_length = refl;
    before = λ k p. refl;
    slots = λ k p q. absurd (omega arith);
  }

  -- The slots from `i + 1` on, and the one at `i`.
  Filled-cons :
      (new : List LoadSegment)
      → Filled elf old new (i + 1)
      → Slot elf old new i
      → Filled elf old new i
  Filled-cons new f s = record {
    same_length = f.same_length;
    before = λ k p. f.before k (omega arith);
    slots = λ k p q. elim (dec_lt i k) [
      | yes later ↦ f.slots k (omega arith) q
      | no same ↦ let here : i ≡ k = omega arith in subst (λ j. Slot elf old new j) here s
    ];
  }

  Filled-set :
      (new : List LoadSegment) (seg : LoadSegment)
      → i < length old
      → is_load (header elf i) ≡ true
      → segment_of elf (header elf i) ≡ done (ok seg)
      → Filled elf (set old i seg) new (i + 1)
      → Filled elf old new i
  Filled-set new seg inside load got f = record {
    same_length = f.same_length ∙ length-set old i seg;
    before = λ k p. f.before k (omega arith) ∙ get_elem?-set_ne old i k seg (omega arith);
    slots = λ k p q. elim (dec_lt i k) [
      | yes later ↦ other k later (f.slots k (omega arith) q)
      | no same ↦ let here : i ≡ k = omega arith in subst (λ j. Slot elf old new j) here first
    ];
  }
    where
      first : Slot elf old new i
      first = loaded seg load (f.before i (omega arith) ∙ get_elem?-set_self old i seg inside) got

      other : (k : ℕ) → i < k → Slot elf (set old i seg) new k → Slot elf old new k
      other k later (loaded s l at g) = loaded s l at g
      other k later (skipped l at) = skipped l (at ∙ get_elem?-set_ne old i k seg (omega arith))

module _ (policy : LoadPolicy) (elf : Elf64) (c : IsChecked elf.bytes elf.hdr)
    (word : length elf.bytes < 2 ^ 64) where
  pub fill-Filled :
      (fuel i : ℕ) (old new : List LoadSegment)
      → fill fuel policy elf (iter_at elf i) i old ≡ done (ok new)
      → Filled elf old new i
  unfolding Elf.program_headers
  fill-Filled zero i old new r =
      absurd (ground (arith, r, fill-out_of_fuel policy elf (iter_at elf i) i old))
  fill-Filled (suc fuel) i old new r = elim (dec_lt i elf.hdr.e_phnum) [
    | no end ↦
        let same : old ≡ new = ground (
          arith,
          r,
          fill-last fuel policy elf (iter_at elf i) i old (next-end (iter_at elf i) (omega arith)),
        ) in
        subst (λ b. Filled elf old b i) same (Filled-end elf old i (omega arith))
    | yes more ↦
        let e = next-entry elf c word i more in
        elim (Bool-cases (is_load (header elf i))) [
          | inr skip ↦
              let f = fill-Filled fuel (i + 1) old new (
                sym (
                  fill-skip fuel policy elf (iter_at elf i) (iter_at elf (i + 1)) i old
                    (header elf i) e skip)
                ∙ r) in
              Filled-cons elf old i new f (skipped skip (f.before i (omega arith)))
          | inl load ↦
              let (seg, room, got, r') =
                fill-load fuel policy elf (iter_at elf i) (iter_at elf (i + 1)) i old (header elf i)
                  e load r in
              Filled-set elf old i new seg room load got
                (fill-Filled fuel (i + 1) (set old i seg) new r')
        ]
  ]

  -- Where no header is loadable the loop leaves the buffer as it is.
  pub fill-none_loadable :
      (fuel i : ℕ) (buf : List LoadSegment)
      → i ≤ elf.hdr.e_phnum
      → elf.hdr.e_phnum < i + fuel
      → ((k : ℕ) → i ≤ k → k < elf.hdr.e_phnum → is_load (header elf k) ≡ false)
      → fill fuel policy elf (iter_at elf i) i buf ≡ done (ok buf)
  unfolding Elf.program_headers
  fill-none_loadable zero i buf le lt none_loadable = absurd (omega arith)
  fill-none_loadable (suc fuel) i buf le lt none_loadable = elim (dec_lt i elf.hdr.e_phnum) [
    | no end ↦
        fill-last fuel policy elf (iter_at elf i) i buf (next-end (iter_at elf i) (omega arith))
    | yes more ↦
        fill-skip fuel policy elf (iter_at elf i) (iter_at elf (i + 1)) i buf (header elf i)
          (next-entry elf c word i more) (none_loadable i (omega arith) more)
        ∙ fill-none_loadable fuel (i + 1) buf (omega arith) (omega arith)
            (λ k p q. none_loadable k (omega arith) q)
  ]

count_items-step :
    (fuel n : ℕ) (it it' : ProgramHeaderIter) (item : Result Elf.ElfError Elf64Phdr)
    → Elf.next it ≡ done (some (item, it'))
    → count_items (suc fuel) it n ≡ count_items fuel it' (n + 1)
unfolding count_items
count_items-step fuel n it it' item e = ground (arith, e)

count_items-last :
    (fuel n : ℕ) (it : ProgramHeaderIter)
    → Elf.next it ≡ done none
    → count_items (suc fuel) it n ≡ done n
unfolding count_items
count_items-last fuel n it e = ground (arith, e)

pub count_items-eq :
    (elf : Elf64)
    → IsChecked elf.bytes elf.hdr
    → length elf.bytes < 2 ^ 64
    → (fuel i n : ℕ) → i ≤ elf.hdr.e_phnum
    → elf.hdr.e_phnum < i + fuel
    → count_items fuel (iter_at elf i) n ≡ done (n + (elf.hdr.e_phnum - i))
unfolding Elf.program_headers
count_items-eq elf c word zero i n le lt = absurd (omega arith)
count_items-eq elf c word (suc fuel) i n le lt = elim (dec_lt i elf.hdr.e_phnum) [
  | no end ↦
      count_items-last fuel n (iter_at elf i) (next-end (iter_at elf i) (omega arith))
      ∙ ap done (omega arith)
  | yes more ↦
      count_items-step fuel n (iter_at elf i) (iter_at elf (i + 1)) (ok (header elf i))
        (next-entry elf c word i more)
      ∙ count_items-eq elf c word fuel (i + 1) (n + 1) (omega arith) (omega arith)
      ∙ ap done (omega arith)
]
