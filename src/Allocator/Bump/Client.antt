-- ===== src/Allocator/Bump/Client.antt =====
-- A client of the bump allocator: the blocks that it holds share no byte.
use native.Mathlib.Decide.{dec_lt}
use rv.Base.{ℕ, suc, ◌+◌, ◌-◌, ◌^◌, ◌≤◌, ◌<◌, ◌≡◌, ◌≢◌, ◌⊎◌, inl, inr, refl, arith, true}
use rv.Base.{List, [], ◌∷◌, done, length, Remove, here, there}
use rv.Base.Word.{is_power_of_two}
use rv.Allocator.{null}
use rv.Allocator.Bump.{Bump, Layout, alloc, dealloc}
use rv.Allocator.Bump.Blocks.{IsValid, IsTaken, alloc_block}

-- A block of a client: its address and size.
pub record Block : Type 0 where
  pub addr : ℕ
  pub size : ℕ

pub record Client : Type 0 where
  pub bump : Bump
  pub live : List Block

-- One call of a client that gives back only blocks that it holds.
pub data Step : Client → Client → Type 0 where
  allocates :
      (c : Client) (layout : Layout) (p : ℕ) (b : Bump)
      → is_power_of_two layout.align ≡ true
      → c.bump.allocated + 1 < 2 ^ 64
      → p ≢ null
      → alloc c.bump layout ≡ done (p, b)
      → Step c (record { bump = b; live = record { addr = p; size = layout.size } ∷ c.live })
  is_refused :
      (c : Client) (layout : Layout) (b : Bump)
      → is_power_of_two layout.align ≡ true
      → c.bump.allocated + 1 < 2 ^ 64
      → alloc c.bump layout ≡ done (null, b)
      → Step c (record { bump = b; live = c.live })
  frees :
      (c : Client) (d : Block) (rest : List Block) (b : Bump)
      → Remove d c.live rest
      → dealloc c.bump ≡ done b
      → Step c (record { bump = b; live = rest })

pub data Reach (c : Client) : Client → Type 0 where
  begin : Reach c c
  next : {d e : Client} → Reach c d → Step d e → Reach c e

-- Every member of the list ends below the start of `d` or begins above its end.
abbrev pub AllApart : Block → List Block → Type 0
AllApart d [] = Unit
AllApart d (e ∷ l) = ((d.addr + d.size ≤ e.addr) ⊎ (e.addr + e.size ≤ d.addr)) × AllApart d l

-- The members lie between `low` and `high` and are apart from one another.
abbrev pub AllHeld : ℕ → ℕ → List Block → Type 0
AllHeld low high [] = Unit
AllHeld low high (d ∷ l) =
    (low ≤ d.addr) × (d.addr + d.size ≤ high) × AllApart d l × AllHeld low high l

pub record IsTracked (c : Client) : Type 0 where
  pub valid : IsValid c.bump
  pub held : AllHeld c.bump.ptr c.bump.end c.live
  pub counted : length c.live ≡ c.bump.allocated

AllApart-below :
    (d : Block) (low high : ℕ) (l : List Block)
    → d.addr + d.size ≤ low
    → AllHeld low high l
    → AllApart d l
AllApart-below d low high [] h a = tt
AllApart-below d low high (e ∷ l) h a = (inl (omega arith), AllApart-below d low high l h a.3)

AllHeld-lower :
    (low low' high : ℕ) (l : List Block) → low' ≤ low → AllHeld low high l → AllHeld low' high l
AllHeld-lower low low' high [] h a = tt
AllHeld-lower low low' high (d ∷ l) h a =
    (omega arith, a.1, a.2, AllHeld-lower low low' high l h a.3)

AllApart-Remove :
    (d e : Block) {l rest : List Block} → Remove e l rest → AllApart d l → AllApart d rest
AllApart-Remove d e here a = a.1
AllApart-Remove d e (there r) a = (a.0, AllApart-Remove d e r a.1)

AllHeld-Remove :
    (low high : ℕ) (d : Block) {l rest : List Block}
    → Remove d l rest
    → AllHeld low high l
    → AllHeld low high rest × (length l ≡ suc (length rest))
AllHeld-Remove low high d here a = (a.3, refl)
AllHeld-Remove low high d (there {b = e} r) a =
    let (held, count) = AllHeld-Remove low high d r a.3 in
    ((a.0, a.1, AllApart-Remove e d r a.2, held), omega (arith, count))

-- With no block left there is nothing to hold.
AllHeld-nil : (low high : ℕ) (l : List Block) → length l ≡ 0 → AllHeld low high l
AllHeld-nil low high [] e = tt
AllHeld-nil low high (d ∷ l) e = absurd (omega arith)

module _ (c : Client) (t : IsTracked c) where
  taken-IsTracked :
      (layout : Layout)
      → (a : IsTaken c.bump layout (alloc c.bump layout))
      → IsTracked (record {
        bump = record (c.bump) { allocated = c.bump.allocated + 1; ptr = a.p };
        live = record { addr = a.p; size = layout.size } ∷ c.live;
      })
  taken-IsTracked layout a = record {
    valid = omega (
      arith, t.valid.not_null, t.valid.low, t.valid.high, t.valid.word, a.fits.above, a.fits.below,
    );
    held = (
      omega arith,
      omega (arith, a.fits.below, t.valid.high),
      AllApart-below _ c.bump.ptr c.bump.end c.live a.fits.below t.held,
      AllHeld-lower c.bump.ptr a.p c.bump.end c.live (omega (arith, a.fits.below)) t.held,
    );
    counted = omega (arith, t.counted);
  }

  dealloc-last :
      c.bump.allocated ≡ 1
      → dealloc c.bump ≡ done (record (c.bump) { allocated = 0; ptr = c.bump.end })
  unfolding dealloc
  dealloc-last e = ground arith

  dealloc-more :
      1 < c.bump.allocated
      → dealloc c.bump ≡ done (record (c.bump) { allocated = c.bump.allocated - 1 })
  unfolding dealloc
  dealloc-more h = ground arith

  -- A client that holds a block can give it back without a panic.
  dealloc-IsTracked :
      (d : Block) (rest : List Block)
      → Remove d c.live rest
      → (b : Bump) × (dealloc c.bump ≡ done b) × IsTracked (record { bump = b; live = rest })
  dealloc-IsTracked d rest r =
      let (held, count) = AllHeld-Remove c.bump.ptr c.bump.end d r t.held in
      elim (dec_lt 1 c.bump.allocated) [
        | yes more ↦ (
          record (c.bump) { allocated = c.bump.allocated - 1 },
          dealloc-more more,
          record {
            valid = omega (arith, t.valid.not_null, t.valid.low, t.valid.high, t.valid.word);
            held = held;
            counted = omega (arith, count, t.counted);
          },
        )
        | no one ↦ (
          record (c.bump) { allocated = 0; ptr = c.bump.end },
          dealloc-last (omega (arith, count, t.counted)),
          record {
            valid = omega (arith, t.valid.not_null, t.valid.low, t.valid.high, t.valid.word);
            held = AllHeld-nil c.bump.end c.bump.end rest (omega (arith, count, t.counted));
            counted = omega (arith, count, t.counted);
          },
        )
      ]

Step-IsTracked : {c d : Client} → Step c d → IsTracked c → IsTracked d
Step-IsTracked (allocates c layout p b pow fits ne e) t =
    elim (alloc_block c.bump layout t.valid pow fits) [
      | inl a ↦
          let same_state : b ≡ record (c.bump) { allocated = c.bump.allocated + 1; ptr = a.p } =
            cc (e, a.returns) in
          let same_place : p ≡ a.p = cc (e, a.returns) in
          rw (same_state, same_place) (taken-IsTracked c t layout a)
      | inr refused ↦ let null_place : p ≡ null = cc (e, refused.0) in absurd (ne null_place)
    ]
Step-IsTracked (is_refused c layout b pow fits e) t =
    elim (alloc_block c.bump layout t.valid pow fits) [
      | inl a ↦
          let null_place : null ≡ a.p = cc (e, a.returns) in
          absurd (omega (arith, null_place, a.fits.above, t.valid.not_null))
      | inr refused ↦ let same : b ≡ c.bump = cc (e, refused.0) in rw same t
    ]
Step-IsTracked (frees c d rest b r e) t =
    let (b', freed, tracked) = dealloc-IsTracked c t d rest r in
    let same : b ≡ b' = cc (e, freed) in rw same tracked

-- After every run of calls: the blocks that the client holds lie between `ptr` and the end of the
-- window, share no byte, and `allocated` counts them.
pub client-IsTracked : {c d : Client} → IsTracked c → Reach c d → IsTracked d
client-IsTracked t begin = t
client-IsTracked t (next r s) = Step-IsTracked s (client-IsTracked t r)
