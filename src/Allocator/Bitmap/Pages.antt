-- ===== src/Allocator/Bitmap/Pages.antt =====
-- The loops of `alloc` and `free` that write the descriptors, page by page.
use native.Mathlib.Decide.{dec_lt}
use rv.Base.{ℕ, zero, suc, ◌+◌, ◌-◌, ◌≤◌, ◌<◌, ◌≡◌, refl, ap, ◌∙◌, arith, true, false}
use rv.Base.{some, List, Run, done, panic, length, get_elem?, set}
use rv.Base.{length-set, get_elem?-set_self, get_elem?-set_ne}
use rv.Allocator.Bitmap.{PageFlags, empty, mark_page, mark, clear}
use rv.Allocator.Bitmap.Scan.{FreeAt, RangeFree}

abbrev pub last_page : PageFlags
last_page = record { taken = false; last = true }

abbrev pub taken_page : PageFlags
taken_page = record { taken = true; last = false }

-- The pages from `i` on, `count` of them, are one allocation: `TAKEN` but for the final `LAST`.
pub record IsChunk (ds : List PageFlags) (i count : ℕ) : Type 0 where
  pub some_page : 0 < count
  pub inner : (j : ℕ) → i ≤ j → j + 1 < i + count → get_elem? ds j ≡ some taken_page
  pub final : get_elem? ds (i + count - 1) ≡ some last_page

-- `ds'` differs from `ds` inside the range only.
pub record SameOutside (ds ds' : List PageFlags) (i count : ℕ) : Type 0 where
  pub same_length : length ds' ≡ length ds
  pub below : (j : ℕ) → j < i → get_elem? ds' j ≡ get_elem? ds j
  pub above : (j : ℕ) → i + count ≤ j → get_elem? ds' j ≡ get_elem? ds j

SameOutside-set :
    (ds ds' : List PageFlags) (i count : ℕ) (v : PageFlags)
    → SameOutside (set ds i v) ds' (i + 1) count
    → SameOutside ds ds' i (suc count)
SameOutside-set ds ds' i count v s = record {
  same_length = s.same_length ∙ length-set ds i v;
  below = λ j h. s.below j (omega arith) ∙ get_elem?-set_ne ds i j v (λ e. omega arith);
  above = λ j h. s.above j (omega arith) ∙ get_elem?-set_ne ds i j v (λ e. omega arith);
}

-- What `mark` has done to a range of free pages.
record Marked (final : ℕ) (ds : List PageFlags) (j left : ℕ) (r : Run (List PageFlags))
    : Type 0 where
  out : List PageFlags
  returns : r ≡ done out
  same : SameOutside ds out j left
  pages : (m : ℕ) → j ≤ m → m < j + left → get_elem? out m ≡ some (mark_page final m empty)

mark-suc :
    (final : ℕ) (ds : List PageFlags) (j left : ℕ)
    → FreeAt ds j
    → mark final ds j (suc left) ≡ mark final (set ds j (mark_page final j empty)) (j + 1) left
unfolding mark
mark-suc final ds j left f = rw f

mark-Marked :
    (final : ℕ) (ds : List PageFlags) (j left : ℕ)
    → j + left ≤ length ds
    → RangeFree ds j left
    → Marked final ds j left (mark final ds j left)
mark-Marked final ds j zero h f = record {
  out = ds;
  returns = unfold mark in refl;
  same = record { same_length = refl; below = λ m p. refl; above = λ m p. refl };
  pages = λ m p q. absurd (omega arith);
}
mark-Marked final ds j (suc left) h f =
    let v : PageFlags = mark_page final j empty in
    let rest : Marked final (set ds j v) (j + 1) left (mark final (set ds j v) (j + 1) left) =
      mark-Marked final (set ds j v) (j + 1) left (omega (arith, length-set ds j v))
        (λ m p q. get_elem?-set_ne ds j m v (λ e. omega arith) ∙ f m (omega arith) (omega arith)) in
    record {
      out = rest.out;
      returns = mark-suc final ds j left (f j (omega arith) (omega arith)) ∙ rest.returns;
      same = SameOutside-set ds rest.out j left v rest.same;
      pages = λ m p q. elim (dec_lt j m) [
        | yes lt ↦ rest.pages m (omega arith) (omega arith)
        | no ge ↦
            let e : m ≡ j = omega arith in
            rw e (rest.same.below j (omega arith) ∙ get_elem?-set_self ds j v (omega arith))
      ];
    }

-- Marking a range of free pages makes it one allocation, and returns.
pub mark-IsChunk :
    (ds : List PageFlags) (i count : ℕ)
    → 0 < count
    → i + count ≤ length ds
    → RangeFree ds i count
    → (out : List PageFlags) × (mark (i + count - 1) ds i count ≡ done out)
      × SameOutside ds out i count
      × IsChunk out i count
mark-IsChunk ds i count pos h f =
    let m = mark-Marked (i + count - 1) ds i count h f in
    (
      m.out,
      m.returns,
      m.same,
      record {
        some_page = pos;
        inner = λ j p q. m.pages j p (omega arith) ∙ ground arith;
        final = m.pages (i + count - 1) (omega arith) (omega arith) ∙ ground arith;
      },
    )

module _ (ds : List PageFlags) (i left : ℕ) where
  clear-taken :
      get_elem? ds i ≡ some taken_page → clear ds i (suc left) ≡ clear (set ds i empty) (i + 1) left
  unfolding clear
  clear-taken e = rw e

  clear-last : get_elem? ds i ≡ some last_page → clear ds i (suc left) ≡ done (set ds i empty)
  unfolding clear
  clear-last e = rw e

  -- The sanity check of `free`.
  pub clear-FreeAt : FreeAt ds i → clear ds i (suc left) ≡ panic
  unfolding clear
  clear-FreeAt e = rw e

-- What `clear` has done to an allocation.
pub record Cleared (ds : List PageFlags) (i count : ℕ) (r : Run (List PageFlags)) : Type 0 where
  pub out : List PageFlags
  pub returns : r ≡ done out
  pub same : SameOutside ds out i count
  pub pages : RangeFree out i count

Cleared-set :
    (ds : List PageFlags) (i count : ℕ) (r r' : Run (List PageFlags))
    → i < length ds
    → r ≡ r'
    → Cleared (set ds i empty) (i + 1) count r'
    → Cleared ds i (suc count) r
Cleared-set ds i count r r' h e c = record {
  out = c.out;
  returns = e ∙ c.returns;
  same = SameOutside-set ds c.out i count empty c.same;
  pages = λ m p q. elim (dec_lt i m) [
    | yes lt ↦ c.pages m (omega arith) (omega arith)
    | no ge ↦
        let e : m ≡ i = omega arith in
        rw e (c.same.below i (omega arith) ∙ get_elem?-set_self ds i empty h)
  ];
}

Cleared-nil : (ds : List PageFlags) (i : ℕ) → Cleared ds i 0 (done ds)
Cleared-nil ds i = record {
  out = ds;
  returns = refl;
  same = record { same_length = refl; below = λ m p. refl; above = λ m p. refl };
  pages = λ m p q. absurd (omega arith);
}

-- Without its first page an allocation of several pages is one still.
IsChunk-set :
    (ds : List PageFlags) (i count : ℕ)
    → IsChunk ds i (suc (suc count))
    → IsChunk (set ds i empty) (i + 1) (suc count)
IsChunk-set ds i count c = record {
  some_page = omega arith;
  inner = λ j p q.
      get_elem?-set_ne ds i j empty (λ e. omega arith) ∙ c.inner j (omega arith) (omega arith);
  final =
      get_elem?-set_ne ds i (i + 1 + suc count - 1) empty (λ e. omega arith)
      ∙ ap (get_elem? ds) (omega arith)
      ∙ c.final;
}

-- Clearing from the first page of an allocation frees its pages, and no other.
pub clear-Cleared :
    (count : ℕ) (ds : List PageFlags) (i left : ℕ)
    → IsChunk ds i (suc count)
    → i + suc count ≤ length ds
    → suc count ≤ left
    → Cleared ds i (suc count) (clear ds i left)
clear-Cleared count ds i zero c h l = absurd (omega arith)
clear-Cleared zero ds i (suc left) c h l =
    Cleared-set ds i 0 (clear ds i (suc left)) (done (set ds i empty)) (omega arith)
      (clear-last ds i left (ap (get_elem? ds) {x = i} {y = i + 1 - 1} (omega arith) ∙ c.final))
      (Cleared-nil (set ds i empty) (i + 1))
clear-Cleared (suc count) ds i (suc left) c h l =
    Cleared-set ds i (suc count) (clear ds i (suc left)) (clear (set ds i empty) (i + 1) left)
      (omega arith) (clear-taken ds i left (c.inner i (omega arith) (omega arith)))
      (clear-Cleared count (set ds i empty) (i + 1) left (IsChunk-set ds i count c)
        (omega (arith, length-set ds i empty)) (omega arith))
