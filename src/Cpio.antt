-- ===== src/Cpio.antt =====
-- The reader of "newc" archives in crates/cpio/src/lib.rs. A byte is a number, and a string its bytes.
pub mod Steps
pub mod Progress
mod Tests
use rv.Base.{
  ℕ, zero, suc, ◌+◌, ◌-◌, ◌*◌, ◌/◌, Bool, true, false, not, ◌&&◌, ◌||◌, bit_and, Option, none, some,
}
use rv.Base.{
  List, [], ◌∷◌, length, slice, get_elem?, Run, done, panic, Result, ok, err, ◌==◌, ltb,
  if◌then◌else◌,
}
use rv.Base.Stateful.{M, ◌>>=◌, ◌>>◌, pure, throw, lift, ensure}
use rv.Base.Word
use rv.Base.Word.{checked_add, complement}

pub data CpioError : Type 0 where
  unexpected_eof bad_magic bad_hex bad_utf8 bad_alignment : CpioError

pub record CpioEntry : Type 0 where
  pub name : List ℕ
  pub mode : ℕ
  pub data_bytes : List ℕ

-- `NewcIter`; the archive is a parameter of the functions on it.
pub record NewcIter : Type 0 where
  pub off : ℕ
  pub is_done : Bool

abbrev pub bytes_eq : List ℕ → List ℕ → Bool
bytes_eq [] [] = true
bytes_eq [] (y ∷ ys) = false
bytes_eq (x ∷ xs) [] = false
bytes_eq (x ∷ xs) (y ∷ ys) = x == y && bytes_eq xs ys

-- Code that may move `off`, may fail and may panic.
abbrev pub P : Type 0 → Type 0
P A = M ℕ CpioError A

abbrev pub ok_or : {A : Type 0} → CpioError → Option A → P A
ok_or e none = throw e
ok_or e (some a) = pure a

-- `xs[start..end]`, which panics out of range.
unfoldable pub slice_of : List ℕ → (start end : ℕ) → Run (List ℕ)
slice_of xs start end =
    if ltb end start || ltb (length xs) end then panic else done (slice xs start end)

-- `"070701"` and `"TRAILER!!!"`
abbrev pub magic : List ℕ
magic = 48 ∷ 55 ∷ 48 ∷ 55 ∷ 48 ∷ 49 ∷ []

abbrev pub trailer : List ℕ
trailer = 84 ∷ 82 ∷ 65 ∷ 73 ∷ 76 ∷ 69 ∷ 82 ∷ 33 ∷ 33 ∷ 33 ∷ []

abbrev pub hdr_len : ℕ
hdr_len = 110

unfoldable pub align_up_4 : ℕ → Result CpioError ℕ
align_up_4 x = elim (checked_add x 3) [
  | none ↦ err bad_alignment
  | some y ↦ ok (bit_and y (complement 3))
]

unfoldable pub read_exact : List ℕ → ℕ → P (List ℕ)
unfolding slice_of
read_exact buf n start = elim (checked_add start n) [
  | none ↦ done (err unexpected_eof, start)
  | some end ↦
      if ltb (length buf) end
      then done (err unexpected_eof, start)
      else lift (slice_of buf start end) end
]

-- The steps after the name and after the data.
unfoldable pub align_off : List ℕ → P (Unit {0})
unfolding align_up_4
align_off buf off = elim (align_up_4 off) [
  | err e ↦ done (err e, off)
  | ok aligned ↦
      if ltb (length buf) aligned then done (err unexpected_eof, off) else done (ok tt, aligned)
]

-- `name_bytes.is_empty() || *name_bytes.last().unwrap() != 0`
unfoldable pub lacks_nul : List ℕ → Run Bool
lacks_nul bytes = elim (length bytes == 0) [
  | true ↦ done true
  | false ↦ elim (get_elem? bytes (length bytes - 1)) [
    | none ↦ panic
    | some b ↦ done (not (b == 0))
  ]
]

-- `from_utf8` tells whether bytes are UTF-8, and `from_str_radix` is that of `u32`.
module _ (from_utf8 : List ℕ → Bool) (from_str_radix : List ℕ → ℕ → Option ℕ) where
  unfoldable pub parse_hex_u32 : List ℕ → P ℕ
  parse_hex_u32 field =
      if from_utf8 field then ok_or bad_hex (from_str_radix field 16) else throw bad_hex

  -- `next` between its tests of `done` and of the end marker.
  unfoldable pub after_header : List ℕ → List ℕ → P CpioEntry
  unfolding slice_of lacks_nul
  after_header buf hdr = do
    start ← lift (slice_of hdr 0 6)
    ensure (bytes_eq start magic) bad_magic
    mode_field ← lift (slice_of hdr 14 22)
    mode ← parse_hex_u32 mode_field
    filesize_field ← lift (slice_of hdr 54 62)
    filesize ← parse_hex_u32 filesize_field
    namesize_field ← lift (slice_of hdr 94 102)
    namesize ← parse_hex_u32 namesize_field
    name_bytes ← read_exact buf namesize
    malformed ← lift (lacks_nul name_bytes)
    ensure (not malformed) bad_utf8
    name_len ← lift (Word.sub (length name_bytes) 1)
    name ← lift (slice_of name_bytes 0 name_len)
    ensure (from_utf8 name) bad_utf8
    align_off buf
    bytes ← read_exact buf filesize
    align_off buf
    pure (record { name = name; mode = mode; data_bytes = bytes })

  unfoldable pub read_entry : List ℕ → P CpioEntry
  unfolding after_header
  read_entry buf = read_exact buf hdr_len >>= after_header buf

  unfoldable pub next : List ℕ → NewcIter → Run (Option (Result CpioError CpioEntry) × NewcIter)
  unfolding read_entry
  next buf it = elim (it.is_done) [
    | true ↦ done (none, it)
    | false ↦ elim (read_entry buf it.off) [
      | panic ↦ panic
      | done (err e, off) ↦ done (some (err e), record { off = off; is_done = false })
      | done (ok entry, off) ↦ elim (bytes_eq (entry.name) trailer) [
        | true ↦ done (none, record { off = off; is_done = true })
        | false ↦ done (some (ok entry), record { off = off; is_done = false })
      ]
    ]
  ]

  -- The loop of `find_file`, on fuel.
  unfoldable pub find_from :
      ℕ → List ℕ → List ℕ → NewcIter → Run (Result CpioError (Option (List ℕ)))
  unfolding next
  find_from zero buf path it = panic
  find_from (suc fuel) buf path it = elim (next buf it) [
    | panic ↦ panic
    | done (none, it') ↦ done (ok none)
    | done (some (err e), it') ↦ done (err e)
    | done (some (ok entry), it') ↦ elim (bytes_eq (entry.name) path) [
      | true ↦ done (ok (some (entry.data_bytes)))
      | false ↦ find_from fuel buf path it'
    ]
  ]

  -- Every entry takes more than one byte.
  unfoldable pub find_file : List ℕ → List ℕ → Run (Result CpioError (Option (List ℕ)))
  unfolding find_from
  find_file archive path =
      find_from (length archive + 1) archive path (record { off = 0; is_done = false })

unfoldable pub is_dir : ℕ → Bool
is_dir mode = bit_and mode 0xf000 == 0x4000

unfoldable pub is_reg : ℕ → Bool
is_reg mode = bit_and mode 0xf000 == 0x8000
