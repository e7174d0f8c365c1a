-- ===== src/Fdt/Value.antt =====
-- The values of properties: `PropValue` and its implementations in crates/fdt/src/lib.rs.
use rv.Base.{
  ℕ, zero, suc, ◌+◌, ◌*◌, Bool, false, ◌||◌, Option, none, some, List, [], ◌∷◌, length, take, drop,
  ltb, if◌then◌else◌,
}
use rv.Cpio.{bytes_eq}
use rv.Fdt.{position_nul}

-- `T::parse`
abbrev pub PropValue : Type 0 → Type 0
PropValue T = List ℕ → Option (List ℕ × T)

-- `?` on an option.
infixl 5 ◌>>=◌
abbrev ◌>>=◌ : {A B : Type 0} → Option A → (A → Option B) → Option B
none >>= f = none
some a >>= f = f a

abbrev be_bytes : List ℕ → ℕ → ℕ
be_bytes [] v = v
be_bytes (b ∷ bs) v = be_bytes bs (v * 256 + b)

unfoldable pub parse_u32 : PropValue ℕ
parse_u32 bytes =
    if ltb (length bytes) 4 then none else some (drop 4 bytes, be_bytes (take 4 bytes) 0)

-- `(hi as u64) << 32 | lo as u64`; the bits do not overlap.
unfoldable pub parse_u64 : PropValue ℕ
unfolding parse_u32
parse_u64 bytes = do
  hi ← parse_u32 bytes
  lo ← parse_u32 hi.0
  some (lo.0, hi.1 * 4294967296 + lo.1)

unfoldable pub parse_pair : {T U : Type 0} → PropValue T → PropValue U → PropValue (T × U)
parse_pair parse_t parse_u bytes = do t ← parse_t bytes; u ← parse_u t.0; some (u.0, (t.1, u.1))

-- `StringList` and `PropEncodedArray` hold the bytes that are left.
unfoldable pub parse_rest : PropValue (List ℕ)
parse_rest bytes = some ([], bytes)

-- The items of an iterator that parses one value after another: `StringList` and `PropEncodedArray`. Each item
-- takes a byte at least, so that the length of the data is enough fuel.
unfoldable pub items : {T : Type 0} → (fuel : ℕ) → PropValue T → List ℕ → List T
items zero parse bytes = []
items (suc fuel) parse bytes = elim (parse bytes) [
  | none ↦ []
  | some (rest, t) ↦ t ∷ items fuel parse rest
]

module _ (utf8 : List ℕ → Option (List ℕ)) where
  -- `&str`
  unfoldable pub parse_str : PropValue (List ℕ)
  parse_str bytes = do
    n ← position_nul bytes
    s ← utf8 (take n bytes)
    some (drop 1 (drop n bytes), s)

  -- `StringList`, collected.
  unfoldable pub string_list : List ℕ → List (List ℕ)
  unfolding parse_str items
  string_list bytes = items (length bytes) parse_str bytes

-- `c.any(|c| c == compatible)`
unfoldable pub any_eq : List ℕ → List (List ℕ) → Bool
any_eq s [] = false
any_eq s (t ∷ ts) = bytes_eq t s || any_eq s ts
