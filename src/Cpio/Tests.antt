-- ===== src/Cpio/Tests.antt =====
-- An archive that holds only the end marker.
use rv.Base.{ℕ, ◌+◌, ◌-◌, ◌*◌, ◌≡◌, refl, true, Option, none, some, List, [], ◌∷◌, done, Result, ok}
use rv.Base.{replicate, ltb, if◌then◌else◌}
use mathlib.Core.List.{◌++◌}
use rv.Base.Stateful
use rv.Cpio
use rv.Cpio.{CpioError, unexpected_eof, find_file, magic, trailer}
use rv.Cpio.Progress.{find_file-returns}

-- The number that upper-case digits stand for.
abbrev number : (radix : ℕ) → ℕ → List ℕ → Option ℕ
number radix n [] = some n
number radix n (c ∷ cs) =
    if ltb c 58
    then number radix (n * radix + (c - 48)) cs
    else number radix (n * radix + (c - 55)) cs

abbrev digits : List ℕ → ℕ → Option ℕ
digits field radix = number radix 0 field

-- `namesize` is 11.
abbrev archive : List ℕ
archive = magic ++ (replicate 95 48 ++ (66 ∷ (replicate 8 48 ++ (trailer ++ (0 ∷ 0 ∷ 0 ∷ 0 ∷ [])))))

find_file-returns_example :
    (r : Result CpioError (Option (List ℕ))) × (find_file (λ _. true) digits archive (105 ∷ [])
      ≡ done r)
find_file-returns_example = find_file-returns (λ _. true) digits archive (105 ∷ [])

finds_nothing : find_file (λ _. true) digits archive (105 ∷ []) ≡ done (ok none)
unfolding find_file Cpio.find_from Cpio.next Cpio.read_entry Cpio.after_header Cpio.parse_hex_u32
    Cpio.read_exact Cpio.align_off Cpio.align_up_4 Cpio.lacks_nul Cpio.slice_of Stateful.◌>>=◌
    Stateful.lift Stateful.ensure
finds_nothing = refl
