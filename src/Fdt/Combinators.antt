-- ===== src/Fdt/Combinators.antt =====
-- The parser combinators of the library nom that crates/fdt/src/lib.rs uses, as a parameter, and
-- what their documentation says of them. `E` is the library's error.
use rv.Base.{
  ℕ, suc, ◌+◌, ◌*◌, ◌<◌, ◌≡◌, Bool, true, false, ◌&&◌, Option, some, List, [], ◌∷◌, ◌++◌, length,
  Run, done, panic, Result, ok, err, ◌==◌,
}
use rv.Base.Fallible.{R}

abbrev pub IResult : Type 0 → Type 0 → Type 0
IResult E A = Result E (List ℕ × A)

-- `tag`, `take` and `take_while` are the complete versions: the end of the input is an error, never a wish for more.
pub record Nom (E : Type 0) : Type 0 where
  pub tag : List ℕ → List ℕ → IResult E (List ℕ)
  pub take : ℕ → List ℕ → IResult E (List ℕ)
  pub take_while : (ℕ → Bool) → List ℕ → IResult E (List ℕ)
  pub be_u32 : List ℕ → IResult E ℕ
  pub be_u64 : List ℕ → IResult E ℕ
  pub many0_count : (List ℕ → IResult E (List ℕ)) → List ℕ → IResult E ℕ
  pub map_res :
      (List ℕ → IResult E (List ℕ)) → (List ℕ → Option (List ℕ)) → List ℕ → IResult E (List ℕ)

abbrev pub starts_with : List ℕ → List ℕ → Bool
starts_with [] input = true
starts_with (t ∷ ts) [] = false
starts_with (t ∷ ts) (x ∷ input) = t == x && starts_with ts input

-- The value of four bytes, and of a first part and four more.
abbrev pub be_value : (a b c d : ℕ) → ℕ
be_value a b c d = ((a * 256 + b) * 256 + c) * 256 + d

pub record IsNom {E : Type 0} (nom : Nom E) : Type 0 where
  pub tag_here : (t rest : List ℕ) → nom.tag t (t ++ rest) ≡ ok (rest, t)
  pub tag_other :
      (t input : List ℕ) → starts_with t input ≡ false → (e : E) × (nom.tag t input ≡ err e)
  pub take_here : (xs rest : List ℕ) → nom.take (length xs) (xs ++ rest) ≡ ok (rest, xs)
  pub take_short :
      (n : ℕ) (input : List ℕ) → length input < n → (e : E) × (nom.take n input ≡ err e)
  pub take_while_end : (p : ℕ → Bool) → nom.take_while p [] ≡ ok ([], [])
  pub take_while_stop :
      (p : ℕ → Bool) (x : ℕ) (input : List ℕ)
      → p x ≡ false
      → nom.take_while p (x ∷ input) ≡ ok (x ∷ input, [])
  pub take_while_more :
      (p : ℕ → Bool) (x : ℕ) (input rest xs : List ℕ)
      → p x ≡ true
      → nom.take_while p input ≡ ok (rest, xs)
      → nom.take_while p (x ∷ input) ≡ ok (rest, x ∷ xs)
  pub be_u32_here :
      (a b c d : ℕ) (rest : List ℕ)
      → nom.be_u32 (a ∷ b ∷ c ∷ d ∷ rest) ≡ ok (rest, be_value a b c d)
  pub be_u32_short : (input : List ℕ) → length input < 4 → (e : E) × (nom.be_u32 input ≡ err e)
  pub be_u64_here :
      (a b c d a' b' c' d' : ℕ) (rest : List ℕ)
      → nom.be_u64 (a ∷ b ∷ c ∷ d ∷ a' ∷ b' ∷ c' ∷ d' ∷ rest)
        ≡ ok (rest, be_value a b c d * 4294967296 + be_value a' b' c' d')
  pub many0_stop :
      (p : List ℕ → IResult E (List ℕ)) (input : List ℕ) (e : E)
      → p input ≡ err e
      → nom.many0_count p input ≡ ok (input, 0)
  pub many0_more :
      (p : List ℕ → IResult E (List ℕ)) (input rest xs rest' : List ℕ) (n : ℕ)
      → p input ≡ ok (rest, xs)
      → length rest < length input
      → nom.many0_count p rest ≡ ok (rest', n)
      → nom.many0_count p input ≡ ok (rest', suc n)
  pub map_res_ok :
      (p : List ℕ → IResult E (List ℕ)) (f : List ℕ → Option (List ℕ)) (input rest xs ys : List ℕ)
      → p input ≡ ok (rest, xs)
      → f xs ≡ some ys
      → nom.map_res p f input ≡ ok (rest, ys)

-- A parser that may panic: what is left of the input, and a value.
abbrev pub P : Type 0 → Type 0 → Type 0
P E A = List ℕ → R E (List ℕ × A)

abbrev pub next : {E A B : Type 0} → R E (List ℕ × A) → (A → P E B) → R E (List ℕ × B)
next (done (ok (rest, a))) f = f a rest
next (done (err e)) f = done (err e)
next panic f = panic

infixl 5 ◌>>=◌ ◌>>◌
abbrev pub ◌>>=◌ : {E A B : Type 0} → P E A → (A → P E B) → P E B
◌>>=◌ m f input = next (m input) f

abbrev pub ◌>>◌ : {E A B : Type 0} → P E A → P E B → P E B
m >> k = m >>= λ _. k

abbrev pub pure : {E A : Type 0} → A → P E A
pure a input = done (ok (input, a))

-- A combinator, which does not panic; what is left of the input; and code that may only panic.
abbrev pub run : {E A : Type 0} → (List ℕ → IResult E A) → P E A
run p input = done (p input)

abbrev pub rest_of : {E : Type 0} → P E (List ℕ)
rest_of input = done (ok (input, input))

abbrev pub lift : {E A : Type 0} → Run A → P E A
lift (done a) input = done (ok (input, a))
lift panic input = panic
