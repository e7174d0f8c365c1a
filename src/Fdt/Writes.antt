-- ===== src/Fdt/Writes.antt =====
-- Writers of bytes in front of what follows, measured; and what the combinators make of their output.
use mathlib.Core.List.{append_assoc}
use rv.Base.{
  ℕ, zero, suc, ◌+◌, ◌-◌, ◌*◌, ◌/◌, ◌%◌, ◌^◌, ◌<◌, ◌≡◌, ap, ◌∙◌, sym, refl, arith, Bool, true,
  false, List, [], ◌∷◌, ◌++◌, length, replicate, Run, done, Result, ok, err,
}
use rv.Base.{length-append, length-replicate}
use rv.Base.Fallible.{R}
use rv.Fdt.Combinators.{Nom, IsNom, P, next, lift, starts_with}

-- In front of `rest`: `n` no-operation tokens, a number, and padding after `n` bytes.
unfoldable pub put_nops : ℕ → List ℕ → List ℕ
put_nops zero rest = rest
put_nops (suc n) rest = 0 ∷ 0 ∷ 0 ∷ 4 ∷ put_nops n rest

abbrev pub put_u32 : ℕ → List ℕ → List ℕ
put_u32 n rest = (n / 2 ^ 24) ∷ (n / 2 ^ 16 % 256) ∷ (n / 2 ^ 8 % 256) ∷ (n % 256) ∷ rest

abbrev pub up_4 : ℕ → ℕ
up_4 n = (n + 3) / 4 * 4

abbrev pub put_padding : ℕ → List ℕ → List ℕ
put_padding n rest = replicate (up_4 n - n) 0 ++ rest

-- Every byte passes the test.
abbrev pub All : (ℕ → Bool) → List ℕ → Type 0
All p [] = Unit {0}
All p (c ∷ cs) = p c ≡ true × All p cs

-- What `f` puts in front are the same `n` bytes, whatever follows.
pub record Writes (f : List ℕ → List ℕ) (n : ℕ) : Type 0 where
  pub bytes : List ℕ
  pub size : length bytes ≡ n
  pub front : (rest : List ℕ) → f rest ≡ bytes ++ rest

pub length-Writes :
    {f : List ℕ → List ℕ} {n : ℕ} → Writes f n → (rest : List ℕ) → length (f rest) ≡ n + length rest
length-Writes w rest =
    ap length (w.front rest) ∙ length-append w.bytes rest ∙ ap (λ k. k + length rest) w.size

pub Writes-id : Writes (λ rest. rest) 0
Writes-id = record { bytes = []; size = refl; front = λ rest. refl }

pub Writes-append : (xs : List ℕ) → Writes (λ rest. xs ++ rest) (length xs)
Writes-append xs = record { bytes = xs; size = refl; front = λ rest. refl }

pub Writes-then :
    {f g : List ℕ → List ℕ} {m n : ℕ}
    → Writes f m
    → Writes g n
    → Writes (λ rest. f (g rest)) (m + n)
Writes-then {g = g} v w = record {
  bytes = v.bytes ++ w.bytes;
  size = length-append v.bytes w.bytes ∙ ap (λ k. k + length w.bytes) v.size ∙ ap (◌+◌ _) w.size;
  front = λ rest.
      v.front (g rest)
      ∙ ap (λ r. v.bytes ++ r) (w.front rest)
      ∙ sym (append_assoc v.bytes w.bytes rest);
}

pub Writes-eq : {f : List ℕ → List ℕ} {m n : ℕ} → m ≡ n → Writes f m → Writes f n
Writes-eq e w = record { bytes = w.bytes; size = w.size ∙ e; front = w.front }

-- A step of a parser whose combinator succeeds, whose combinator fails, and whose code does not panic.
pub step :
    {E A B : Type 0} {y : Result E (List ℕ × A)} {rest : List ℕ} {a : A} (f : A → P E B)
    {r : R E (List ℕ × B)}
    → y ≡ ok (rest, a)
    → f a rest ≡ r
    → next (done y) f ≡ r
step f e h = ap (λ y. next (done y) f) e ∙ h

pub step_fail :
    {E A B : Type 0} {y : Result E (List ℕ × A)} {e : E} (f : A → P E B)
    → y ≡ err e
    → next (done y) f ≡ done (err e)
step_fail f h = ap (λ y. next (done y) f) h

pub step_lift :
    {E A B : Type 0} {x : Run A} {a : A} (input : List ℕ) (f : A → P E B) {r : R E (List ℕ × B)}
    → x ≡ done a
    → f a input ≡ r
    → next (lift x input) f ≡ r
step_lift input f e h = ap (λ x. next (lift x input) f) e ∙ h

pub Writes-put_nops : (n : ℕ) → Writes (put_nops n) (4 * n)
unfolding put_nops
Writes-put_nops zero = Writes-eq (omega arith) Writes-id
Writes-put_nops (suc n) =
    Writes-eq {f = put_nops (suc n)} (omega arith)
      (Writes-then (Writes-append (0 ∷ 0 ∷ 0 ∷ 4 ∷ [])) (Writes-put_nops n))

pub Writes-put_u32 : (n : ℕ) → Writes (put_u32 n) 4
Writes-put_u32 n =
    Writes-append ((n / 2 ^ 24) ∷ (n / 2 ^ 16 % 256) ∷ (n / 2 ^ 8 % 256) ∷ (n % 256) ∷ [])

pub Writes-put_padding : (n : ℕ) → Writes (put_padding n) (up_4 n - n)
Writes-put_padding n =
    Writes-eq (length-replicate (up_4 n - n) (◌+◌ 0 0)) (Writes-append (replicate (up_4 n - n) 0))

module _ {E : Type 0} {nom : Nom E} (laws : IsNom nom) where
  pub take_Writes :
      {f : List ℕ → List ℕ} {n : ℕ} (w : Writes f n) (k : ℕ) (rest : List ℕ)
      → k ≡ n
      → nom.take k (f rest) ≡ ok (rest, w.bytes)
  take_Writes {f} w k rest e =
      ap (λ i. nom.take i (f rest)) (e ∙ sym w.size)
      ∙ ap (nom.take (length w.bytes)) (w.front rest)
      ∙ laws.take_here w.bytes rest

  pub be_u32-put_u32 :
      (n : ℕ) (rest : List ℕ) → n < 2 ^ 32 → nom.be_u32 (put_u32 n rest) ≡ ok (rest, n)
  be_u32-put_u32 n rest h =
      laws.be_u32_here (n / 2 ^ 24) (n / 2 ^ 16 % 256) (n / 2 ^ 8 % 256) (n % 256) rest
      ∙ ap (λ v. ok (rest, v)) (omega arith)

  -- No-operation tokens are counted up to the first other token.
  pub many0_count-put_nops :
      (n : ℕ) (rest : List ℕ)
      → starts_with (0 ∷ 0 ∷ 0 ∷ 4 ∷ []) rest ≡ false
      → nom.many0_count (nom.tag (0 ∷ 0 ∷ 0 ∷ 4 ∷ [])) (put_nops n rest) ≡ ok (rest, n)
  unfolding put_nops
  many0_count-put_nops zero rest h = laws.many0_stop _ rest _ (laws.tag_other _ rest h).1
  many0_count-put_nops (suc n) rest h =
      laws.many0_more _ (put_nops (suc n) rest) (put_nops n rest) _ rest n
        (laws.tag_here (0 ∷ 0 ∷ 0 ∷ 4 ∷ []) (put_nops n rest)) (omega arith)
        (many0_count-put_nops n rest h)

  -- A name ends before the first zero.
  pub take_while-name :
      (p : ℕ → Bool) (name rest : List ℕ)
      → All p name
      → p 0 ≡ false
      → nom.take_while p (name ++ (0 ∷ rest)) ≡ ok (0 ∷ rest, name)
  take_while-name p [] rest a h = laws.take_while_stop p 0 rest h
  take_while-name p (c ∷ name) rest a h =
      laws.take_while_more p c (name ++ (0 ∷ rest)) (0 ∷ rest) name a.0
        (take_while-name p name rest a.1 h)
