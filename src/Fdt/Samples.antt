-- ===== src/Fdt/Samples.antt =====
-- Combinators that compute, with which the reader is run, and a small device tree.
use rv.Base.{
  ℕ, zero, suc, ◌+◌, ◌*◌, ◌<◌, ◌≡◌, ◌⊎◌, inl, inr, ap, ◌∙◌, refl, arith, Bool, true, Option, none,
  some, List, [], ◌∷◌, ◌++◌, length, length-append, take-append, drop-append, take, drop,
  Bool-cases, ltb→lt, ok, err, ltb, lt→ltb, le→ltb-false, if◌then◌else◌,
}
use rv.Fdt.{Fdt, Header}
use rv.Fdt.Blob.{put_header}
use rv.Fdt.Nodes.Tree.{
  PropSpec, Tree, tree, leafless, plant, put_tree, put_head, put_props, put_end,
}
use rv.Fdt.Writes.{put_nops}
use rv.Fdt.Combinators.{Nom, IsNom, IResult, starts_with, be_value}

abbrev Parser : Type 0 → Type 0
Parser A = List ℕ → IResult (Unit {0}) A

abbrev tag : List ℕ → Parser (List ℕ)
tag t input = if starts_with t input then ok (drop (length t) input, t) else err tt

abbrev take_n : ℕ → Parser (List ℕ)
take_n n input = if ltb (length input) n then err tt else ok (drop n input, take n input)

abbrev cons_ok : ℕ → IResult (Unit {0}) (List ℕ) → IResult (Unit {0}) (List ℕ)
cons_ok x (ok (rest, xs)) = ok (rest, x ∷ xs)
cons_ok x (err e) = err e

abbrev take_while : (ℕ → Bool) → Parser (List ℕ)
take_while p [] = ok ([], [])
take_while p (x ∷ input) = if p x then cons_ok x (take_while p input) else ok (x ∷ input, [])

abbrev be_u32 : Parser ℕ
be_u32 (a ∷ b ∷ c ∷ d ∷ rest) = ok (rest, be_value a b c d)
be_u32 _ = err tt

abbrev be_u64 : Parser ℕ
be_u64 (a ∷ b ∷ c ∷ d ∷ e ∷ f ∷ g ∷ h ∷ rest) =
    ok (rest, be_value a b c d * 4294967296 + be_value e f g h)
be_u64 _ = err tt

abbrev suc_ok : IResult (Unit {0}) ℕ → IResult (Unit {0}) ℕ
suc_ok (ok (rest, n)) = ok (rest, suc n)
suc_ok (err e) = err e

unfoldable count : ℕ → Parser (List ℕ) → Parser ℕ
count zero p input = ok (input, 0)
count (suc fuel) p input = elim (p input) [
  | err e ↦ ok (input, 0)
  | ok (rest, xs) ↦ if ltb (length rest) (length input) then suc_ok (count fuel p rest) else err tt
]

abbrev map_res : Parser (List ℕ) → (List ℕ → Option (List ℕ)) → Parser (List ℕ)
map_res p f input = elim (p input) [
  | err e ↦ err e
  | ok (rest, xs) ↦ elim (f xs) [ none ↦ err tt | some ys ↦ ok (rest, ys) ]
]

abbrev pub nom : Nom (Unit {0})
unfolding count
nom = record {
  tag = tag;
  take = take_n;
  take_while = take_while;
  be_u32 = be_u32;
  be_u64 = be_u64;
  many0_count = λ p input. count (suc (length input)) p input;
  map_res = map_res;
}

Result-cases :
    {A : Type 0} (r : IResult (Unit {0}) A)
    → ((e : Unit {0}) × (r ≡ err e)) ⊎ ((a : List ℕ × A) × (r ≡ ok a))
Result-cases (err e) = inl (e, refl)
Result-cases (ok a) = inr (a, refl)

starts_with-append : (t rest : List ℕ) → starts_with t (t ++ rest) ≡ true
starts_with-append [] rest = refl
starts_with-append (x ∷ t) rest = ground (arith, starts_with-append t rest)

count_more :
    (fuel fuel' : ℕ) (p : Parser (List ℕ)) (input : List ℕ)
    → length input < fuel
    → length input < fuel'
    → count fuel p input ≡ count fuel' p input
unfolding count
count_more zero fuel' p input h h' = absurd (omega arith)
count_more (suc fuel) zero p input h h' = absurd (omega arith)
count_more (suc fuel) (suc fuel') p input h h' = elim (Result-cases (p input)) [
  | inl (e, failed) ↦ rw (count, failed) refl
  | inr ((rest, xs), found) ↦
      rw (count, found)
        (elim (Bool-cases (ltb (length rest) (length input))) [
          | inl l ↦ rw l (
              let shorter = ltb→lt (length rest) (length input) l in
              ap suc_ok (count_more fuel fuel' p rest (omega arith) (omega arith)))
          | inr l ↦ rw l refl
        ])
]

count_stop :
    (p : Parser (List ℕ)) (input : List ℕ) (e : Unit {0})
    → p input ≡ err e
    → count (suc (length input)) p input ≡ ok (input, 0)
unfolding count
count_stop p input e h = rw (count, h)

count_next :
    (p : Parser (List ℕ)) (input rest xs rest' : List ℕ) (n : ℕ)
    → p input ≡ ok (rest, xs)
    → length rest < length input
    → count (suc (length rest)) p rest ≡ ok (rest', n)
    → count (suc (length input)) p input ≡ ok (rest', suc n)
unfolding count
count_next p input rest xs rest' n h less later =
    rw (count, h, lt→ltb (length rest) (length input) less)
      (ap suc_ok (count_more (length input) (suc (length rest)) p rest less (omega arith) ∙ later))

map_res_ok :
    (p : Parser (List ℕ)) (f : List ℕ → Option (List ℕ)) (input rest xs ys : List ℕ)
    → p input ≡ ok (rest, xs)
    → f xs ≡ some ys
    → map_res p f input ≡ ok (rest, ys)
map_res_ok p f input rest xs ys h e = rw (map_res, h, e)

be_u32_short : (input : List ℕ) → length input < 4 → (e : Unit {0}) × (be_u32 input ≡ err e)
be_u32_short [] h = (tt, refl)
be_u32_short (a ∷ []) h = (tt, refl)
be_u32_short (a ∷ b ∷ []) h = (tt, refl)
be_u32_short (a ∷ b ∷ c ∷ []) h = (tt, refl)
be_u32_short (a ∷ b ∷ c ∷ d ∷ input) h = absurd (omega arith)

pub nom-IsNom : IsNom nom
unfolding count
nom-IsNom = record {
  tag_here = λ t rest. rw (starts_with-append t rest, drop-append t rest);
  tag_other = λ t input h. (tt, rw h);
  take_here = λ xs rest. rw (
    le→ltb-false (length (xs ++ rest)) (length xs) (omega (arith, length-append xs rest)),
    drop-append xs rest,
    take-append xs rest,
  );
  take_short = λ n input h. (tt, rw (lt→ltb (length input) n h));
  take_while_end = λ p. refl;
  take_while_stop = λ p x input h. rw h;
  take_while_more = λ p x input rest xs h e. rw (h, e);
  be_u32_here = λ a b c d rest. refl;
  be_u32_short = be_u32_short;
  be_u64_here = λ a b c d a' b' c' d' rest. refl;
  many0_stop = count_stop;
  many0_more = count_next;
  map_res_ok = map_res_ok;
}

-- UTF-8 as it is on ASCII.
abbrev pub utf8 : List ℕ → Option (List ℕ)
utf8 [] = some []
utf8 (c ∷ cs) = if ltb c 128 then elim (utf8 cs) [ none ↦ none | some s ↦ some (c ∷ s) ] else none

-- The root has the property "c", a list of the strings "x" and "yz", and two children, "m@8" and "n"; the second
-- has no operations in front of it and a child "m" of its own.
abbrev pub prop_c : PropSpec
prop_c = record {
  nops = 0;
  name_off = 0;
  name = some (99 ∷ []);
  value = 120 ∷ 0 ∷ 121 ∷ 122 ∷ 0 ∷ [];
}

abbrev pub m_8 : Tree
m_8 = tree 0 (109 ∷ 64 ∷ 56 ∷ []) [] leafless 0

abbrev pub m : Tree
m = tree 0 (109 ∷ []) [] leafless 1

abbrev pub n : Tree
n = tree 2 (110 ∷ []) [] (plant m leafless) 0

abbrev pub device : Tree
device = tree 1 [] (prop_c ∷ []) (plant m_8 (plant n leafless)) 1

abbrev pub end_token : List ℕ
end_token = 0 ∷ 0 ∷ 0 ∷ 9 ∷ []

unfoldable pub structure : List ℕ
unfolding put_tree put_head put_props put_end put_nops
structure = put_tree device end_token

-- The block of structure after the header, and the strings behind it.
abbrev pub header : Header
header = record {
  magic = 0xd00dfeed;
  totalsize = 134;
  off_dt_struct = 40;
  off_dt_strings = 132;
  off_mem_rsvmap = 40;
  version = 17;
  last_comp_version = 16;
  boot_cpuid_phys = 0;
  size_dt_strings = 2;
  size_dt_struct = 92;
}

abbrev pub blob : Fdt
blob = record { hdr = header; bytes = put_header header (structure ++ (99 ∷ 0 ∷ [])) }
