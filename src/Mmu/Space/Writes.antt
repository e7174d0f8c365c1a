-- ===== src/Mmu/Space/Writes.antt =====
-- What a read gives after a write.
use rv.Base.{ℕ, ◌≡◌, ◌≢◌, ◌⊎◌, inl, inr, arith}
use rv.Mmu.Space.{Memory, put, put_table}

pub put-same : (mem : Memory) (t i v : ℕ) → put mem t i v t i ≡ v
unfolding put
put-same mem t i v = ground arith

pub put-other : (mem : Memory) (t i v x j : ℕ) → (x ≢ t) ⊎ (j ≢ i) → put mem t i v x j ≡ mem x j
unfolding put
put-other mem t i v x j (inl ne) = ground arith
put-other mem t i v x j (inr ne) = ground arith

pub put_table-same : (mem : Memory) (t j : ℕ) → put_table mem t t j ≡ 0
unfolding put_table
put_table-same mem t j = ground arith

pub put_table-other : (mem : Memory) (t x j : ℕ) → x ≢ t → put_table mem t x j ≡ mem x j
unfolding put_table
put_table-other mem t x j ne = ground arith
