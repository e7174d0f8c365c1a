-- ===== src/Drivers/Virtq/Runs.antt =====
-- A driver that submits one request after another.
use rv.Base.{ℕ, ◌+◌, ◌≤◌, ◌<◌, ◌≡◌, refl, ◌∙◌, arith}
use rv.Base.{List, [], ◌∷◌, length, Run, done, ◌>>=◌}
use rv.Drivers.Virtq.{Virtq, VirtqBuffer, submit}
use rv.Drivers.Virtq.Queue.{IsQueue}
use rv.Drivers.Virtq.Submit.{submit-IsSubmitted}

-- The queue after all requests.
unfoldable pub submit_all : Virtq → List (List VirtqBuffer) → Run Virtq
submit_all q [] = done q
submit_all q (request ∷ requests) = submit q request >>= λ r. submit_all r.0 requests

abbrev pub total : List (List VirtqBuffer) → ℕ
total [] = 0
total (request ∷ requests) = length request + total requests

-- No request is without a buffer.
abbrev pub NonEmpty : List (List VirtqBuffer) → Type 0
NonEmpty [] = Unit {0}
NonEmpty (request ∷ requests) = (0 < length request) × NonEmpty requests

submit_all-step :
    (q q' : Virtq) (i : ℕ) (request : List VirtqBuffer) (requests : List (List VirtqBuffer))
    → submit q request ≡ done (q', i)
    → submit_all q (request ∷ requests) ≡ submit_all q' requests
unfolding submit_all
submit_all-step q q' i request requests e = ground (arith, e)

submit_all-none : (q : Virtq) → submit_all q [] ≡ done q
unfolding submit_all
submit_all-none q = refl

-- A well-formed queue takes every sequence of requests, none without a buffer, that together need no more
-- descriptors than are free: no call panics, and at the end the queue is well-formed and has that many
-- fewer free descriptors.
pub submit_all-IsQueue :
    (q : Virtq) (requests : List (List VirtqBuffer))
    → IsQueue q
    → NonEmpty requests
    → total requests ≤ q.free_count
    → (q' : Virtq) × (submit_all q requests ≡ done q')
      × IsQueue q'
      × (q'.free_count + total requests ≡ q.free_count)
submit_all-IsQueue q [] inv full fits = (q, submit_all-none q, inv, omega arith)
submit_all-IsQueue q (request ∷ requests) inv (h, rest) fits =
    let (q1, ran, s) = submit-IsSubmitted q inv request h (omega arith) in
    let count = s.count in
    let (q', ran', inv', left) = submit_all-IsQueue q1 requests s.queue rest (omega arith) in
    (q', submit_all-step q q1 q.idx request requests ran ∙ ran', inv', omega arith)
