-- ===== src/Cpio/Progress.antt =====
-- The reader moves forward within the archive and does not panic, and so the search ends.
use rv.Base.{ℕ, zero, suc, ◌+◌, ◌-◌, ◌≤◌, ◌<◌, ◌≡◌, refl, arith, not}
use rv.Base.{Bool, true, false, Option, none, some, List, length, Run, done, panic, Result, ok, err}
use rv.Cpio.{
  CpioError, CpioEntry, NewcIter, bytes_eq, read_exact, read_entry, after_header, next, find_from,
  find_file, trailer,
}
use rv.Cpio.Steps.{
  Ends, bind-Ends, pure-Ends, read_exact-Ends, slice-step, nul-step, sub-step, ensure-step,
  hex-step, read-step, align-step,
}

not-true : (b : Bool) → not b ≡ true → b ≡ false
not-true b h = ground (arith, h)

module _ (from_utf8 : List ℕ → Bool) (from_str_radix : List ℕ → ℕ → Option ℕ) where
  module _ (lo : ℕ) (buf : List ℕ) where
    -- From `lo` or later, the code ends at `lo` or later, within the archive.
    Within : CpioEntry → ℕ → Type 0
    Within c o = (lo ≤ o) × (o ≤ length buf)

    after_header-Ends :
        (hdr : List ℕ) (off : ℕ)
        → length hdr ≡ 110
        → lo ≤ off
        → Ends Within (after_header from_utf8 from_str_radix buf hdr off)
    unfolding after_header Within
    after_header-Ends hdr off size h =
        slice-step Within off hdr 0 6 _ (omega arith) (omega arith) (λ start.
          ensure-step Within off _ _ _ (λ is_magic.
            slice-step Within off hdr 14 22 _ (omega arith) (omega arith) (λ mode_field.
              hex-step Within off from_utf8 from_str_radix mode_field _ (λ mode.
                slice-step Within off hdr 54 62 _ (omega arith) (omega arith) (λ filesize_field.
                  hex-step Within off from_utf8 from_str_radix filesize_field _ (λ filesize.
                    slice-step Within off hdr 94 102 _ (omega arith) (omega arith)
                      (λ namesize_field.
                        hex-step Within off from_utf8 from_str_radix namesize_field _ (λ namesize.
                          read-step Within off buf namesize _ (λ name_bytes o size' on.
                            nul-step Within o name_bytes _ (λ malformed some_there.
                              ensure-step Within o _ _ _ (λ well.
                                sub-step Within o (length name_bytes) _
                                  (some_there (not-true malformed well))
                                  (slice-step Within o name_bytes 0 (length name_bytes - 1) _
                                    (omega arith) (omega arith)
                                    (λ name. ensure-step Within o _ _ _ (λ text.
                                      align-step Within o buf _ (λ o1 on1 inside1.
                                        read-step Within o1 buf filesize _ (λ bytes o2 size2 on2.
                                          align-step Within o2 buf _ (λ o3 on3 inside3.
                                            pure-Ends Within _ o3
                                              (omega arith, inside3))))))))))))))))))

  -- An entry takes at least the 110 bytes of its header and ends within the archive.
  read_entry-Ends :
      (buf : List ℕ) (off : ℕ)
      → Ends (Within (off + 110) buf) (read_entry from_utf8 from_str_radix buf off)
  unfolding read_entry
  read_entry-Ends buf off =
      bind-Ends (λ hdr o. (length hdr ≡ 110) × (off + 110 ≤ o)) (Within (off + 110) buf)
        (read_exact buf 110) (after_header from_utf8 from_str_radix buf) off
        (read_exact-Ends buf 110 off) (λ hdr o q. after_header-Ends (off + 110) buf hdr o q.0 q.1)

  -- What one call of `next` gives.
  data NextCase (buf : List ℕ) (it : NewcIter)
      : Run (Option (Result CpioError CpioEntry) × NewcIter) → Type 0 where
    ends : (it' : NewcIter) → NextCase buf it (done (none, it'))
    fails : (e : CpioError) (it' : NewcIter) → NextCase buf it (done (some (err e), it'))
    entry :
        (c : CpioEntry) (it' : NewcIter)
        → it.off + 110 ≤ it'.off
        → it'.off ≤ length buf
        → NextCase buf it (done (some (ok c), it'))

  next-NextCase :
      (buf : List ℕ) (it : NewcIter) → NextCase buf it (next from_utf8 from_str_radix buf it)
  unfolding next Ends Within
  next-NextCase buf it =
      go it.is_done (read_entry from_utf8 from_str_radix buf it.off) (read_entry-Ends buf it.off)
    where
      Out : Type 0
      Out = Run (Option (Result CpioError CpioEntry) × NewcIter)

      tail :
          (c : CpioEntry) (o : ℕ) (b : Bool)
          → it.off + 110 ≤ o
          → o ≤ length buf
          → NextCase buf it (elim b as (λ _. Out) [
            | true ↦ done (none, record { off = o; is_done = true })
            | false ↦ done (some (ok c), record { off = o; is_done = false })
          ])
      tail c o true p q = ends _
      tail c o false p q = entry c _ p q

      go :
          (b : Bool) (r : Run (Result CpioError CpioEntry × ℕ))
          → Ends (λ c o. (it.off + 110 ≤ o) × (o ≤ length buf)) r
          → NextCase buf it (elim b as (λ _. Out) [
            | true ↦ done (none, it)
            | false ↦ elim r as (λ _. Out) [
              | panic ↦ panic
              | done (err e, off) ↦ done (some (err e), record { off = off; is_done = false })
              | done (ok c, off) ↦ elim (bytes_eq (c.name) trailer) as (λ _. Out) [
                | true ↦ done (none, record { off = off; is_done = true })
                | false ↦ done (some (ok c), record { off = off; is_done = false })
              ]
            ]
          ])
      go true r h = ends it
      go false panic h = elim h [ ]
      go false (done (err e, o)) h = fails e _
      go false (done (ok c, o)) h = tail c o (bytes_eq (c.name) trailer) h.0 h.1

  find_from-returns :
      (fuel : ℕ) (buf path : List ℕ) (it : NewcIter)
      → it.off ≤ length buf
      → length buf < it.off + fuel
      → (r : Result CpioError (Option (List ℕ))) × (find_from from_utf8 from_str_radix fuel buf path
            it
          ≡ done r)
  unfolding find_from
  find_from-returns zero buf path it le lt = absurd (omega arith)
  find_from-returns (suc fuel) buf path it le lt =
      go (λ it' inside forward. find_from-returns fuel buf path it' inside forward)
        (next from_utf8 from_str_radix buf it) (next-NextCase buf it)
    where
      R : Type 0
      R = Result CpioError (Option (List ℕ))

      tail :
          (b : Bool) (c : CpioEntry) (it' : NewcIter)
          → ((r : R) × (find_from from_utf8 from_str_radix fuel buf path it' ≡ done r))
          → (r : R) × ((elim b as (λ _. Run R) [
            | true ↦ done (ok (some (c.data_bytes)))
            | false ↦ find_from from_utf8 from_str_radix fuel buf path it'
          ])
              ≡ done r)
      tail true c it' h = (ok (some (c.data_bytes)), refl)
      tail false c it' h = h

      go :
          ((it' : NewcIter)
            → it'.off ≤ length buf
            → length buf < it'.off + fuel
            → (r : R) × (find_from from_utf8 from_str_radix fuel buf path it' ≡ done r))
          → (p : Run (Option (Result CpioError CpioEntry) × NewcIter)) → NextCase buf it p
          → (r : R) × ((elim p as (λ _. Run R) [
            | panic ↦ panic
            | done (none, it') ↦ done (ok none)
            | done (some (err e), it') ↦ done (err e)
            | done (some (ok c), it') ↦ elim (bytes_eq (c.name) path) as (λ _. Run R) [
              | true ↦ done (ok (some (c.data_bytes)))
              | false ↦ find_from from_utf8 from_str_radix fuel buf path it'
            ]
          ])
              ≡ done r)
      go ih _ (ends it') = (ok none, refl)
      go ih _ (fails e it') = (err e, refl)
      go ih _ (entry c it' forward inside) =
          tail (bytes_eq (c.name) path) c it' (ih it' inside (omega arith))

  -- `find_file` returns for every archive and path, whatever the parameters answer: no index or slice of the reader
  -- is out of range, no `unwrap` fails, and the iterator ends.
  pub find_file-returns :
      (archive path : List ℕ)
      → (r : Result CpioError (Option (List ℕ))) × (find_file from_utf8 from_str_radix archive path
          ≡ done r)
  unfolding find_file
  find_file-returns archive path =
      find_from-returns (length archive + 1) archive path (record { off = 0; is_done = false })
        (omega arith) (omega arith)
