-- ===== src/Wal/Frame/Laws.antt =====
-- The bytes that `write_entry` of kobzar/src/q_engine/storage/wal.rs appends.
use kobzar.Base.{
  ℕ, sym, Option-cases, inl, inr, min, ◌∙◌, zero, suc, ap, ◌+◌, ◌%◌, ◌^◌, ◌≤◌, ◌<◌, List, [], ◌∷◌,
  ◌++◌, none, some, length, replicate, take, take-add_append, take_append_short, concat, ◌≡◌, refl,
  arith, append_assoc, append-nil, concat-append, length-append, length-replicate,
}
use kobzar.Base.Bytes.{le_bytes, length-le_bytes}
use kobzar.Wal.Entry.{WalEntry, entry_code}
use kobzar.Wal.Payload.{entry_writes, payload}
use kobzar.Wal.Frame.{Digest, LogFile, padding, measure, frame_writes, write_each, write_entry}

-- the size field
abbrev pub entry_size : WalEntry → ℕ
entry_size e = 56 + length (payload e)

module _ (d : Digest) where
  open d use {Hasher, new_hasher, feed, finalize, feed-append, length-finalize}

  -- the documented format of a record
  unfoldable pub framed : ℕ → WalEntry → List ℕ
  framed tx e =
      le_bytes 8 (entry_size e)
      ++ (finalize (feed new_hasher (le_bytes 8 tx ++ (le_bytes 8 (entry_code e) ++ payload e)))
          ++ (le_bytes 8 tx
              ++ (le_bytes 8 (entry_code e)
                  ++ (payload e ++ replicate (padding (entry_size e)) 0))))

  measure_lem :
      (size total : ℕ) (h : Hasher) (ws : List (List ℕ)) (before : List ℕ)
      → size + length (concat ws) ≡ total
      → total < 2 ^ 64
      → measure d size (feed h before) ws ≡ (total, feed h (before ++ concat ws))
  unfolding measure
  measure_lem size total h [] before e fits =
      rw append-nil (ap (λ (n : ℕ). (n, feed h before)) (omega arith))
  measure_lem size total h (b ∷ ws) before e fits =
      let sum : size + length b + length (concat ws) ≡ total =
        omega (arith, length-append b (concat ws)) in
      let small : (size + length b) % 2 ^ 64 ≡ size + length b = omega arith in
      rw (small, feed-append h before b, ← append_assoc before b (concat ws))
        (measure_lem (size + length b) total h ws (before ++ b) sum fits)

  concat-replicate :
      (n : ℕ) → let zero_byte : List ℕ = 0 ∷ [] in concat (replicate n zero_byte) ≡ replicate n 0
  concat-replicate zero = refl
  concat-replicate (suc n) = ap (λ r. 0 ∷ r) (concat-replicate n)

  -- All that `write_entry` writes, if the size does not overflow.
  pub frame_writes-framed :
      (tx : ℕ) (e : WalEntry) → entry_size e < 2 ^ 64 → concat (frame_writes d tx e) ≡ framed tx e
  unfolding frame_writes framed payload
  frame_writes-framed tx e fits = rw (
    feed-append new_hasher (le_bytes 8 tx) (le_bytes 8 (entry_code e)),
    measure_lem 56 (entry_size e) new_hasher (entry_writes e)
        (le_bytes 8 tx ++ le_bytes 8 (entry_code e)) refl fits,
    concat-append (entry_writes e) (replicate (padding (entry_size e)) (0 ∷ [])),
    concat-replicate (padding (entry_size e)),
    append_assoc (le_bytes 8 tx) (le_bytes 8 (entry_code e)) (concat (entry_writes e)),
  )

  -- A record is its size field rounded up to the next multiple of 8 that is greater: it is aligned,
  -- and it holds 1 to 8 bytes of padding.
  pub length-framed :
      (tx : ℕ) (e : WalEntry)
      → (length (framed tx e) ≡ entry_size e + padding (entry_size e))
        × (length (framed tx e) % 8 ≡ 0)
        × (entry_size e < length (framed tx e))
        × (length (framed tx e) ≤ entry_size e + 8)
  unfolding framed
  length-framed tx e = omega (arith, total)
    where
      total : length (framed tx e) ≡ entry_size e + padding (entry_size e)
      total = simp (length-append, length-le_bytes, length-replicate, length-finalize) (omega arith)

module _ (d : Digest) (io : LogFile) where
  open io use {File, IoError, contents, write_all, write_all_ok, write_all_torn}

  module _ (f : File) (b : List ℕ) (ws : List (List ℕ)) where
    write_each-ok_step :
        (write_all f b).1 ≡ none → write_each d io f (b ∷ ws) ≡ write_each d io (write_all f b).0 ws
    unfolding write_each
    write_each-ok_step e = rw (e, write_each)

    write_each-err_step :
        (x : IoError)
        → (write_all f b).1 ≡ some x
        → write_each d io f (b ∷ ws) ≡ ((write_all f b).0, some x)
    unfolding write_each
    write_each-err_step x e = rw (e, write_each)

  write_each_ok :
      (f : File) (ws : List (List ℕ))
      → (write_each d io f ws).1 ≡ none
      → contents (write_each d io f ws).0 ≡ contents f ++ concat ws
  write_each_ok f [] h = unfold write_each in sym (append-nil (contents f))
  write_each_ok f (b ∷ ws) h = elim (Option-cases (write_all f b).1) [
    | inl e ↦
        let s = write_each-ok_step f b ws e in
        rw s
          (write_each_ok (write_all f b).0 ws (rw s at h) ∙ rw (write_all_ok f b e, append_assoc))
    | inr (x, e) ↦ cc (write_each-err_step f b ws x e)
  ]

  write_each_torn :
      (f : File) (ws : List (List ℕ))
      → (m : ℕ) × (contents (write_each d io f ws).0 ≡ contents f ++ take m (concat ws))
  write_each_torn f [] = (0, unfold write_each in sym (append-nil (contents f)))
  write_each_torn f (b ∷ ws) = elim (Option-cases (write_all f b).1) [
    | inl e ↦
        let (m, p) = write_each_torn (write_all f b).0 ws in
        (
          length b + m,
          rw (write_each-ok_step f b ws e, p, write_all_ok f b e, append_assoc, take-add_append b),
        )
    | inr (x, e) ↦
        let (m, p) = write_all_torn f b in
        (
          min m (length b),
          rw (write_each-err_step f b ws x e, p, take_append_short b (concat ws) m),
        )
  ]

  -- A write_entry that succeeds appends the record of the entry: size, hash, transaction, code,
  -- payload and padding; the size of the entry fits 64 bits.
  pub write_entry_appends :
      (f : File) (tx : ℕ) (e : WalEntry)
      → entry_size e < 2 ^ 64
      → (write_entry d io f tx e).1 ≡ none
      → contents (write_entry d io f tx e).0 ≡ contents f ++ framed d tx e
  unfolding write_entry
  write_entry_appends f tx e fits h =
      rw (write_each_ok f (frame_writes d tx e) h, frame_writes-framed d tx e fits)

  -- Whatever write of write_entry fails, the log is as it was before, followed by a prefix of the
  -- record of the entry; the size of the entry fits 64 bits.
  pub write_entry_torn :
      (f : File) (tx : ℕ) (e : WalEntry)
      → entry_size e < 2 ^ 64
      → (m : ℕ) × (contents (write_entry d io f tx e).0 ≡ contents f ++ take m (framed d tx e))
  unfolding write_entry
  write_entry_torn f tx e fits =
      let (m, p) = write_each_torn f (frame_writes d tx e) in
      (m, rw (p, frame_writes-framed d tx e fits))
