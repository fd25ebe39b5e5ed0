-- ===== src/Wal/Frame/Read.antt =====
-- A reader of the records that `write_entry` of kobzar/src/q_engine/storage/wal.rs writes.
use kobzar.Base.{
  ℕ, ◌+◌, ◌-◌, ◌%◌, ◌<◌, ◌≡◌, ◌≢◌, zero, suc, refl, sym, ap, arith, List, [], ◌∷◌, ◌++◌, Option,
  some, ◌>>=◌, length, replicate, concat, ◌≤◌, take, drop, All, append_assoc, take-length_append,
  drop-length_append, length-append,
}
use kobzar.Base.Bytes.{IsU64, le_bytes, read_le, read_le-le_bytes, read_le-append}
use kobzar.Wal.Entry.{WalEntry, entry_code}
use kobzar.Wal.Payload.{payload}
use kobzar.Wal.Reader.{read_payload}
use kobzar.Wal.Reader.Bounds.{Fits, IsDelimited}
use kobzar.Wal.Reader.Laws.{payload_read_back}
use kobzar.Wal.Frame.{Digest, padding, frame_writes}
use kobzar.Wal.Frame.Laws.{entry_size, framed, frame_writes-framed, length-framed}

abbrev pub Record : Type 0
Record = ℕ × WalEntry

-- the record at the front of the bytes, and the bytes behind its padding
unfoldable pub read_frame : List ℕ → Option (Record × List ℕ)
read_frame bytes = read_le 8 bytes >>= λ (size, r). read_le 32 r >>= λ (_, r).
    read_le 8 r >>= λ (tx, r). read_le 8 r >>= λ (code, r).
    read_payload code (take (size - 56) r) >>= λ e.
    some ((tx, e), drop (padding size) (drop (size - 56) r))

entry_code-IsU64 : (e : WalEntry) → IsU64 (entry_code e)
unfolding entry_code
entry_code-IsU64 e = ground arith

-- What can be written: the transaction and the ids are u64s, and the entry is no `CreateFn`.
pub record IsWritable (tx : ℕ) (e : WalEntry) : Type 0 where
  pub tx_fits : IsU64 tx
  pub entry_fits : Fits e
  pub delimited : IsDelimited e
  pub size_fits : IsU64 (entry_size e)

module _ (d : Digest) where
  open d use {Hasher, new_hasher, feed, finalize, feed-append, length-finalize}

  framed-append :
      (tx : ℕ) (e : WalEntry) (rest : List ℕ)
      → framed d tx e ++ rest
        ≡ le_bytes 8 (entry_size e)
          ++ (finalize (feed new_hasher (le_bytes 8 tx ++ (le_bytes 8 (entry_code e) ++ payload e)))
              ++ (le_bytes 8 tx
                  ++ (le_bytes 8 (entry_code e)
                      ++ (payload e ++ (replicate (padding (entry_size e)) 0 ++ rest)))))
  unfolding framed
  framed-append tx e rest = simp append_assoc

  drop_padding : (n : ℕ) (rest : List ℕ) → drop n (replicate n 0 ++ rest) ≡ rest
  drop_padding zero rest = refl
  drop_padding (suc n) rest = drop_padding n rest

  read_frame-framed :
      (tx : ℕ) (e : WalEntry) (rest : List ℕ)
      → IsWritable tx e
      → read_frame (framed d tx e ++ rest) ≡ some ((tx, e), rest)
  unfolding read_frame
  read_frame-framed tx e rest w =
      let hashed =
        finalize (feed new_hasher (le_bytes 8 tx ++ (le_bytes 8 (entry_code e) ++ payload e))) in
      let tail = replicate (padding (entry_size e)) 0 ++ rest in
      let body = payload e ++ tail in
      let len : entry_size e - 56 ≡ length (payload e) = omega arith in
      rw (
        framed-append tx e rest,
        read_le-le_bytes 8 (entry_size e)
            (hashed ++ (le_bytes 8 tx ++ (le_bytes 8 (entry_code e) ++ body))) (omega arith),
        read_le-append 32 hashed (le_bytes 8 tx ++ (le_bytes 8 (entry_code e) ++ body))
            (length-finalize _),
        read_le-le_bytes 8 tx (le_bytes 8 (entry_code e) ++ body) (omega arith),
        read_le-le_bytes 8 (entry_code e) body (omega (arith, entry_code-IsU64 e)),
        len,
        take-length_append (payload e) tail,
        drop-length_append (payload e) tail,
        payload_read_back e w.entry_fits w.delimited,
        drop_padding (padding (entry_size e)) rest,
      )

  -- what `write_entry` writes
  abbrev pub written : ℕ → WalEntry → List ℕ
  written tx e = concat (frame_writes d tx e)

  -- A reader that splits what write_entry writes at its size field reads back the transaction and
  -- the entry, and is left with the bytes behind the padding, where every number fits 64 bits and
  -- the entry is no CreateFn.
  pub read_frame-frame_writes :
      (tx : ℕ) (e : WalEntry) (rest : List ℕ)
      → IsWritable tx e
      → read_frame (written tx e ++ rest) ≡ some ((tx, e), rest)
  read_frame-frame_writes tx e rest w =
      rw (frame_writes-framed d tx e w.size_fits, read_frame-framed tx e rest w)

  -- What write_entry writes is as long as its size field says, plus the padding; where the size
  -- fits 64 bits it is a multiple of 8 bytes, longer than the size field, by at most 8 bytes.
  pub length-frame_writes :
      (tx : ℕ) (e : WalEntry)
      → IsU64 (entry_size e)
      → (length (written tx e) ≡ entry_size e + padding (entry_size e))
        × (length (written tx e) % 8 ≡ 0)
        × (entry_size e < length (written tx e))
        × (length (written tx e) ≤ entry_size e + 8)
  length-frame_writes tx e fits = rw (frame_writes-framed d tx e fits) (length-framed d tx e)

  written-injective :
      (tx tx' : ℕ) (e f : WalEntry) (rest rest' : List ℕ)
      → IsWritable tx e
      → IsWritable tx' f
      → written tx e ++ rest ≡ written tx' f ++ rest'
      → (tx ≡ tx') × (e ≡ f) × (rest ≡ rest')
  written-injective tx tx' e f rest rest' w w' h =
      let a = read_frame-frame_writes tx e rest w in
      let b = read_frame-frame_writes tx' f rest' w' in (cc (h, a, b), cc (h, a, b), cc (h, a, b))

  -- the log of a list of transactions and entries
  abbrev pub log_bytes : List Record → List ℕ
  log_bytes [] = []
  log_bytes ((tx, e) ∷ rs) = written tx e ++ log_bytes rs

  written-ne_nil :
      (tx : ℕ) (e : WalEntry) (rest : List ℕ) → IsWritable tx e → written tx e ++ rest ≢ []
  written-ne_nil tx e rest w h = omega (
    arith,
    ap (λ (l : List ℕ). length l) h,
    length-frame_writes tx e w.size_fits,
    length-append (written tx e) rest,
  )

  -- Two logs with the same bytes hold the same transactions and entries in the same order, where
  -- every number fits 64 bits and no entry is a CreateFn.
  pub log_bytes-injective :
      (rs ss : List Record)
      → All (λ r. IsWritable r.0 r.1) rs
      → All (λ r. IsWritable r.0 r.1) ss
      → log_bytes rs ≡ log_bytes ss
      → rs ≡ ss
  log_bytes-injective [] [] _ _ h = refl
  log_bytes-injective [] ((tx, e) ∷ ss) _ (v, _) h =
      absurd (written-ne_nil tx e (log_bytes ss) v (sym h))
  log_bytes-injective ((tx, e) ∷ rs) [] (w, _) _ h = absurd (written-ne_nil tx e (log_bytes rs) w h)
  log_bytes-injective ((tx, e) ∷ rs) ((tx', f) ∷ ss) (w, ws) (v, vs) h =
      let (p, q, r) = written-injective tx tx' e f (log_bytes rs) (log_bytes ss) w v h in
      cc (p, q, log_bytes-injective rs ss ws vs r)
