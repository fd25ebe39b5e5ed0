-- ===== src/Heap/Steps.antt =====
-- What the operations of `HeapRead` leave when they succeed.
use kobzar.Base.{ℕ, ◌==◌, Bool-cases, inl, inr, ◌≡◌, refl, ap, sym, List, length}
use mathlib.Core.Path.{subst}
use kobzar.Base.Results.{Result, ok, err}
use kobzar.Heap.File.{RawFile, BufReader}
use kobzar.Heap.Read.{HeapRead, goto_record_at, whole, started, below, through, mapped}

module _ (r : RawFile) (b : BufReader r) where
  open b use {Buffered, file, get_mut, ahead, ahead-get_mut, file-get_mut, read_stream, read_file}

  -- what a move that succeeds leaves
  abbrev pub Moved : HeapRead r b → HeapRead r b → ℕ → Type 0
  Moved h h' offset =
      (ahead h'.reader ≡ ahead h.reader)
      × (r.cursor (file h'.reader) ≡ offset)
      × (r.content (file h'.reader) ≡ r.content (file h.reader))
      × (h'.record_start ≡ offset)

  started-Moved :
      (h h' : HeapRead r b) (offset : ℕ)
      (p : RawFile.State r × Result (RawFile.IoError r) (Unit {0}))
      → r.seek (file h.reader) offset ≡ p
      → started r b h offset (below r b h.reader p) ≡ (h', ok tt)
      → Moved h h' offset
  started-Moved h h' offset (s, err e) sought moved =
      cc (ap (λ (p : HeapRead r b × Result (RawFile.IoError r) (Unit {0})). p.1) moved)
  started-Moved h h' offset (s, ok tt) sought moved =
      let same : record h { reader = get_mut h.reader s; record_start = offset } ≡ h' =
        ap (λ (p : HeapRead r b × Result (RawFile.IoError r) (Unit {0})). p.0) moved in
      subst (λ h'. Moved h h' offset) same
        (
          ahead-get_mut h.reader s,
          rw (file-get_mut h.reader s) (r.seek_cursor (file h.reader) s offset sought),
          rw
              (
                file-get_mut h.reader s,
                ← ap (λ (p : RawFile.State r × Result (RawFile.IoError r) (Unit {0})). p.0) sought,
              )
              (r.seek_content (file h.reader) offset),
          refl,
        )

  pub goto_record_at-Moved :
      (h h' : HeapRead r b) (offset : ℕ)
      → goto_record_at r b h offset ≡ (h', ok tt)
      → Moved h h' offset
  unfolding goto_record_at
  goto_record_at-Moved h h' offset moved = started-Moved h h' offset _ refl moved

  -- the read behind a result that is mapped
  pub mapped-ok :
      {A : Type 0} (h h' : HeapRead r b) (f : List ℕ → A) (a : A)
      (p : Buffered × Result (RawFile.IoError r) (List ℕ))
      → through r b h (mapped f p) ≡ (h', ok a)
      → (bytes : List ℕ) × (p ≡ (h'.reader, ok bytes)) × (f bytes ≡ a)
  mapped-ok h h' f a (s, err e) was_read =
      cc (ap (λ (p : HeapRead r b × Result (RawFile.IoError r) _). p.1) was_read)
  mapped-ok h h' f a (s, ok bytes) was_read =
      let same : s ≡ h'.reader =
        ap (λ (p : HeapRead r b × Result (RawFile.IoError r) _). p.0.reader) was_read in
      let answer : ◌≡◌ {A = Result (RawFile.IoError r) _} (ok (f bytes)) (ok a) =
        ap (λ (p : HeapRead r b × Result (RawFile.IoError r) _). p.1) was_read in
      (bytes, ap (λ (x : Buffered). (x, ok bytes)) same, cc answer)

  -- a read below the buffer that was whole
  pub whole-ok :
      (h h' : HeapRead r b) (n : ℕ) (bytes : List ℕ)
      (p : RawFile.State r × Result (RawFile.IoError r) (List ℕ))
      → through r b h (whole r n (below r b h.reader p)) ≡ (h', ok bytes)
      → (s : RawFile.State r) × (p ≡ (s, ok bytes)) × (h'.reader ≡ get_mut h.reader s)
  whole-ok h h' n bytes (s, err e) was_read =
      cc (ap (λ (p : HeapRead r b × Result (RawFile.IoError r) (List ℕ)). p.1) was_read)
  whole-ok h h' n bytes (s, ok got) was_read = elim (Bool-cases (length got == n)) [
    | inr short ↦
        let failed = rw short at was_read in
        cc (ap (λ (p : HeapRead r b × Result (RawFile.IoError r) (List ℕ)). p.1) failed)
    | inl fit ↦
        let done = rw fit at was_read in
        (
          s,
          ap (λ (x : Result (RawFile.IoError r) (List ℕ)). (s, x))
              (ap (λ (p : HeapRead r b × Result (RawFile.IoError r) (List ℕ)). p.1) done),
          sym (ap (λ (p : HeapRead r b × Result (RawFile.IoError r) (List ℕ)). p.0.reader) done),
        )
  ]
