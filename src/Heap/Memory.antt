-- ===== src/Heap/Memory.antt =====
-- A file in memory with a reader that takes in all of it at once: the laws of the files can be met.
use kobzar.Base.{
  ℕ, zero, suc, ◌+◌, ◌≡◌, refl, sym, ap, arith, List, [], ◌∷◌, ◌++◌, append-nil, Bool-cases, inl,
  inr, leb, leb→le, if◌then◌else◌, length, take, drop, drop_all, length-take, length-drop,
}
use kobzar.Base.Results.{Result, ok, err}
use kobzar.Heap.File.{RawFile, BufReader, SeekReader, BufWriter, overwrite}

pub record Memory : Type 0 where
  pub bytes : List ℕ
  pub at : ℕ

pub data Failure : Type 0 where
  eof : Failure

abbrev pub memory_read : Memory → ℕ → Memory × Result Failure (List ℕ)
memory_read m n =
    if leb (m.at + n) (length m.bytes)
    then (record m { at = m.at + n }, ok (take n (drop m.at m.bytes)))
    else (m, err eof)

pub memory_read_ok :
    (m m' : Memory) (n : ℕ) (bytes : List ℕ)
    → memory_read m n ≡ (m', ok bytes)
    → (length bytes ≡ n) × (bytes ≡ take n (drop m.at m.bytes)) × (m'.at ≡ m.at + n)
memory_read_ok m m' n bytes e = elim (Bool-cases (leb (m.at + n) (length m.bytes))) [
  | inr short ↦ cc (ap (λ (p : Memory × Result Failure (List ℕ)). p.1) (rw short at e))
  | inl fits ↦
      let got : take n (drop m.at m.bytes) ≡ bytes =
        cc (ap (λ (p : Memory × Result Failure (List ℕ)). p.1) (rw fits at e)) in
      let moved : m.at + n ≡ m'.at =
        ap (λ (p : Memory × Result Failure (List ℕ)). p.0.at) (rw fits at e) in
      (
        rw (← got) (
            omega (
              arith,
              leb→le (m.at + n) (length m.bytes) fits,
              length-take n (drop m.at m.bytes),
              length-drop m.at m.bytes,
            )),
        sym got,
        sym moved,
      )
]

pub memory_read_content : (m : Memory) (n : ℕ) → (memory_read m n).0.bytes ≡ m.bytes
memory_read_content m n = ground arith

pub seek_at :
    (m m' : Memory) (offset : ℕ)
    → ◌≡◌ {A = Memory × Result Failure (Unit {0})} (record m { at = offset }, ok tt) (m', ok tt)
    → m'.at ≡ offset
seek_at m m' offset e = sym (ap (λ (p : Memory × Result Failure (Unit {0})). p.0.at) e)

abbrev pub memory : RawFile
memory = record {
  State = Memory;
  IoError = Failure;
  unexpected_eof = eof;
  content = λ m. m.bytes;
  cursor = λ m. m.at;
  seek = λ m offset. (record m { at = offset }, ok tt);
  read_exact = memory_read;
  seek_content = λ m offset. refl;
  seek_cursor = seek_at;
  read_content = memory_read_content;
  read_ok = memory_read_ok;
}

pub record Ahead : Type 0 where
  pub inner : Memory
  pub buf : List ℕ

abbrev pub stream : Ahead → List ℕ
stream b = b.buf ++ drop b.inner.at b.inner.bytes

-- fills the buffer with the rest of the file
abbrev pub ahead_read : Ahead → ℕ → Ahead × Result Failure (List ℕ)
ahead_read b n =
    if leb n (length (stream b))
    then (
      record { inner = record b.inner { at = length b.inner.bytes }; buf = drop n (stream b) },
      ok (take n (stream b)),
    )
    else (b, err eof)

take-append-drop : (n : ℕ) (xs : List ℕ) → take n xs ++ drop n xs ≡ xs
take-append-drop zero xs = refl
take-append-drop (suc n) [] = refl
take-append-drop (suc n) (x ∷ xs) = ap (λ r. x ∷ r) (take-append-drop n xs)

pub ahead_read_content : (b : Ahead) (n : ℕ) → (ahead_read b n).0.inner.bytes ≡ b.inner.bytes
ahead_read_content b n = ground arith

pub ahead_read-stream :
    (b b' : Ahead) (n : ℕ) (bytes : List ℕ)
    → ahead_read b n ≡ (b', ok bytes)
    → (length bytes ≡ n) × (stream b ≡ bytes ++ stream b')
ahead_read-stream b b' n bytes e = elim (Bool-cases (leb n (length (stream b)))) [
  | inr short ↦ cc (ap (λ (p : Ahead × Result Failure (List ℕ)). p.1) (rw short at e))
  | inl fits ↦
      let got : take n (stream b) ≡ bytes =
        cc (ap (λ (p : Ahead × Result Failure (List ℕ)). p.1) (rw fits at e)) in
      let left : drop n (stream b) ++ drop (length b.inner.bytes) b.inner.bytes ≡ stream b' =
        ap (λ (p : Ahead × Result Failure (List ℕ)). stream p.0) (rw fits at e) in
      (
        rw (← got) (omega (arith, leb→le n (length (stream b)) fits, length-take n (stream b))),
        rw
            (
              ← got,
              ← left,
              drop_all b.inner.bytes (length b.inner.bytes) (omega arith),
              append-nil (drop n (stream b)),
            )
            (sym (take-append-drop n (stream b))),
      )
]

abbrev pub ahead_reader : BufReader memory
ahead_reader = record {
  Buffered = Ahead;
  file = λ b. b.inner;
  get_mut = λ b m. record b { inner = m };
  ahead = λ b. b.buf;
  read = ahead_read;
  file-get_mut = λ b m. refl;
  ahead-get_mut = λ b m. refl;
  read_file = ahead_read_content;
  read_stream = ahead_read-stream;
}

-- A writer with a buffer without bound: the file holds `bytes`, and `pending` once it is written out.
pub record Unwritten : Type 0 where
  pub bytes : List ℕ
  pub pending : List ℕ
  pub at : ℕ

abbrev pub Wrote : Type 0
Wrote = Unwritten × Result Failure (Unit {0})

pub unwritten_write_ok :
    (m m' : Unwritten) (bytes : List ℕ)
    → ◌≡◌ {A = Wrote}
        (record m { pending = overwrite m.pending m.at bytes; at = m.at + length bytes }, ok tt)
        (m', ok tt)
    → (m'.pending ≡ overwrite m.pending m.at bytes) × (m'.at ≡ m.at + length bytes)
unwritten_write_ok m m' bytes e =
    (sym (ap (λ (p : Wrote). p.0.pending) e), sym (ap (λ (p : Wrote). p.0.at) e))

pub unwritten_seek_ok :
    (m m' : Unwritten) (offset : ℕ)
    → ◌≡◌ {A = Wrote} (record m { bytes = m.pending; at = offset }, ok tt) (m', ok tt)
    → (m'.pending ≡ m.pending) × (m'.bytes ≡ m.pending) × (m'.at ≡ offset)
unwritten_seek_ok m m' offset e = (
  sym (ap (λ (p : Wrote). p.0.pending) e),
  sym (ap (λ (p : Wrote). p.0.bytes) e),
  sym (ap (λ (p : Wrote). p.0.at) e),
)

pub unwritten_position_ok :
    (m m' : Unwritten) (at : ℕ)
    → ◌≡◌ {A = Unwritten × Result Failure ℕ} (record m { bytes = m.pending }, ok m.at) (m', ok at)
    → (m'.pending ≡ m.pending) × (m'.bytes ≡ m.pending) × (m'.at ≡ m.at) × (at ≡ m.at)
unwritten_position_ok m m' at e =
    let answer : m.at ≡ at = cc (ap (λ (p : Unwritten × Result Failure ℕ). p.1) e) in
    (
      sym (ap (λ (p : Unwritten × Result Failure ℕ). p.0.pending) e),
      sym (ap (λ (p : Unwritten × Result Failure ℕ). p.0.bytes) e),
      sym (ap (λ (p : Unwritten × Result Failure ℕ). p.0.at) e),
      sym answer,
    )

abbrev pub memory_writer : BufWriter
memory_writer = record {
  Buffered = Unwritten;
  IoError = Failure;
  content = λ m. m.bytes;
  written = λ m. m.pending;
  cursor = λ m. m.at;
  write_all = λ m bytes.
      (record m { pending = overwrite m.pending m.at bytes; at = m.at + length bytes }, ok tt);
  seek = λ m offset. (record m { bytes = m.pending; at = offset }, ok tt);
  stream_position = λ m. (record m { bytes = m.pending }, ok m.at);
  write_ok = unwritten_write_ok;
  seek_ok = unwritten_seek_ok;
  position_ok = unwritten_position_ok;
}

pub ahead_seek_ok :
    (b b' : Ahead) (offset : ℕ)
    → ◌≡◌ {A = Ahead × Result Failure (Unit {0})}
        (record { inner = record b.inner { at = offset }; buf = [] }, ok tt)
        (b', ok tt)
    → (b'.buf ≡ []) × (b'.inner.at ≡ offset) × (b'.inner.bytes ≡ b.inner.bytes)
ahead_seek_ok b b' offset e = (
  sym (ap (λ (p : Ahead × Result Failure (Unit {0})). p.0.buf) e),
  sym (ap (λ (p : Ahead × Result Failure (Unit {0})). p.0.inner.at) e),
  sym (ap (λ (p : Ahead × Result Failure (Unit {0})). p.0.inner.bytes) e),
)

abbrev pub ahead_seek : SeekReader ahead_reader
ahead_seek = record {
  seek = λ b offset. (record { inner = record b.inner { at = offset }; buf = [] }, ok tt);
  seek_ok = ahead_seek_ok;
}
