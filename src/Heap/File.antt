-- ===== src/Heap/File.antt =====
-- A file with a cursor, a buffered reader and a buffered writer of it.
use kobzar.Base.{ℕ, ◌+◌, ◌-◌, ◌≡◌, List, [], ◌++◌, length, take, drop, replicate}
use kobzar.Base.Results.{Result, ok}

pub record RawFile : Type 1 where
  pub State : Type 0
  pub IoError : Type 0
  pub unexpected_eof : IoError
  pub content : State → List ℕ
  pub cursor : State → ℕ
  pub seek : State → ℕ → State × Result IoError (Unit {0})
  pub read_exact : State → ℕ → State × Result IoError (List ℕ)
  pub seek_content : (s : State) (offset : ℕ) → content (seek s offset).0 ≡ content s
  pub seek_cursor : (s s' : State) (offset : ℕ) → seek s offset ≡ (s', ok tt) → cursor s' ≡ offset
  pub read_content : (s : State) (n : ℕ) → content (read_exact s n).0 ≡ content s
  pub read_ok :
      (s s' : State) (n : ℕ) (bytes : List ℕ)
      → read_exact s n ≡ (s', ok bytes)
      → (length bytes ≡ n)
        × (bytes ≡ take n (drop (cursor s) (content s)))
        × (cursor s' ≡ cursor s + n)

-- `BufReader`: `ahead` are the bytes that it holds and has not handed out.
pub record BufReader (r : RawFile) : Type 1 where
  pub Buffered : Type 0
  pub file : Buffered → RawFile.State r
  pub get_mut : Buffered → RawFile.State r → Buffered
  pub ahead : Buffered → List ℕ
  pub read : Buffered → ℕ → Buffered × Result (RawFile.IoError r) (List ℕ)
  pub file-get_mut : (b : Buffered) (s : RawFile.State r) → file (get_mut b s) ≡ s
  pub ahead-get_mut : (b : Buffered) (s : RawFile.State r) → ahead (get_mut b s) ≡ ahead b
  pub read_file : (b : Buffered) (n : ℕ) → r.content (file (read b n).0) ≡ r.content (file b)
  pub read_stream :
      (b b' : Buffered) (n : ℕ) (bytes : List ℕ)
      → read b n ≡ (b', ok bytes)
      → (length bytes ≡ n)
        × (ahead b ++ drop (r.cursor (file b)) (r.content (file b))
            ≡ bytes ++ (ahead b' ++ drop (r.cursor (file b')) (r.content (file b'))))

-- `BufReader::seek` gives up what it holds.
pub record SeekReader {r : RawFile} (b : BufReader r) : Type 1 where
  pub seek : BufReader.Buffered b → ℕ → BufReader.Buffered b × Result (RawFile.IoError r) (Unit {0})
  pub seek_ok :
      (s s' : BufReader.Buffered b) (offset : ℕ)
      → seek s offset ≡ (s', ok tt)
      → (b.ahead s' ≡ [])
        × (r.cursor (b.file s') ≡ offset)
        × (r.content (b.file s') ≡ r.content (b.file s))

-- what a file holds after a write; behind its end it is filled with zeros
abbrev pub overwrite : List ℕ → ℕ → List ℕ → List ℕ
overwrite content at bytes =
    take at (content ++ replicate (at - length content) 0)
    ++ (bytes ++ drop (at + length bytes) content)

-- `BufWriter`: `content` is what the file holds, and `written` what it would hold with the buffer written
-- out. A seek writes the buffer out first, and so does the question for the position, which is a seek by 0.
pub record BufWriter : Type 1 where
  pub Buffered : Type 0
  pub IoError : Type 0
  pub content : Buffered → List ℕ
  pub written : Buffered → List ℕ
  pub cursor : Buffered → ℕ
  pub write_all : Buffered → List ℕ → Buffered × Result IoError (Unit {0})
  pub seek : Buffered → ℕ → Buffered × Result IoError (Unit {0})
  pub stream_position : Buffered → Buffered × Result IoError ℕ
  pub write_ok :
      (w w' : Buffered) (bytes : List ℕ)
      → write_all w bytes ≡ (w', ok tt)
      → (written w' ≡ overwrite (written w) (cursor w) bytes)
        × (cursor w' ≡ cursor w + length bytes)
  pub seek_ok :
      (w w' : Buffered) (offset : ℕ)
      → seek w offset ≡ (w', ok tt)
      → (written w' ≡ written w) × (content w' ≡ written w) × (cursor w' ≡ offset)
  pub position_ok :
      (w w' : Buffered) (at : ℕ)
      → stream_position w ≡ (w', ok at)
      → (written w' ≡ written w)
        × (content w' ≡ written w)
        × (cursor w' ≡ cursor w)
        × (at ≡ cursor w)
