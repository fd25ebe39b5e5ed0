-- ===== src/Schema/Read.antt =====
-- `Read` of kobzar/src/q_engine/storage/schema.rs.
use kobzar.Base.{
  take-known, drop-known, drop-drop, ℕ, ◌≡◌, refl, ap, sym, ◌∙◌, List, ◌++◌, take, drop,
}
use kobzar.Base.Results.{Result, ok, err}
use kobzar.Heap.File.{RawFile, BufReader, SeekReader}
use kobzar.Heap.Read.{mapped}
use kobzar.Schema.{
  RecordHeader, AdtVariant, FieldCount, Field, header_from_bytes, variant_from_bytes,
  count_from_bytes, field_from_bytes,
}

module _ (r : RawFile) (b : BufReader r) (sk : SeekReader b) where
  open b use {Buffered, file, ahead, read, read_stream, read_file}
  open sk use {seek, seek_ok}

  abbrev pub Answer : Type 0 → Type 0
  Answer A = Buffered × Result (RawFile.IoError r) A

  -- `Read` is a wrapper of its reader.
  abbrev pub header_after : Answer (Unit {0}) → Answer RecordHeader
  header_after (s, err e) = (s, err e)
  header_after (s, ok _) = mapped header_from_bytes (read s 16)

  unfoldable pub goto_record_read : Buffered → ℕ → Answer RecordHeader
  goto_record_read s offset = header_after (seek s offset)

  unfoldable pub read_adt_variant : Buffered → Answer AdtVariant
  read_adt_variant s = mapped variant_from_bytes (read s 32)

  unfoldable pub read_field_count : Buffered → Answer FieldCount
  read_field_count s = mapped count_from_bytes (read s 2)

  unfoldable pub read_field : Buffered → Answer Field
  read_field s = mapped field_from_bytes (read s 80)

  -- what the reader still has to hand out
  abbrev pub stream : Buffered → List ℕ
  stream s = ahead s ++ drop (r.cursor (file s)) (r.content (file s))

  mapped-ok :
      {A : Type 0} (f : List ℕ → A) (s : Buffered) (a : A) (p : Answer (List ℕ))
      → mapped f p ≡ (s, ok a)
      → (bytes : List ℕ) × (p ≡ (s, ok bytes)) × (f bytes ≡ a)
  mapped-ok f s a (s', err e) was_read = cc (ap (λ (p : Answer _). p.1) was_read)
  mapped-ok f s a (s', ok bytes) was_read =
      let same : s' ≡ s = ap (λ (p : Answer _). p.0) was_read in
      let answer : ◌≡◌ {A = Result (RawFile.IoError r) _} (ok (f bytes)) (ok a) =
        ap (λ (p : Answer _). p.1) was_read in
      (bytes, ap (λ (x : Buffered). (x, ok bytes)) same, cc answer)

  -- a read takes the first bytes of the stream
  read-stream :
      {A : Type 0} (f : List ℕ → A) (n : ℕ) (s s' : Buffered) (a : A)
      → mapped f (read s n) ≡ (s', ok a)
      → (a ≡ f (take n (stream s))) × (stream s' ≡ drop n (stream s))
  read-stream f n s s' a was_read =
      let (bytes, read_bytes, same) = mapped-ok f s' a (read s n) was_read in
      let (size, split) = read_stream s s' n bytes read_bytes in
      (
        sym same ∙ ap f (sym (rw split (take-known bytes _ n size))),
        sym (rw split (drop-known bytes _ n size)),
      )

  header_after-stream :
      (s₁ : Buffered) (header : RecordHeader) (p : Answer (Unit {0}))
      → header_after p ≡ (s₁, ok header)
      → (s : Buffered) × (p ≡ (s, ok tt)) × (mapped header_from_bytes (read s 16) ≡ (s₁, ok header))
  header_after-stream s₁ header (s, err e) was_read =
      cc (ap (λ (p : Answer RecordHeader). p.1) was_read)
  header_after-stream s₁ header (s, ok tt) was_read = (s, refl, was_read)

  -- Whatever the reader holds ahead, a goto_record_read, read_adt_variant and read_field that
  -- succeed in turn decode the 16 bytes of the file at the offset, the next 32 bytes and the next
  -- 80 bytes.
  pub goto_record_read-fields :
      (s s₁ s₂ s₃ : Buffered) (offset : ℕ) (header : RecordHeader) (variant : AdtVariant)
      (field : Field)
      → goto_record_read s offset ≡ (s₁, ok header)
      → read_adt_variant s₁ ≡ (s₂, ok variant)
      → read_field s₂ ≡ (s₃, ok field)
      → let bytes = drop offset (r.content (file s)) in
        (header ≡ header_from_bytes (take 16 bytes))
        × (variant ≡ variant_from_bytes (take 32 (drop 16 bytes)))
        × (field ≡ field_from_bytes (take 80 (drop 48 bytes)))
  unfolding goto_record_read read_adt_variant read_field
  goto_record_read-fields s s₁ s₂ s₃ offset header variant field got_header got_variant got_field =
      let bytes = drop offset (r.content (file s)) in
      let (s₀, sought, header_read) = header_after-stream s₁ header (seek s offset) got_header in
      let (emptied, at, held) = seek_ok s s₀ offset sought in
      let start : stream s₀ ≡ bytes = rw (emptied, at, held) refl in
      let (is_header, rest₁) = read-stream header_from_bytes 16 s₀ s₁ header header_read in
      let (is_variant, rest₂) = read-stream variant_from_bytes 32 s₁ s₂ variant got_variant in
      let (is_field, _) = read-stream field_from_bytes 80 s₂ s₃ field got_field in
      let after_header : stream s₁ ≡ drop 16 bytes = rest₁ ∙ ap (drop 16) start in
      let after_variant : stream s₂ ≡ drop 48 bytes =
        rest₂ ∙ ap (drop 32) after_header ∙ drop-drop bytes 16 32 in
      (
        is_header ∙ ap (λ x. header_from_bytes (take 16 x)) start,
        is_variant ∙ ap (λ x. variant_from_bytes (take 32 x)) after_header,
        is_field ∙ ap (λ x. field_from_bytes (take 80 x)) after_variant,
      )
