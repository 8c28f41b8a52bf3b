-- ===== src/Record/Header.antt =====
-- That a finished WAV file of src/utils/pwf_record.c says what it holds.
use tinypipewire.Common.{
  ℕ, ◌+◌, ◌*◌, ◌%◌, ◌^◌, ◌<◌, ◌≡◌, refl, ◌∙◌, ap, sym, true, List, [], ◌∷◌, ◌++◌, append-nil,
  append_assoc, length, length-append, take, drop, ◌==◌, arith,
}
use tinypipewire.Record.{RecordCtx, wav, on_data, put_le16, put_le32, wav_header, patch_header}

-- The number in little-endian bytes
pub le_number : List ℕ → ℕ
le_number [] = 0
le_number (b ∷ bytes) = b + 256 * le_number bytes

-- A field of a file: so many bytes at an offset.
abbrev pub field : ℕ → ℕ → List ℕ → ℕ
field offset size file = le_number (take size (drop offset file))

take_all : (xs : List ℕ) → take (length xs) xs ≡ xs
take_all [] = refl
take_all (x ∷ xs) = ap (λ l. x ∷ l) (take_all xs)

le32 : (v : ℕ) → v < 2 ^ 32 → le_number (put_le32 v) ≡ v
unfolding le_number put_le32
le32 v small = omega arith

le16 : (v : ℕ) → v < 2 ^ 16 → le_number (put_le16 v) ≡ v
unfolding le_number put_le16
le16 v small = omega arith

-- What a recording writes of its buffers, each of them whole.
pub record_all : RecordCtx → List (List ℕ) → RecordCtx
record_all ctx [] = ctx
record_all ctx (bytes ∷ buffers) = record_all (on_data (length bytes) ctx bytes) buffers

unfoldable pub joined : List (List ℕ) → List ℕ
joined [] = []
joined (bytes ∷ buffers) = bytes ++ joined buffers

record_all-file :
    (buffers : List (List ℕ)) (ctx : RecordCtx)
    → ctx.format ≡ wav
    → ctx.bytes_written < 2 ^ 32
    → let last = record_all ctx buffers in
      (last.file ≡ ctx.file ++ joined buffers)
      × (last.bytes_written ≡ (ctx.bytes_written + length (joined buffers)) % 2 ^ 32)
unfolding record_all joined on_data
record_all-file [] ctx w small = (sym (append-nil ctx.file), omega arith)
record_all-file (bytes ∷ buffers) ctx w small =
    let next = on_data (length bytes) ctx bytes in
    let same : (length bytes == length bytes) ≡ true = ground arith in
    let whole : take (length bytes) bytes ≡ bytes = take_all bytes in
    let file : next.file ≡ ctx.file ++ bytes = rw (w, whole) refl in
    let counted : next.bytes_written ≡ (ctx.bytes_written + length bytes % 2 ^ 32) % 2 ^ 32 =
      rw same refl in
    let (f, n) = record_all-file buffers next w (omega (arith, counted)) in
    (
      f ∙ ap (λ l. l ++ joined buffers) file ∙ append_assoc ctx.file bytes (joined buffers),
      n ∙ omega (arith, counted, length-append bytes (joined buffers)),
    )

-- The file as the recording opens it, with the header that takes the place.
abbrev pub opened : ℕ → ℕ → ℕ → ℕ → RecordCtx
opened sample_rate channels bytes_per_sample wav_tag = record {
  file = wav_header sample_rate channels bytes_per_sample wav_tag 0;
  format = wav;
  bytes_written = 0;
}

-- A WAV recording that is written whole and stays below 4 GiB with its header says what it holds: after
-- 44 bytes its file has the recorded bytes in their order; the size of the data that the header
-- gives is their number, the size of the file that it gives is the file's without its first
-- eight bytes, and the tag, the channels and the sample rate are read back as they were given.
pub patch_header-record_all :
    (sample_rate channels bytes_per_sample wav_tag : ℕ) (buffers : List (List ℕ))
    → 44 + length (joined buffers) < 2 ^ 32
    → sample_rate < 2 ^ 32
    → channels < 2 ^ 16
    → wav_tag < 2 ^ 16
    → let recorded = record_all (opened sample_rate channels bytes_per_sample wav_tag) buffers in
      let file = (patch_header sample_rate channels bytes_per_sample wav_tag recorded).file in
      (drop 44 file ≡ joined buffers)
      × (field 40 4 file ≡ length (joined buffers))
      × (field 4 4 file + 8 ≡ length file)
      × (field 20 2 file ≡ wav_tag)
      × (field 22 2 file ≡ channels)
      × (field 24 4 file ≡ sample_rate)
unfolding patch_header wav_header
patch_header-record_all rate channels width tag buffers fits r c t =
    let start = opened rate channels width tag in
    let (f, n) = record_all-file buffers start refl (omega arith) in
    let recorded = record_all start buffers in
    let size : recorded.bytes_written ≡ length (joined buffers) = omega (arith, n) in
    let tail : drop 44 recorded.file ≡ joined buffers = rw f refl in
    let header = wav_header rate channels width tag recorded.bytes_written in
    let file = (patch_header rate channels width tag recorded).file in
    let size_field : field 40 4 file ≡ recorded.bytes_written =
      le32 recorded.bytes_written (omega (arith, size)) in
    let riff_field : field 4 4 file ≡ (36 + recorded.bytes_written) % 2 ^ 32 =
      le32 ((36 + recorded.bytes_written) % 2 ^ 32) (omega arith) in
    let tag_field : field 20 2 file ≡ tag = le16 tag t in
    let channels_field : field 22 2 file ≡ channels % 2 ^ 16 =
      le16 (channels % 2 ^ 16) (omega arith) in
    let rate_field : field 24 4 file ≡ rate % 2 ^ 32 = le32 (rate % 2 ^ 32) (omega arith) in
    let whole : length file ≡ 44 + length (joined buffers) =
      length-append header (drop 44 recorded.file) ∙ ap (λ l. 44 + length l) tail in
    (
      tail,
      size_field ∙ size,
      omega (arith, riff_field, size, whole),
      tag_field,
      omega (arith, channels_field),
      omega (arith, rate_field),
    )
