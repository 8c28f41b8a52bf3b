-- ===== src/Record.antt =====
-- src/utils/pwf_record.c: the file that a recording is written to.
mod Tests
pub mod Header
use tinypipewire.Common.{
  ℕ, ◌+◌, ◌*◌, ◌/◌, ◌%◌, ◌^◌, Bool, true, false, List, [], ◌∷◌, ◌++◌, length, take, drop, ◌==◌,
  if◌then◌else◌,
}

-- `enum record_format`
pub data RecordFormat : Type 0 where
  unset wav pcm raw y4m : RecordFormat

abbrev pub is_y4m : RecordFormat → Bool
is_y4m y4m = true
is_y4m _ = false

-- `struct record_ctx`, with the bytes of its file.
pub record RecordCtx : Type 0 where
  pub file : List ℕ
  pub format : RecordFormat
  pub bytes_written : ℕ

-- "FRAME\n"
abbrev pub frame_mark : List ℕ
frame_mark = 70 ∷ 82 ∷ 65 ∷ 77 ∷ 69 ∷ 10 ∷ []

-- `on_data` of the bytes of a buffer; `wrote` is how many of them `fwrite` writes.
unfoldable pub on_data : ℕ → RecordCtx → List ℕ → RecordCtx
on_data wrote ctx bytes =
    let marked = if is_y4m ctx.format then ctx.file ++ frame_mark else ctx.file in
    record ctx {
      file = marked ++ take wrote bytes;
      bytes_written =
          if wrote == length bytes
          then (ctx.bytes_written + length bytes % 2 ^ 32) % 2 ^ 32
          else ctx.bytes_written;
    }

-- `put_le16` and `put_le32`
unfoldable pub put_le16 : ℕ → List ℕ
put_le16 v = v % 256 ∷ v / 256 % 256 ∷ []

unfoldable pub put_le32 : ℕ → List ℕ
put_le32 v = v % 256 ∷ v / 256 % 256 ∷ v / 65536 % 256 ∷ v / 16777216 % 256 ∷ []

-- `write_wav_header`; the numbers are not negative.
unfoldable pub wav_header : ℕ → ℕ → ℕ → ℕ → ℕ → List ℕ
unfolding put_le16 put_le32
wav_header sample_rate channels bytes_per_sample wav_tag data_size =
    let byte_rate = sample_rate * channels * bytes_per_sample % 2 ^ 32 in
    let block_align = channels * bytes_per_sample % 2 ^ 16 in
    let bits_per_sample = bytes_per_sample * 8 % 2 ^ 16 in
    (82 ∷ 73 ∷ 70 ∷ 70 ∷ [])
    ++ put_le32 ((36 + data_size) % 2 ^ 32)
    ++ (87 ∷ 65 ∷ 86 ∷ 69 ∷ [])
    ++ (102 ∷ 109 ∷ 116 ∷ 32 ∷ [])
    ++ put_le32 16
    ++ put_le16 wav_tag
    ++ put_le16 (channels % 2 ^ 16)
    ++ put_le32 (sample_rate % 2 ^ 32)
    ++ put_le32 byte_rate
    ++ put_le16 block_align
    ++ put_le16 bits_per_sample
    ++ (100 ∷ 97 ∷ 116 ∷ 97 ∷ [])
    ++ put_le32 data_size

-- The header is written again at the file's start.
unfoldable pub patch_header : ℕ → ℕ → ℕ → ℕ → RecordCtx → RecordCtx
unfolding wav_header
patch_header sample_rate channels bytes_per_sample wav_tag ctx =
    let header = wav_header sample_rate channels bytes_per_sample wav_tag ctx.bytes_written in
    record ctx { file = header ++ drop (length header) ctx.file }
