-- ===== src/Record/Tests.antt =====
-- The theorem on a finished WAV file at a short recording.
use tinypipewire.Common.{ℕ, ◌+◌, ◌≡◌, List, [], ◌∷◌, length, drop, arith}
use tinypipewire.Record.{patch_header}
use tinypipewire.Record.Header.{field, record_all, joined, opened, patch_header-record_all}

abbrev two_buffers : List (List ℕ)
two_buffers = (1 ∷ 2 ∷ 3 ∷ 4 ∷ []) ∷ (5 ∷ 6 ∷ 7 ∷ 8 ∷ []) ∷ []

patch_header-record_all_example :
    let recorded = record_all (opened 48000 2 2 1) two_buffers in
    let file = (patch_header 48000 2 2 1 recorded).file in
    (drop 44 file ≡ joined two_buffers)
    × (field 40 4 file ≡ length (joined two_buffers))
    × (field 4 4 file + 8 ≡ length file)
    × (field 20 2 file ≡ 1)
    × (field 22 2 file ≡ 2)
    × (field 24 4 file ≡ 48000)
unfolding joined
patch_header-record_all_example =
    patch_header-record_all 48000 2 2 1 two_buffers (omega arith) (omega arith) (omega arith)
      (omega arith)
