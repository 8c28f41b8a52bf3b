-- ===== src/Dmabuf.antt =====
-- src/pwf_dmabuf.c: whether a buffer is backed by DMABUF, and its planes.
mod Tests
pub mod Planes
use tinypipewire.Common.{
  ℕ, zero, suc, ◌+◌, ◌%◌, ◌^◌, Bool, false, Option, none, some, List, [], ◌∷◌, length, set, ltb,
  ◌==◌, if◌then◌else◌,
}
use tinypipewire.Common.Int.{ℤ, to_unsigned}
use tinypipewire.Types.{SpaBuffer, SpaData, is_dma_buf}

-- `pwf_dmabuf_buffer_present`
unfoldable pub dmabuf_buffer_present : Option SpaBuffer → Bool
dmabuf_buffer_present none = false
dmabuf_buffer_present (some b) = if b.n_datas == 0 then false else is_dma_buf (b.datas 0).type

-- `struct pwf_dmabuf_plane`
pub record Plane : Type 0 where
  pub fd : ℤ
  pub offset : ℕ
  pub stride : ℕ
  pub size : ℕ

-- What the loop writes for one entry of the buffer.
unfoldable pub plane_of : SpaData → Plane
plane_of d = record {
  fd = d.fd;
  offset = d.mapoffset;
  stride = elim d.chunk [ none ↦ 0 | some c ↦ to_unsigned (2 ^ 32) c.stride ];
  size = elim d.chunk [ none ↦ d.maxsize | some c ↦ c.size ];
}

-- The loop from entry i on, with the entries left. The caller's array is `none` where it is null, and
-- has at least `len` places.
extract_loop : SpaBuffer → ℕ → ℕ → ℕ → ℕ → Option (List Plane) → ℕ × Option (List Plane)
unfolding plane_of
extract_loop b len zero i count planes = (count, planes)
extract_loop b len (suc left) i count planes =
    let d = b.datas i in
    let filled : Option (List Plane) = elim planes [
      | none ↦ none
      | some out ↦ some (if ltb count len then set out count (plane_of d) else out)
    ] in
    extract_loop b len left (suc i) (if is_dma_buf d.type then count + 1 else count)
      (if is_dma_buf d.type then filled else planes)

-- `pwf_dmabuf_extract_planes`: the count and the caller's array.
unfoldable pub dmabuf_extract_planes :
    Option SpaBuffer → Option (List Plane) → ℕ → ℕ × Option (List Plane)
unfolding extract_loop
dmabuf_extract_planes none planes len = (0, planes)
dmabuf_extract_planes (some b) planes len = extract_loop b len b.n_datas 0 0 planes
