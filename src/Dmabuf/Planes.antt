-- ===== src/Dmabuf/Planes.antt =====
-- Which planes `pwf_dmabuf_extract_planes` finds, and where it puts them.
use tinypipewire.Common.{
  ℕ, zero, suc, ◌+◌, ◌≡◌, ◌∙◌, some, List, [], ◌∷◌, ◌++◌, arith, length, take, drop, set, ltb,
  if◌then◌else◌, overlay, overlay-nil, overlay-cons, overlay_front, length-fill,
}
use tinypipewire.Types.{SpaBuffer, is_dma_buf}
use tinypipewire.Dmabuf.{Plane, plane_of, extract_loop, dmabuf_extract_planes}

-- The planes of the DMABUF entries among n entries from entry i on, in their order.
pub planes_from : SpaBuffer → ℕ → ℕ → List Plane
planes_from b i zero = []
planes_from b i (suc n) =
    let rest = planes_from b (suc i) n in
    if is_dma_buf (b.datas i).type then plane_of (b.datas i) ∷ rest else rest

extract_loop-overlay :
    (b : SpaBuffer) (left i count : ℕ) (out : List Plane)
    → extract_loop b (length out) left i count (some out)
      ≡ (count + length (planes_from b i left), some (overlay count (planes_from b i left) out))
unfolding extract_loop planes_from
extract_loop-overlay b zero i count out = ground (arith, overlay-nil count out)
extract_loop-overlay b (suc left) i count out =
    let p = plane_of (b.datas i) in
    let out' = if ltb count (length out) then set out count p else out in
    ground (
      arith,
      extract_loop-overlay b left (suc i) (suc count) out',
      extract_loop-overlay b left (suc i) count out,
      length-fill out count p,
      overlay-cons count p (planes_from b (suc i) left) out,
    )

-- For a buffer with any number of entries and a caller's array of any length: the result is the number
-- of DMABUF entries, also where the array is too short, and the array holds the planes of the first of
-- these in their order, as many as fit, with its other places as they were.
pub dmabuf_extract_planes_lem :
    (b : SpaBuffer) (out : List Plane)
    → let planes = planes_from b 0 b.n_datas in
      dmabuf_extract_planes (some b) (some out) (length out)
      ≡ (length planes, some (take (length out) planes ++ drop (length planes) out))
unfolding dmabuf_extract_planes
dmabuf_extract_planes_lem b out =
    extract_loop-overlay b b.n_datas 0 0 out
    ∙ ground (arith, overlay_front (planes_from b 0 b.n_datas) out)
