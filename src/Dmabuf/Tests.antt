-- ===== src/Dmabuf/Tests.antt =====
-- The theorem on src/pwf_dmabuf.c at a buffer of three entries and an array of one place.
use tinypipewire.Common.{ℕ, ◌+◌, ◌≡◌, none, some, List, [], ◌∷◌, ◌++◌, length, take, drop}
use tinypipewire.Common.Int.{pos}
use tinypipewire.Types.{SpaData, SpaBuffer, dma_buf}
use tinypipewire.Dmabuf.{Plane, dmabuf_extract_planes}
use tinypipewire.Dmabuf.Planes.{dmabuf_extract_planes_lem, planes_from}

abbrev entry : ℕ → SpaData
entry i = record {
  type = dma_buf;
  mapped = none;
  maxsize = 100;
  chunk = none;
  fd = pos (30 + i);
  mapoffset = 0;
}

abbrev three_entries : SpaBuffer
three_entries = record { n_datas = 3; datas = entry; header_pts = none }

abbrev one_plane : List Plane
one_plane = record { fd = pos 0; offset = 0; stride = 0; size = 0 } ∷ []

dmabuf_extract_planes_lem_example :
    let planes = planes_from three_entries 0 three_entries.n_datas in
    dmabuf_extract_planes (some three_entries) (some one_plane) (length one_plane)
    ≡ (length planes, some (take (length one_plane) planes ++ drop (length planes) one_plane))
dmabuf_extract_planes_lem_example = dmabuf_extract_planes_lem three_entries one_plane
