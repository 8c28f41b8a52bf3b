-- ===== src/Types.antt =====
-- include/pwf/pwf_types.h: the data kinds and the result codes of the public API, and the parts of
-- PipeWire's buffer structures that the library reads or writes.
use tinypipewire.Common.{ℕ, Bool, true, false, Option, List}
use tinypipewire.Common.Int.{ℤ}

-- `enum pwf_data_type`
pub data DataType : Type 0 where
  audio video signal event : DataType

-- `enum pwf_error`, with `PWF_OK` as `ok`
pub data Code : Type 0 where
  ok invalid_arg connect_failed invalid_format not_configured : Code
  source_unavailable in_callback not_found timeout no_memory : Code

-- `enum pwf_port_memory`
pub data PortMemory : Type 0 where
  auto dmabuf : PortMemory

-- The memory type of a `struct spa_data`; `other` is any that the library has no name for.
pub data SpaDataType : Type 0 where
  mem_ptr mem_fd dma_buf other : SpaDataType

-- `d->type == SPA_DATA_DmaBuf`
abbrev pub is_dma_buf : SpaDataType → Bool
is_dma_buf SpaDataType.dma_buf = true
is_dma_buf _ = false

-- `struct spa_chunk`
pub record Chunk : Type 0 where
  pub offset : ℕ
  pub size : ℕ
  pub stride : ℤ

-- `struct spa_data`. `mapped` is what its `data` pointer leads to, `none` for a null pointer.
pub record SpaData : Type 0 where
  pub type : SpaDataType
  pub mapped : Option (List ℕ)
  pub maxsize : ℕ
  pub chunk : Option Chunk
  pub fd : ℤ
  pub mapoffset : ℕ

-- `struct spa_buffer`. `datas i` is the entry at index i, whatever memory holds past `n_datas`.
-- `header_pts` is the `pts` of the SPA_META_Header that the buffer carries, if it carries one.
pub record SpaBuffer : Type 0 where
  pub n_datas : ℕ
  pub datas : ℕ → SpaData
  pub header_pts : Option ℤ

-- `struct pw_buffer`, with the address that tells one buffer of the pool from another
pub record PwBuffer : Type 0 where
  pub address : ℕ
  pub buffer : SpaBuffer
  pub requested : ℕ
  pub size : ℕ
