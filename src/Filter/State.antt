-- ===== src/Filter/State.antt =====
-- `struct pwf_filter_port` of src/pwf_filter_internal.h, with the event structures that it holds.
use tinypipewire.Common.{ℕ, Bool, String, Option, List}
use tinypipewire.Common.Int.{ℤ}
use tinypipewire.Types.{DataType, PwBuffer, SpaBuffer}

-- `enum pwf_filter_port_direction`
pub data PortDirection : Type 0 where
  input output : PortDirection

-- `enum pwf_event_kind`
pub data EventKind : Type 0 where
  midi osc property unknown : EventKind

-- `struct pwf_event`; `bytes` is what its `data` pointer leads to.
pub record Event : Type 0 where
  pub offset : ℕ
  pub kind : EventKind
  pub key : Option String
  pub bytes : Option (List ℕ)
  pub size : ℕ

-- `struct pwf_filter_pending_event`; its `bytes` are an owned copy.
pub record PendingEvent : Type 0 where
  pub offset : ℕ
  pub kind : EventKind
  pub key : Option String
  pub bytes : Option (List ℕ)
  pub size : ℕ

-- A data pointer that reaches the callback: one of the port's own push blocks, by its address, or
-- memory that belongs to a buffer of the graph.
pub data DataRef : Type 0 where
  block : ℕ → DataRef
  graph : List ℕ → DataRef

-- `struct pwf_filter_port`, less the format union and the link fields. Counts are the lists'
-- lengths. `blocks` is the memory of the push blocks, by address.
pub record Port : Type 0 where
  pub direction : PortDirection
  pub media_type : DataType
  pub blocks : ℕ → List ℕ
  pub pushed_data : Option ℕ
  pub pushed_size : ℕ
  pub pushed_capacity : ℕ
  pub pushed_pts : ℤ
  pub pushed_pending : Bool
  pub delivered_data : Option ℕ
  pub delivered_capacity : ℕ
  pub incoming_events : List Event
  pub incoming_events_capacity : ℕ
  pub pending_events : List PendingEvent
  pub pending_events_capacity : ℕ
  pub event_output_capacity : ℕ
  pub delivering_events : List PendingEvent
  pub delivering_events_capacity : ℕ
  pub use_dmabuf : Bool
  pub current_dmabuf_buf : Option SpaBuffer
  pub hold_enabled : Bool
  pub has_held : Bool
  pub held : Option PwBuffer
  pub held_dmabuf_buf : Option SpaBuffer
  pub held_data : Option DataRef
  pub held_size : ℕ
  pub held_pts : ℤ
  pub update_seq : ℕ

-- `struct pwf_filter_port_buffer`, less the port handle
pub record PortBuffer : Type 0 where
  pub contents : Option DataRef
  pub size : ℕ
  pub capacity : ℕ
  pub pts : ℤ
  pub fresh : Bool
  pub seq : ℕ
