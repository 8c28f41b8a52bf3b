-- ===== src/Filter/Process/Encoded.antt =====
-- Output event ports: what a cycle encodes fits the buffer that the cycle dequeued.
use tinypipewire.Filter.State.{Event}
