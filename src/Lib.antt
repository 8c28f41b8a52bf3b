-- ===== src/Lib.antt =====
-- Verification of tinypipewire, a C library over PipeWire for audio and video capture, audio
-- playback, and filters of several ports.
--
-- The program's parts, and the files that model them:
-- - Types: include/pwf/pwf_types.h, and the parts of PipeWire's buffers that the library touches.
-- - RateLimit: src/pwf_rate_limit.c (`rate_limited`); `report` is what each caller does with it.
-- - Format: the tables and lookups of src/pwf_spa_format.c, and the frame size of
--   src/pwf_audio_format.c.
-- - Video: src/pwf_video_enum.c. Framerates is `pwf_video_insert_framerate`, Enumerate the parsing of
--   one EnumFormat object and the handler that collects them (`on_param`), Request the request for a
--   node's formats with its round-trip.
-- - Wait: the bounded waits on the thread loop, which Core and Stream share.
-- - Core: the connection part of src/pwf_pw_core.c, with what creating a stream or a filter shares of it
--   in Opened; Registry: its caches and lookups, and binding the registry in Bind.
-- - Dmabuf: src/pwf_dmabuf.c.
-- - Stream: State is `struct pwf_stream`; Settings is src/pwf_stream.c's settings with
--   src/pwf_audio_format.c and src/pwf_video_format.c; Events is what the events of the PipeWire stream
--   do, those that its destruction dispatches included; Running is start and stop, and in
--   Running/States every history of a stream;
--   Playback is src/pwf_stream_playback.c; Capture is src/pwf_buffer.c with the DMABUF accessor;
--   Links is the set of links of src/pwf_stream_routing.c, with its release and the loss of the device,
--   Routing its linking, with the wait for the own ports in Routing/Device, Targets its lists of targets
--   and formats;
--   Session is creating and destroying a stream.
-- - Filter: State is `struct pwf_filter_port`; Event is src/pwf_filter_event.c; Push is
--   `pwf_filter_push_port_data`; Process is src/pwf_filter_process.c for one port, Process/Cycle the
--   whole of its callback, and Process/Mailbox what pushes and cycles are together. Ports is the rest of
--   src/pwf_filter_port.c; Lifecycle and Session are src/pwf_filter.c, with Lifecycle/Sound for every
--   history of a filter; Link, Target and Formats are src/pwf_filter_port_link.c, with the handlers of
--   src/pwf_filter.c and src/pwf_filter_dmabuf.c that a port's link meets.
-- - Log: src/pwf_log.c.
-- - Loopback: the ring of utils/pwf_stream_loopback.c; Record: the file of utils/pwf_record.c.
-- - Common: names that the other modules share.
--
-- How the parts interact: a process callback of a stream or a filter dequeues a buffer of the graph,
-- shows it to the application, and queues it back. The application stages data and events for a
-- filter's input ports by Push and Event, which a cycle takes. Core waits for the server, and its
-- events reach the registry's caches, in which targets and ports are looked up.
--
-- Conventions. A function keeps the name of its C function without the prefix `pwf_` and the
-- component's name. A pointer is an option or a Boolean, an array with its count a list, a call of
-- PipeWire an item in a list of calls. `uint64_t`, `uint32_t` and `int` keep their range: wrap-around is
-- written out, except for sizes of memory blocks, which no address space reaches. Allocations that may
-- fail take their answer as an argument, PipeWire's answers are arguments too, and an application
-- callback is a function. No loop has fuel: each runs over a list or a count, and a wait runs over the
-- batches of events that arrive before its deadline; for a draining filter these are also its process
-- callbacks.
--
-- Each call of the loopback ring is one step, the writer's at its release store of the write position:
-- the bytes that it copies before lie outside what the reader may read. A target of a filter's link is
-- a list of views of the registry, one for each round-trip that its search makes.
--
-- Not modelled: the builders of SPA parameters, the formatting of log messages and the log's lock,
-- freeing of memory, what arrives between two links of one call that links a stream, the command lines
-- and main loops of the utilities, and the examples and tests.
pub mod Common
pub mod Types
pub mod RateLimit
pub mod Format
pub mod Video
pub mod Registry
pub mod Log
pub mod Loopback
pub mod Record
pub mod Wait
pub mod Core
pub mod Dmabuf
pub mod Stream
pub mod Filter
