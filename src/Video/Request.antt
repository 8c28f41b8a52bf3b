-- ===== src/Video/Request.antt =====
-- The request for a node's formats, `pwf_pw_enum_video_formats` of src/pwf_video_enum.c.
use tinypipewire.Common.{
  ℕ, Bool, not, ◌||◌, ◌==◌, ◌-◌, Option, none, some, List, [], ◌∷◌, ◌++◌, ◌<◌, ◌^◌, ◌≡◌, refl, ◌∙◌,
  String, if◌then◌else◌, length, take, drop, arith, ap,
}
use tinypipewire.Common.Int.{is_negative}
use tinypipewire.Types.{Code, ok, invalid_arg, connect_failed}
use tinypipewire.Wait.{Waits, await, handle_all, delivered, await-delivered}
use tinypipewire.Core.{CoreCall, lock, unlock, error_from_sync}
use tinypipewire.Core.Sync.{asked}
use tinypipewire.Common.Int.{ℤ, negsuc}
use tinypipewire.Registry.Bind.{RegistryEvent, Bound, on_registry_event}
use tinypipewire.Video.Enumerate.{FormatParam, FormatInfo, EnumCtx, on_param}
use tinypipewire.Video.Enumerate.CountThenFill.{ParamEvent, run, usable, run_fills}

-- What arrives while the formats are read: the node's params among the registry's and the core's events.
pub data FormatEvent : Type 0 where
  at_registry : RegistryEvent → FormatEvent
  param : (is_enum_format : Bool) → Option FormatParam → FormatEvent

-- What the handlers see.
pub record Reading : Type 0 where
  pub bound : Bound
  pub ctx : EnumCtx

-- Whether the node can be bound, the number of the round-trip, and what arrives during it.
pub record FormatRequest : Type 0 where
  pub made : Bool
  pub seq : ℕ
  pub waits : Waits FormatEvent

-- What the request leaves: `written` is the caller's array.
pub record Formats : Type 0 where
  pub code : Code
  pub found : ℕ
  pub written : Option (List FormatInfo)
  pub bound : Bound
  pub calls : List CoreCall

-- An early return.
abbrev pub refuse_formats : Code → Option (List FormatInfo) → Bound → Formats
refuse_formats code out b = record { code = code; found = 0; written = out; bound = b; calls = [] }

module _ (strtoull : String → ℕ) (etimedout : ℕ) where
  unfoldable pub on_format_event : Reading → FormatEvent → Reading
  on_format_event r (at_registry e) = record r {
    bound = on_registry_event strtoull etimedout r.bound e;
  }
  on_format_event r (param id p) = record r { ctx = on_param r.ctx id p }

  -- The connection's result after the round-trip, with what the handlers left.
  unfoldable pub read_formats : FormatRequest → EnumCtx → Bound → ℤ × Reading
  read_formats env ctx b =
      let (r, late) =
        await on_format_event (λ (s : Reading). s.bound.conn.sync_done)
          (record { bound = record b { conn = asked b.conn env.seq }; ctx = ctx }) env.waits in
      let result = if late then negsuc (etimedout - 1) else r.bound.conn.connect_result in
      (
        result,
        record r {
          bound = record r.bound { conn = record r.bound.conn { connect_result = result } };
        },
      )

  -- `pwf_pw_enum_video_formats`
  unfoldable pub enum_video_formats : FormatRequest → ℕ → Option (List FormatInfo) → Bound → Formats
  unfolding read_formats
  enum_video_formats env node_id out b =
      let ctx : EnumCtx = record {
        out = out;
        out_len = elim out [ none ↦ 0 | some buf ↦ length buf ];
        found = 0;
      } in
      let (res, r) = read_formats env ctx b in
      if not b.conn.core || not b.registry.bound || node_id == 0
      then refuse_formats invalid_arg out b
      else if not env.made
      then record {
        code = connect_failed;
        found = 0;
        written = out;
        bound = b;
        calls = lock ∷ unlock ∷ [];
      }
      else record {
        code = if is_negative res then error_from_sync etimedout res else ok;
        found = if is_negative res then 0 else r.ctx.found;
        written = r.ctx.out;
        bound = r.bound;
        calls = lock ∷ unlock ∷ [];
      }

  -- The params among the events.
  unfoldable pub params : List FormatEvent → List ParamEvent
  params [] = []
  params (at_registry e ∷ events) = params events
  params (param id p ∷ events) = (id, p) ∷ params events

  handle_all-run :
      (events : List FormatEvent) (r : Reading)
      → (handle_all on_format_event r events).ctx ≡ run r.ctx (params events)
  unfolding handle_all on_format_event run params
  handle_all-run [] r = refl
  handle_all-run (at_registry e ∷ events) r =
      handle_all-run events (on_format_event r (at_registry e))
  handle_all-run (param id p ∷ events) r = handle_all-run events (on_format_event r (param id p))

  -- The events of the request.
  abbrev pub answers : FormatRequest → List FormatInfo → Bound → List FormatEvent
  answers env buf b =
      delivered on_format_event (λ (s : Reading). s.bound.conn.sync_done)
        (record {
          bound = record b { conn = asked b.conn env.seq };
          ctx = record { out = some buf; out_len = length buf; found = 0 };
        })
        env.waits

  -- A request that succeeds tells how many formats that the library can express the node has announced, also
  -- where the caller's array is shorter, and the array holds the first of them, in the order of
  -- arrival and whatever else arrived between, with its other places as they were, if fewer than
  -- 2^64 params arrive.
  pub enum_video_formats_fills :
      (env : FormatRequest) (node_id : ℕ) (buf : List FormatInfo) (b : Bound)
      → length (params (answers env buf b)) < 2 ^ 64
      → (enum_video_formats env node_id (some buf) b).code ≡ ok
      → let formats = usable (params (answers env buf b)) in
        let r = enum_video_formats env node_id (some buf) b in
        (r.found ≡ length formats)
        × (r.written ≡ some (take (length buf) formats ++ drop (length formats) buf))
  unfolding enum_video_formats read_formats error_from_sync
  enum_video_formats_fills env node_id buf b h success =
      let start : Reading = record {
        bound = record b { conn = asked b.conn env.seq };
        ctx = record { out = some buf; out_len = length buf; found = 0 };
      } in
      let events = answers env buf b in
      let ended =
        ap (λ (r : Reading). r.ctx)
          (await-delivered on_format_event (λ (s : Reading). s.bound.conn.sync_done) start
            env.waits)
        ∙ handle_all-run events start
        ∙ run_fills (params events) buf h in
      ground (arith, ended, success)
