-- ===== src/Filter/Session.antt =====
-- src/pwf_filter.c: creating a filter, and destroying it.
pub mod Balanced
use tinypipewire.Common.{
  ℕ, Bool, true, false, not, ◌&&◌, ◌||◌, Option, none, some, is_some, List, [], ◌∷◌, ◌++◌, String,
  if◌then◌else◌,
}
use tinypipewire.Common.Int.{ℤ, is_negative}
use tinypipewire.Wait.{Waits}
use tinypipewire.Core.{
  Conn, ConnectEnv, CoreCall, lock, unlock, GlobalCall, core_connect, core_teardown, global_deinit,
}
use tinypipewire.Core.Opened.{zeroed, Opened, give_up, tear_down, succeed}
use tinypipewire.Registry.{Registry, teardown}
use tinypipewire.Stream.State.{Caller}
use tinypipewire.Stream.Settings.{has_text}
use tinypipewire.Filter.Ports.{Filter, FilterState, is_running}
use tinypipewire.Filter.Lifecycle.{
  FilterRequest, FilterEvent, FilterOutcome, filter_refuse_in_callback, filter_stop,
  release_all_links,
}

-- What `pwf_filter_create` meets: which allocations succeed, how connecting goes, and whether
-- `pw_filter_new` gives a filter.
pub record Creating : Type 0 where
  pub allocated : Bool
  pub name_copied : Bool
  pub core : ConnectEnv
  pub made : Bool

-- The filter before it is connected
abbrev pub fresh_filter : Option String → Conn → Bool → Filter
fresh_filter name conn made = record {
  name = if has_text name then name else none;
  state = FilterState.created;
  ports = [];
  ports_capacity = 0;
  error_cb = false;
  conn = conn;
  pw_filter = made;
  pw_ports = [];
  drained = false;
  period_hint_ns = 0;
}

-- `pwf_filter_create` with a callback, on the count of clients. Without one it returns at once.
unfoldable pub filter_create : Creating → Option String → ℤ → Opened Filter
filter_create env name count =
    let (conn, result, calls) = core_connect zeroed env.core in
    let locked = calls ++ lock ∷ unlock ∷ [] in
    if not env.allocated
    then give_up count [] zeroed
    else if has_text name && not env.name_copied
    then give_up count [] zeroed
    else if is_negative result
    then tear_down count calls conn
    else if not env.made
    then tear_down count locked conn
    else succeed count locked conn (fresh_filter name conn true)

-- `pwf_filter_teardown`
unfoldable pub filter_teardown : Filter → Filter × List CoreCall
filter_teardown filter =
    let down = core_teardown filter.conn in
    let destroyed = if filter.pw_filter && filter.conn.loop then lock ∷ unlock ∷ [] else [] in
    (record filter { pw_filter = false; conn = down.0 }, destroyed ++ down.1)

-- What destroying a filter leaves: nothing of the filter where it goes, the count, what is asked of PipeWire,
-- the registry's caches, and the calls on the connection and of the process-wide initialiser.
pub record Destroyed : Type 0 where
  pub filter : Option Filter
  pub count : ℤ
  pub globals : List GlobalCall
  pub requests : List FilterRequest
  pub registry : Registry
  pub calls : List CoreCall
  pub last : Conn

-- `pwf_filter_destroy` of a filter that is not null, with its registry and the count of clients.
unfoldable pub filter_destroy :
    (ℤ → ℤ → Bool) → Caller → Waits FilterEvent → Filter → Registry → ℤ → Destroyed
filter_destroy same caller waits filter reg count =
    let stopped = filter_stop same caller false waits filter in
    let released = release_all_links filter in
    let (quiet, requests) : Filter × List FilterRequest =
      if is_running filter.state then (stopped.filter, stopped.requests) else released in
    let swept = if quiet.conn.loop then lock ∷ unlock ∷ [] else [] in
    let down = filter_teardown quiet in
    let gone = global_deinit count in
    if filter_refuse_in_callback caller filter true
    then record {
      filter = some filter;
      count = count;
      globals = [];
      requests = [];
      registry = reg;
      calls = [];
      last = filter.conn;
    }
    else record {
      filter = none;
      count = gone.0;
      globals = gone.1;
      requests = requests;
      registry = if quiet.conn.loop then teardown reg else reg;
      calls = swept ++ down.1;
      last = down.0.conn;
    }
