-- ===== src/Bootstrap/Serve.antt =====
-- The main loop of src/bin/xaeroflux_bootstrap.rs: an event of the node, or the tick that reconnects. The two
-- ticks that print are in Bootstrap/Reports.antt. `println!` always evaluates its arguments, so a slice
-- inside a character panics and ends the program.
use Prim.Native.String.{len}
use text.Mathlib.Text.{get?}
use xaeroflux.Prelude.{
  ℕ, ◌+◌, ◌%◌, ◌^◌, String, Bool, true, false, ◌&&◌, not, Option, none, some, List, [], ◌∷◌, min,
  if◌then◌else◌,
}
use xaeroflux.Event.{Event}
use xaeroflux.Discovery.Actions.{short_slice, Exit, ok, panic}
use xaeroflux.Bootstrap.Texts.{strip_prefix}
use xaeroflux.Bootstrap.Records.{NetworkEvent, RawEvent}
use xaeroflux.Bootstrap.Scope.{ScopeTracker, text_or}
use xaeroflux.Bootstrap.Convert.{Printer, convert_network_event}
use xaeroflux.Bootstrap.Iggy.{Client, IggyConnection, connect, send_raw_event}

-- What wakes the loop: an event, with the id and the time that the conversion uses, and the tick.
pub data Wake : Type 0 where
  event : Event → String → ℕ → Wake
  iggy_retry : Wake

-- The group of the event's topic.
unfoldable pub group_of_topic : String → String
group_of_topic source = text_or source (strip_prefix "group/" source)

-- f64, JSON's printer, `from_str::<NetworkEvent>`, and whether the level `debug` is on.
pub record Setup : Type 1 where
  pub F : Type 0
  pub P : Printer
  pub decode : String → Option (NetworkEvent F)
  pub is_debug : Bool

-- `fetch_add(1)` on an AtomicU64.
abbrev pub add_one : ℕ → ℕ
add_one n = (n + 1) % 2 ^ 64

module _ (C : Client) where
  pub record Server : Type 0 where
    pub tracker : ScopeTracker
    pub iggy : IggyConnection C
    pub world : C.World
    pub events_received : ℕ
    pub events_converted : ℕ
    pub events_forwarded : ℕ

  abbrev pub printed : Option String → Server → Exit (Unit {0}) × Server
  printed none s = (panic, s)
  printed (some _) s = (ok tt, s)

  -- The outcome of the send.
  abbrev pub after_forward : Option String → RawEvent → Server → Exit (Unit {0}) × Server
  after_forward (some e) raw s = (ok tt, s)
  after_forward none raw s =
      printed (short_slice raw.external_id)
        (record s { events_forwarded = add_one s.events_forwarded })

  unfoldable pub forward : Option RawEvent → Server → Exit (Unit {0}) × Server
  forward none s = (ok tt, s)
  forward (some raw) s =
      let (result, conn, w) = send_raw_event C raw s.iggy s.world in
      after_forward result raw
        (record s { iggy = conn; world = w; events_converted = add_one s.events_converted })

  abbrev pub has_client : Option C.Handle → Bool
  has_client none = false
  has_client (some h) = true

  unfoldable pub on_iggy_retry : Server → Server
  on_iggy_retry s =
      let (e, conn, w) = connect C s.iggy s.world in
      if s.iggy.enabled && not (has_client s.iggy.client)
      then record s { iggy = conn; world = w }
      else s

  abbrev pub serve_rest :
      Exit (Unit {0}) → Exit (Unit {0}) × Server → Server → Exit (Unit {0}) × Server
  serve_rest (ok _) rest s = rest
  serve_rest panic rest s = (panic, s)

module _ (C : Client) (setup : Setup) where
  open setup use {F, P, decode, is_debug}

  -- A payload that parsed, once the first line is printed.
  abbrev pub converted :
      Option String → NetworkEvent F → String → String → ℕ → Server C → Exit (Unit {0}) × Server C
  converted none e topic new_id now s = (panic, s)
  converted (some _) e topic new_id now s =
      let (raw, t) = convert_network_event P new_id now e topic s.tracker in
      forward C raw (record s { tracker = t })

  abbrev pub on_decoded :
      Option (NetworkEvent F) → Event → String → ℕ → Server C → Exit (Unit {0}) × Server C
  on_decoded none e new_id now s =
      if is_debug then printed C (get? e.payload 0 (min 50 (len e.payload))) s else (ok tt, s)
  on_decoded (some net_event) e new_id now s =
      let topic = group_of_topic e.source in
      converted (short_slice topic) net_event topic new_id now s

  unfoldable pub on_event : Event → String → ℕ → Server C → Exit (Unit {0}) × Server C
  on_event e new_id now s =
      on_decoded (decode e.payload) e new_id now
        (record s { events_received = add_one s.events_received })

  abbrev pub wake : Wake → Server C → Exit (Unit {0}) × Server C
  wake (event e new_id now) s = on_event e new_id now s
  wake iggy_retry s = (ok tt, on_iggy_retry C s)

  -- The loop.
  unfoldable pub serve : List Wake → Server C → Exit (Unit {0}) × Server C
  serve [] s = (ok tt, s)
  serve (w ∷ wakes) s =
      let (r, s') = wake w s in let rest = serve wakes s' in serve_rest C r rest s'
