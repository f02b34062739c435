-- ===== src/Network.antt =====
-- The loop of `NetworkActor::run` in src/lib.rs. The gossip network (iroh-gossip) and the JSON codec
-- (serde_json) are parameters: a codec is a pair of functions, and what arrives is an argument.
pub mod Sync
use xaeroflux.Prelude.{ℕ, String, ◌≡◌, Option, none, some, List, ◌==◌, if◌then◌else◌}
use xaeroflux.Event.{Event}
use xaeroflux.Sqlite.{Sqlite}
use xaeroflux.Storage.{insert_event, if_inserted}

-- Bytes on the wire.
abbrev pub Bytes : Type 0
Bytes = List ℕ

-- `serde_json::to_vec` and `from_slice` at `Event`.
pub record EventCodec : Type 0 where
  pub encode : Event → Option Bytes
  pub decode : Bytes → Option Event

-- What was encoded decodes to the event.
abbrev pub RoundTrips : EventCodec → Type 0
RoundTrips codec =
    (e : Event) (bytes : Bytes) → codec.encode e ≡ some bytes → codec.decode bytes ≡ some e

-- What a gossip topic yields: `Result<GossipEvent, _>`. A peer is named by its node id.
pub data GossipEvent : Type 0 where
  received : Bytes → GossipEvent
  neighbor_up neighbor_down : String → GossipEvent
  lagged failed : GossipEvent

module _ (S : Sqlite) (node_id : String) where
  open S use {Connection, execute}

  -- A message that parsed as an event: what goes to the application.
  unfoldable pub sync_event : Event → Connection → Option Event × Connection
  unfolding insert_event
  sync_event e c =
      if e.source == node_id
      then (none, c)
      else (let (rows, c') = execute (insert_event e) c in (if_inserted S rows e, c'))

  unfoldable pub sync_parsed : Option Event → Connection → Option Event × Connection
  sync_parsed none c = (none, c)
  sync_parsed (some e) c = sync_event e c

  -- The first branch of the `select!`.
  unfoldable pub on_gossip : EventCodec → GossipEvent → Connection → Option Event × Connection
  unfolding sync_parsed sync_event
  on_gossip codec (received content) c = sync_parsed (codec.decode content) c
  on_gossip codec _ c = (none, c)
