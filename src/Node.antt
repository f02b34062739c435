-- ===== src/Node.antt =====
-- A running node of src/lib.rs: the storage actor and the network actor, which share the database
-- and are joined by channels. tokio may run them in any order, so a run is a list of actions.
pub mod Steps
pub mod NoLoss
pub mod Propagation
pub mod Runs
pub mod Broadcast
use xaeroflux.Prelude.{String, Option, none, some, List, [], ◌∷◌, ◌++◌, map}
use xaeroflux.Event.{Event}
use xaeroflux.Sqlite.{Sqlite}
use xaeroflux.Storage.{store_event}
use xaeroflux.Network.{Bytes, EventCodec, GossipEvent, on_gossip}

-- What makes the node move: the application sends an event, one of the actors takes the next item of
-- its queue, or the events topic yields something.
pub data Action : Type 0 where
  app_send : Event → Action
  store_next : Action
  gossip : GossipEvent → Action
  broadcast_next : Action

-- What a move shows: an event handed to the network actor, an event handed to the application, and
-- an event taken for broadcast with the bytes given to gossip (`none` if it does not serialize).
pub data Output : Type 0 where
  stored synced : Event → Output
  broadcast : Event → Option Bytes → Output

-- `from_config` gives every node its id; the codec is serde's.
pub record Config : Type 0 where
  pub node_id : String
  pub codec : EventCodec

-- What a channel holds after one more send, if there is one.
abbrev pub sent : Option Event → List Event
sent none = []
sent (some e) = e ∷ []

module _ (S : Sqlite) where
  -- The channels into the storage actor and into the network actor, oldest first.
  pub record Node : Type 0 where
    pub connection : S.Connection
    pub app_rx : List Event
    pub outbound_rx : List Event

  -- `StorageActor::run`, one round.
  unfoldable pub store_queued : List Event → Node → List Output × Node
  store_queued [] n = ([], n)
  store_queued (e ∷ rest) n =
      let (o, c) = store_event S e n.connection in
      (
        map stored (sent o),
        record { connection = c; app_rx = rest; outbound_rx = n.outbound_rx ++ sent o },
      )

  -- The second branch of the `select!` of `NetworkActor::run`.
  unfoldable pub broadcast_queued : EventCodec → List Event → Node → List Output × Node
  broadcast_queued codec [] n = ([], n)
  broadcast_queued codec (e ∷ rest) n =
      (broadcast e (codec.encode e) ∷ [], record n { outbound_rx = rest })

  unfoldable pub step : Config → Action → Node → List Output × Node
  unfolding store_queued broadcast_queued
  step cfg (app_send e) n = ([], record n { app_rx = n.app_rx ++ e ∷ [] })
  step cfg store_next n = store_queued n.app_rx n
  step cfg (gossip g) n =
      let (o, c) = on_gossip S cfg.node_id cfg.codec g n.connection in
      (map synced (sent o), record n { connection = c })
  step cfg broadcast_next n = broadcast_queued cfg.codec n.outbound_rx n

  -- The outputs of a run in order, and the node after it.
  unfoldable pub run : Config → List Action → Node → List Output × Node
  run cfg [] n = ([], n)
  run cfg (a ∷ actions) n =
      let (out, n') = step cfg a n in let (outs, n'') = run cfg actions n' in (out ++ outs, n'')
