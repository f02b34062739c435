-- ===== src/Mesh.antt =====
-- A mesh of nodes (Node.antt) that gossip on one topic. The gossip network is an adversary of order: it
-- may deliver whatever has been broadcast to any node, at any time, as often as it likes, or not at all.
pub mod Nodes
pub mod Provenance
pub mod Genuine
pub mod Coverage
pub mod Carried
pub mod Settled
pub mod Invariant
pub mod Convergence
use xaeroflux.Prelude.{
  ℕ, ◌≡◌, String, Option, none, some, List, [], ◌∷◌, ◌++◌, ◌==◌, if◌then◌else◌, get_elem?,
}
use xaeroflux.Event.{Event}
use xaeroflux.Sqlite.{Sqlite}
use xaeroflux.Network.{
  Bytes, EventCodec, GossipEvent, received, neighbor_up, neighbor_down, lagged, failed,
}
use xaeroflux.Node.{
  Action, app_send, store_next, gossip, broadcast_next, Output, stored, synced, broadcast, Config,
  Node, step,
}

-- What the outputs of a node put on the air.
abbrev pub on_air : List Output → List Bytes
on_air [] = []
on_air (stored e ∷ os) = on_air os
on_air (synced e ∷ os) = on_air os
on_air (broadcast e none ∷ os) = on_air os
on_air (broadcast e (some b) ∷ os) = b ∷ on_air os

-- An item that no node takes for an event.
abbrev pub IsNoise : EventCodec → GossipEvent → Type 0
IsNoise codec (received b) = codec.decode b ≡ none
IsNoise codec (neighbor_up p) = Unit
IsNoise codec (neighbor_down p) = Unit
IsNoise codec lagged = Unit
IsNoise codec failed = Unit

module _ (S : Sqlite) (codec : EventCodec) where
  -- The nodes by their ids, what has been broadcast, and what the applications have sent so far.
  pub record Mesh : Type 0 where
    pub nodes : String → Node S
    pub air : List Bytes
    pub history : List Event

  abbrev pub config_of : String → Config
  config_of i = record { node_id = i; codec = codec }

  abbrev pub set_node : String → Node S → (String → Node S) → String → Node S
  set_node i n nodes j = if i == j then n else nodes j

  -- One node moves.
  unfoldable pub advance : String → Action → Mesh → Mesh
  advance i a m =
      let (out, n) = step S (config_of i) a (m.nodes i) in
      record m { nodes = set_node i n m.nodes; air = m.air ++ on_air out }

  unfoldable pub send : String → Event → Mesh → Mesh
  send i e m = record (advance i (app_send e) m) { history = m.history ++ e ∷ [] }

  -- An application sends events of its own node's; a node receives what has been broadcast, or noise.
  pub data Moves : Mesh → Mesh → Type 0 where
    sends : (m : Mesh) (i : String) (e : Event) → e.source ≡ i → Moves m (send i e m)
    stores : (m : Mesh) (i : String) → Moves m (advance i store_next m)
    broadcasts : (m : Mesh) (i : String) → Moves m (advance i broadcast_next m)
    delivers :
        (m : Mesh) (i : String) (k : ℕ) (b : Bytes)
        → get_elem? m.air k ≡ some b
        → Moves m (advance i (gossip (received b)) m)
    disturbs :
        (m : Mesh) (i : String) (g : GossipEvent)
        → IsNoise codec g
        → Moves m (advance i (gossip g) m)

  pub data Reaches (m : Mesh) : Mesh → Type 0 where
    here : Reaches m m
    next : {n o : Mesh} → Reaches m n → Moves n o → Reaches m o
