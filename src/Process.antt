-- ===== src/Process.antt =====
-- The process of a node that has started (src/lib.rs): the storage actor, the network actor and the discovery
-- task over one database connection, in any interleaving. A wake-up of the discovery task is one step: the
-- statements of the actors that may fall between its own are on the other table.
pub mod Disjoint
pub mod Sound
use xaeroflux.Prelude.{String, Bool, true, false, List, [], ◌∷◌, ◌++◌, if◌then◌else◌}
use xaeroflux.Node.{Action, Output, Config, Node, step}
use xaeroflux.Peers.{Cache, Tracker}
use xaeroflux.Startup.Files.{Files}
use xaeroflux.Startup.Identity.{Secrets}
use xaeroflux.Startup.Start.{Host, XaeroFlux}
use xaeroflux.Discovery.Actions.{World, Effect, State, Exit, ok, panic}
use xaeroflux.Discovery.{Trigger, on_trigger}

-- What makes the process move: an action of the two actors, or what wakes the discovery task.
pub data Move : Type 0 where
  acts : Action → Move
  wakes : Trigger → Move

module _ (W : World) where
  open W use {S, Network}

  -- `has_ended` says that a panic has ended the discovery task; the actors go on.
  pub record Process : Type 0 where
    pub node : Node S
    pub cache : Cache
    pub senders : List String
    pub network : Network
    pub effects : List (Effect W)
    pub has_ended : Bool

  -- The discovery task's view of it. Its tracker shares the connection.
  abbrev pub tracker_of : Process → Tracker S
  tracker_of p = record { connection = p.node.connection; cache = p.cache }

  abbrev pub task_of : Process → State W
  task_of p = record {
    tracker = tracker_of p;
    senders = p.senders;
    network = p.network;
    effects = p.effects;
  }

  abbrev is_panic : Exit (Unit {0}) → Bool
  is_panic (ok _) = false
  is_panic panic = true

  abbrev pub woken : Exit (Unit {0}) × State W → Process → Process
  woken (exit, s) p = record {
    node = record p.node { connection = s.tracker.connection };
    cache = s.tracker.cache;
    senders = s.senders;
    network = s.network;
    effects = s.effects;
    has_ended = is_panic exit;
  }

  unfoldable pub wake_task : Trigger → Process → Process
  wake_task t p = if p.has_ended then p else woken (on_trigger t (task_of p)) p

  unfoldable pub move : Config → Move → Process → List Output × Process
  unfolding wake_task
  move cfg (acts a) p = let (out, n) = step S cfg a p.node in (out, record p { node = n })
  move cfg (wakes t) p = ([], wake_task t p)

  unfoldable pub moves : Config → List Move → Process → List Output × Process
  unfolding move
  moves cfg [] p = ([], p)
  moves cfg (m ∷ ms) p =
      let (out, p') = move cfg m p in let (outs, p'') = moves cfg ms p' in (out ++ outs, p'')

  -- What `from_config` and `NetworkActor::new` spawn.
  abbrev pub spawned :
      {F : Files} {X : Secrets F} {H : Host S F X} → Network → XaeroFlux S F X H → Process
  spawned network xf = record {
    node = xf.node;
    cache = xf.cache;
    senders = [];
    network = network;
    effects = [];
    has_ended = false;
  }
