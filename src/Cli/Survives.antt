-- ===== src/Cli/Survives.antt =====
-- A message sent with the `send` command is there when the tool, or another node, starts again over the database.
use xaeroflux.Prelude.{◌≢◌, String, ◌≡◌, Option, List, [], ◌∷◌}
use xaeroflux.Prelude.Int.{ℤ}
use xaeroflux.Event.{Event}
use xaeroflux.Sqlite.{Sqlite}
use xaeroflux.Network.{EventCodec}
use xaeroflux.Node.{Action, Node, run}
use xaeroflux.Node.Steps.{announced}
use xaeroflux.Cli.Delivery.{sending_all}
use xaeroflux.Startup.Files.{Files}
use xaeroflux.Startup.Boot.{ok}
use xaeroflux.Startup.Config.{
  XaeroFluxConfig, default, discovery_key, db_path, bootstrap_peers, built,
}
use xaeroflux.Startup.Identity.{Secrets, key_path}
use xaeroflux.Startup.Start.{Host, XaeroFlux, new_with_bootstrap}
use xaeroflux.Startup.Started.{Stores, IsStarted, from_config-IsStarted}
use xaeroflux.Startup.Restart.{actors_of}
use xaeroflux.Cli.{message_event}
use xaeroflux.Cli.Session.{Arguments, Surroundings, main}

module _ (S : Sqlite) (F : Files) (X : Secrets F) (H : Host S F X) where
  open F use {World}
  open H use {StaticProvider, RelayUrl}

  -- The configuration of the node that a session starts.
  abbrev pub config_of : Arguments → XaeroFluxConfig StaticProvider RelayUrl
  config_of args =
      built StaticProvider RelayUrl
        (discovery_key args.discovery_key ∷ db_path args.db ∷ bootstrap_peers args.bootstrap ∷ [])
        (default StaticProvider RelayUrl)

  -- The node of a session that starts.
  abbrev pub Starts : Arguments → World → XaeroFlux S F X H → World → Type 0
  Starts args w xf w' =
      new_with_bootstrap S F X H args.discovery_key args.db args.bootstrap w ≡ (ok xf, w')

  module _ (D : Stores H) where
    pub Starts-IsStarted :
        (args : Arguments) (w w' : World) (xf : XaeroFlux S F X H)
        → args.db ≢ key_path F X args.db
        → Starts args w xf w'
        → IsStarted S F X H D (config_of args) w xf
    unfolding new_with_bootstrap
    Starts-IsStarted args w w' xf apart started =
        from_config-IsStarted S F X H D (config_of args) w apart xf w' started

    module _ (blake3 : String → String) (show_time : ℤ → Option String) (codec : EventCodec) where
      -- The message of a session that sends one, as an event of its node.
      abbrev pub message_of : String → Surroundings → XaeroFlux S F X H → Event
      message_of message s xf = message_event blake3 xf.node_id message s.now

      -- The node of a session after its actors' turns; the session has sent what `main` sends.
      abbrev pub after_session :
          Arguments → Surroundings → World → XaeroFlux S F X H → List Action → Node S
      after_session args s w xf actions =
          (run S (actors_of S F X H D codec xf)
            (sending_all (main S F X H blake3 show_time args s w).0.sent actions) xf.node).1

      -- What the node that starts over the database does in a run.
      abbrev pub announced_by : XaeroFlux S F X H → List Action → List Event
      announced_by xf actions = announced (run S (actors_of S F X H D codec xf) actions xf.node).0
