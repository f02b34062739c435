-- ===== src/Startup/Restart.antt =====
-- A node that stops and is started again over the same database file.
use mathlib.Core.Path.{subst}
use xaeroflux.Prelude.{◌≡◌, ◌≢◌, ap, sym, ◌∙◌, List, ◌++◌, Distinct}
use xaeroflux.Event.{ids}
use xaeroflux.Sqlite.{Tables, Sqlite}
use xaeroflux.Storage.Insert.{ids-append}
use xaeroflux.Network.{EventCodec}
use xaeroflux.Node.{Action, Config, run}
use xaeroflux.Node.Steps.{announced, table}
use xaeroflux.Node.Runs.{table-run, announced-run-Distinct}
use xaeroflux.Startup.Files.{Files}
use xaeroflux.Startup.Boot.{ok}
use xaeroflux.Startup.Config.{XaeroFluxConfig}
use xaeroflux.Startup.Identity.{Secrets, key_path}
use xaeroflux.Startup.Start.{Host, XaeroFlux, from_config}
use xaeroflux.Startup.Started.{Stores, from_config-IsStarted}

module _ (S : Sqlite) (F : Files) (X : Secrets F) (H : Host S F X) (D : Stores H) where
  open F use {World}
  open H use {StaticProvider, RelayUrl}

  -- The two actors of a started node.
  abbrev pub actors_of : EventCodec → XaeroFlux S F X H → Config
  actors_of codec xf = record { node_id = xf.node_id; codec = codec }

  -- Deduplication across a restart: a node starts over a database whose event ids are distinct, runs, stops
  -- with whatever is in its queues, and starts again, in a world where the database file holds what the
  -- last statement left. Over both runs together no event id is announced twice, and none that the
  -- database held before the first. The key file is not the database file.
  pub announced-restart-Distinct :
      (codec : EventCodec) (c : XaeroFluxConfig StaticProvider RelayUrl) (w w' v v' : World)
      (first second : XaeroFlux S F X H) (actions actions' : List Action)
      → c.db_path ≢ key_path F X c.db_path
      → Distinct (ids (D.stored c.db_path w).events)
      → from_config S F X H c w ≡ (ok first, w')
      → D.stored c.db_path v
        ≡ S.tables (run S (actors_of codec first) actions first.node).1.connection
      → from_config S F X H c v ≡ (ok second, v')
      → Distinct (
          (ids (D.stored c.db_path w).events
            ++ ids (announced (run S (actors_of codec first) actions first.node).0))
          ++ ids (announced (run S (actors_of codec second) actions' second.node).0))
  announced-restart-Distinct codec c w w' v v' first second actions actions' apart distinct started
        stopped again =
      let a = from_config-IsStarted S F X H D c w apart first w' started in
      let b = from_config-IsStarted S F X H D c v apart second v' again in
      let before = (D.stored c.db_path w).events in
      let out = announced (run S (actors_of codec first) actions first.node).0 in
      let held : table S second.node ≡ before ++ out =
        ap (λ (t : Tables). t.events) (b.tables ∙ stopped)
        ∙ table-run S (actors_of codec first) actions first.node
        ∙ ap (λ (t : Tables). t.events ++ out) a.tables in
      let once =
        announced-run-Distinct S (actors_of codec first) actions first.node
          (subst (λ (t : Tables). Distinct (ids t.events)) (sym a.tables) distinct) in
      let joined : ids (table S second.node) ≡ ids before ++ ids out =
        ap ids held ∙ ids-append before out in
      subst
        (λ xs.
          Distinct (xs ++ ids (announced (run S (actors_of codec second) actions' second.node).0)))
        joined
        (announced-run-Distinct S (actors_of codec second) actions' second.node (
          subst Distinct (sym joined)
            (subst (λ (t : Tables). Distinct (ids t.events ++ ids out)) a.tables once)))
