-- ===== src/Process/Sound.antt =====
-- What holds of the process whatever its tasks do and in whatever order.
use mathlib.Core.List.{append-nil, append_assoc}
use mathlib.Core.Path.{subst}
use xaeroflux.Prelude.{
  ◌≡◌, ◌≢◌, refl, ap, sym, ◌∙◌, Bool, true, false, if◌then◌else◌, List, [], ◌∷◌, ◌++◌, Distinct,
}
use xaeroflux.Event.{ids}
use xaeroflux.Sqlite.{Tables, NeverFails}
use xaeroflux.Storage.Insert.{ids-append}
use xaeroflux.Node.{Config}
use xaeroflux.Node.Steps.{announced, announced-append, table, step-Moves}
use xaeroflux.Peers.Rows.{online}
use xaeroflux.Peers.Coherence.{IsCoherent}
use xaeroflux.Discovery.{Trigger, on_trigger}
use xaeroflux.Discovery.Actions.{World}
use xaeroflux.Discovery.Handlers.{on_trigger_keeps}
use xaeroflux.Discovery.Topics.{IsOrderly, IsOrderly-IsClosed}
use xaeroflux.Discovery.Tracking.{Agrees-IsClosed}
use xaeroflux.Network.{EventCodec}
use xaeroflux.Startup.Files.{Files}
use xaeroflux.Startup.Boot.{ok}
use xaeroflux.Startup.Config.{XaeroFluxConfig}
use xaeroflux.Startup.Identity.{Secrets, key_path}
use xaeroflux.Startup.Start.{Host, XaeroFlux, from_config}
use xaeroflux.Startup.Started.{Stores, IsStarted, from_config-IsStarted}
use xaeroflux.Startup.Restart.{actors_of}
use xaeroflux.Process.{
  Process, tracker_of, task_of, Move, acts, wakes, woken, wake_task, move, moves, spawned,
}
use xaeroflux.Process.Disjoint.{step-rows, Holds-IsClosed}

module _ (W : World) where
  open W use {S}

  either :
      (I : Process W → Type 0) (b : Bool) (p q : Process W) → I p → I q → I (if b then p else q)
  either I true p q h k = h
  either I false p q h k = k

  wake_task-events : (t : Trigger) (p : Process W) → table S (wake_task W t p).node ≡ table S p.node
  unfolding wake_task
  wake_task-events t p =
      either (λ q. table S q.node ≡ table S p.node) p.has_ended p
        (woken W (on_trigger t (task_of W p)) p) refl
        ((on_trigger_keeps (Holds-IsClosed (table S p.node)) t).at (task_of W p) refl).0

  -- The table grows by what is announced.
  move-table :
      (cfg : Config) (m : Move) (p : Process W)
      → table S (move W cfg m p).1.node ≡ table S p.node ++ announced (move W cfg m p).0
  unfolding move
  move-table cfg (acts a) p = (step-Moves S cfg a p.node).rows
  move-table cfg (wakes t) p = wake_task-events t p ∙ sym (append-nil (table S p.node))

  moves-table :
      (cfg : Config) (ms : List Move) (p : Process W)
      → table S (moves W cfg ms p).1.node ≡ table S p.node ++ announced (moves W cfg ms p).0
  unfolding moves
  moves-table cfg [] p = sym (append-nil (table S p.node))
  moves-table cfg (m ∷ ms) p =
      let (out, p') = move W cfg m p in
      rw (moves-table cfg ms p', announced-append, move-table cfg m p, append_assoc)

  -- The ids of the table are distinct, the peer tracker's cache agrees with its table, and the discovery task is
  -- orderly.
  pub record IsSound (p : Process W) : Type 0 where
    pub distinct : Distinct (ids (table S p.node))
    pub coherent : IsCoherent S (tracker_of W p)
    pub orderly : IsOrderly (task_of W p)

  module _ (never : NeverFails S) where
    woken-IsSound :
        (t : Trigger) (p : Process W) → IsSound p → IsSound (woken W (on_trigger t (task_of W p)) p)
    woken-IsSound t p h = record {
      distinct =
          subst (λ es. Distinct (ids es))
            (sym ((on_trigger_keeps (Holds-IsClosed (table S p.node)) t).at (task_of W p) refl).0)
            h.distinct;
      coherent = ((on_trigger_keeps (Agrees-IsClosed never) t).at (task_of W p) h.coherent).0;
      orderly = ((on_trigger_keeps IsOrderly-IsClosed t).at (task_of W p) h.orderly).0;
    }

    wake_task-IsSound : (t : Trigger) (p : Process W) → IsSound p → IsSound (wake_task W t p)
    unfolding wake_task
    wake_task-IsSound t p h =
        either IsSound p.has_ended p (woken W (on_trigger t (task_of W p)) p) h
          (woken-IsSound t p h)

    move-IsSound :
        (cfg : Config) (m : Move) (p : Process W) → IsSound p → IsSound (move W cfg m p).1
    unfolding move
    move-IsSound cfg (acts a) p h = record {
      distinct = (step-Moves S cfg a p.node).distinct h.distinct;
      coherent = record {
        agrees = λ g q.
            h.coherent.agrees g q ∙ ap (λ rows. online rows g q) (sym (step-rows S cfg a p.node));
      };
      orderly = record {
        senders = h.orderly.senders;
        once = h.orderly.once;
        useful = h.orderly.useful;
      };
    }
    move-IsSound cfg (wakes t) p h = wake_task-IsSound t p h

    moves-IsSound :
        (cfg : Config) (ms : List Move) (p : Process W) → IsSound p → IsSound (moves W cfg ms p).1
    unfolding moves
    moves-IsSound cfg [] p h = h
    moves-IsSound cfg (m ∷ ms) p h =
        moves-IsSound cfg ms (move W cfg m p).1 (move-IsSound cfg m p h)

    module _ (F : Files) (X : Secrets F) (H : Host S F X) (D : Stores H) where
      open H use {StaticProvider, RelayUrl}

      spawned-IsSound :
          (c : XaeroFluxConfig StaticProvider RelayUrl) (w : F.World) (xf : XaeroFlux S F X H)
          (network : W.Network)
          → Distinct (ids (D.stored c.db_path w).events)
          → IsStarted S F X H D c w xf
          → IsSound (spawned W network xf)
      spawned-IsSound c w xf network distinct a = record {
        distinct = subst (λ (t : Tables). Distinct (ids t.events)) (sym a.tables) distinct;
        coherent = a.coherent;
        orderly = record { senders = refl; once = tt; useful = tt };
      }

      -- A node starts over a database whose event ids are distinct, and its storage actor, its network actor and
      -- its discovery task then move in any order, the discovery task perhaps to a panic. The peer tracker's cache
      -- agrees with its table, the discovery task keeps a sender for exactly the groups it subscribed to, none
      -- twice, and introduces two peers at least at a time, and no event id is announced twice, nor one that
      -- the database held: if no statement fails and the key file is not the database file.
      pub started-moves :
          (codec : EventCodec) (c : XaeroFluxConfig StaticProvider RelayUrl) (w w' : F.World)
          (xf : XaeroFlux S F X H) (network : W.Network) (ms : List Move)
          → c.db_path ≢ key_path F X c.db_path
          → Distinct (ids (D.stored c.db_path w).events)
          → from_config S F X H c w ≡ (ok xf, w')
          → let (out, p) = moves W (actors_of S F X H D codec xf) ms (spawned W network xf) in
            IsCoherent S (tracker_of W p)
            × IsOrderly (task_of W p)
            × Distinct (ids (D.stored c.db_path w).events ++ ids (announced out))
      started-moves codec c w w' xf network ms apart distinct started =
          let a = from_config-IsStarted S F X H D c w apart xf w' started in
          let cfg = actors_of S F X H D codec xf in
          let p = spawned W network xf in
          let sound = moves-IsSound cfg ms p (spawned-IsSound c w xf network distinct a) in
          let grown : ids (table S (moves W cfg ms p).1.node)
              ≡ ids (D.stored c.db_path w).events ++ ids (announced (moves W cfg ms p).0) =
            ap ids (moves-table cfg ms p)
            ∙ ids-append (table S p.node) (announced (moves W cfg ms p).0)
            ∙ ap (λ (t : Tables). ids t.events ++ ids (announced (moves W cfg ms p).0)) a.tables in
          (sound.coherent, sound.orderly, subst Distinct grown sound.distinct)
