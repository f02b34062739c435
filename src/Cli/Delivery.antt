-- ===== src/Cli/Delivery.antt =====
-- What becomes of a message sent with the `send` command, when the process ends and a node starts again.
use xaeroflux.Prelude.{ℕ, suc, ◌≤◌, ◌≡◌, refl, true, List, [], ◌∷◌, arith, contains, length}
use xaeroflux.Event.{Event, ids}
use xaeroflux.Sqlite.{Sqlite, NeverFails}
use xaeroflux.Node.{
  Action, app_send, store_next, gossip, broadcast_next, Config, Node, step, run, store_queued,
  broadcast_queued,
}
use xaeroflux.Node.Steps.{table}
use xaeroflux.Node.NoLoss.{sends, keeps-run}

-- How often the storage actor takes its turn.
abbrev pub storage_turns : List Action → ℕ
storage_turns [] = 0
storage_turns (app_send e ∷ actions) = storage_turns actions
storage_turns (store_next ∷ actions) = suc (storage_turns actions)
storage_turns (gossip g ∷ actions) = storage_turns actions
storage_turns (broadcast_next ∷ actions) = storage_turns actions

module _ (S : Sqlite) (cfg : Config) where
  app_rx-store :
      (q : List Event) (n : Node S) (k : ℕ)
      → n.app_rx ≡ q
      → length q ≤ suc k
      → length (store_queued S q n).1.app_rx ≤ k
  unfolding store_queued
  app_rx-store [] n k e h = rw e (omega arith)
  app_rx-store (x ∷ q) n k e h = omega arith

  app_rx-broadcast :
      (q : List Event) (n : Node S) → (broadcast_queued S cfg.codec q n).1.app_rx ≡ n.app_rx
  unfolding broadcast_queued
  app_rx-broadcast [] n = refl
  app_rx-broadcast (e ∷ rest) n = refl

  empty_of_length : (q : List Event) → length q ≤ 0 → q ≡ []
  empty_of_length [] h = refl
  empty_of_length (e ∷ q) h = absurd (omega arith)

  -- As many turns as events are queued empty the queue of the storage actor, if nothing more is sent.
  pub app_rx-run :
      (actions : List Action) (n : Node S)
      → sends actions ≡ []
      → length n.app_rx ≤ storage_turns actions
      → (run S cfg actions n).1.app_rx ≡ []
  unfolding run step
  app_rx-run [] n none_sent h = empty_of_length n.app_rx h
  app_rx-run (app_send e ∷ actions) n none_sent h = absurd (cc)
  app_rx-run (store_next ∷ actions) n none_sent h =
      app_rx-run actions (step S cfg store_next n).1 none_sent
        (app_rx-store n.app_rx n (storage_turns actions) refl h)
  app_rx-run (gossip g ∷ actions) n none_sent h =
      app_rx-run actions (step S cfg (gossip g) n).1 none_sent h
  app_rx-run (broadcast_next ∷ actions) n none_sent h =
      app_rx-run actions (step S cfg broadcast_next n).1 none_sent
        (rw (app_rx-broadcast n.outbound_rx n) h)

-- The application's part of a run: it sends these events, and then the actors take their turns.
abbrev pub sending_all : List Event → List Action → List Action
sending_all [] actions = actions
sending_all (e ∷ es) actions = app_send e ∷ sending_all es actions

module _ (S : Sqlite) (cfg : Config) where
  -- An event that is sent to an idle node is in the table once the storage actor has had a turn.
  pub table-send :
      (actions : List Action) (n : Node S) (e : Event)
      → NeverFails S
      → n.app_rx ≡ []
      → sends actions ≡ []
      → 1 ≤ storage_turns actions
      → contains (ids (table S (run S cfg (app_send e ∷ actions) n).1)) e.id ≡ true
  unfolding run step
  table-send actions n e never idle none_sent turn =
      let kept = keeps-run S never e.id cfg (app_send e ∷ actions) n (ground arith) in
      let emptied =
        app_rx-run S cfg actions (step S cfg (app_send e) n).1 none_sent (rw idle turn) in
      ground (arith, kept, emptied)
