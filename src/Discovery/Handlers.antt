-- ===== src/Discovery/Handlers.antt =====
-- The event handlers of the discovery task keep what its basic actions keep.
use xaeroflux.Prelude.{
  ℕ, ◌<◌, Bool-cases, inl, inr, String, Option, none, some, List, [], ◌∷◌, arith, ltb, length,
  if◌then◌else◌, ◌==◌,
}
use xaeroflux.Prelude.Int.{ℤ, pos}
use xaeroflux.Json.{get_str, get_array}
use xaeroflux.Network.{Bytes, GossipEvent, received, neighbor_up, neighbor_down, lagged, failed}
use xaeroflux.Peers.{get_peers, get_active_groups, mark_offline, prune_stale}
use xaeroflux.Discovery.Actions.{
  World, announce, introduce, State, Task, pure, emit, read, with_tracker, debug, info, log_slice,
  log_id, ◌>>◌,
}
use xaeroflux.Discovery.Rules.{
  Any, Keeps, Keeps-pure, Keeps-if, Keeps-bind, Keeps-read, Keeps-log_slice, Keeps-log_id,
}
use xaeroflux.Discovery.{
  track_groups, exchange_groups, exchange, on_typed, on_parsed, on_message, reintroduce,
  on_announce, introduce_rest, after_departure, on_neighbor_down, on_prune, on_topic, on_trigger,
  run_task, Trigger, announce_tick, prune_tick, topic,
}
use xaeroflux.Discovery.Closed.{IsClosed, track_groups_keeps, introduce_all_keeps}

module _ {W : World} {I : State W → Type 0} (c : IsClosed I) where
  open W use {S, J}

  exchange_groups_keeps :
      (clock : ℕ → ℤ) (from : String) (groups : Option (List J.Value))
      → Keeps I (exchange_groups {W = W} clock from groups) Any
  unfolding exchange_groups
  exchange_groups_keeps clock from none = Keeps-pure tt tt
  exchange_groups_keeps clock from (some groups) =
      Keeps-bind (log_slice info from) _ (Keeps-log_slice info from) (λ _ _.
        Keeps-bind (track_groups clock from 0 groups) _
          (track_groups_keeps I c.groups clock from 0 groups)
          (λ due h. introduce_all_keeps I c due h))

  exchange_keeps :
      (clock : ℕ → ℤ) (from : Option String) (json : J.Value)
      → Keeps I (exchange {W = W} clock from json) Any
  unfolding exchange
  exchange_keeps clock none json = Keeps-pure tt tt
  exchange_keeps clock (some from) json =
      Keeps-bind (log_slice info from) _ (Keeps-log_slice info from)
        (λ _ _. exchange_groups_keeps clock from (get_array J json "local_groups"))

  on_typed_keeps :
      (clock : ℕ → ℤ) (msg_type : Option String) (json : J.Value)
      → Keeps I (on_typed {W = W} clock msg_type json) Any
  unfolding on_typed
  on_typed_keeps clock none json = Keeps-pure tt tt
  on_typed_keeps clock (some msg_type) json =
      Keeps-if (msg_type == "groups_exchange") _ _
        (exchange_keeps clock (get_str J json "node_id") json) (Keeps-pure tt tt)

  on_parsed_keeps :
      (clock : ℕ → ℤ) (json : Option J.Value) → Keeps I (on_parsed {W = W} clock json) Any
  unfolding on_parsed
  on_parsed_keeps clock none = Keeps-pure tt tt
  on_parsed_keeps clock (some json) = on_typed_keeps clock (get_str J json "msg_type") json

  pub on_message_keeps :
      (clock : ℕ → ℤ) (content : Bytes) → Keeps I (on_message {W = W} clock content) Any
  unfolding on_message
  on_message_keeps clock content = on_parsed_keeps clock (J.from_slice content)

  -- An introduction that is sent only if it is due, in either order with its log event.
  due_keeps :
      (gid : String) (peers : List String) (m : Task W (Unit {0}))
      → (1 < length peers → Keeps I m Any)
      → Keeps I (if ltb 1 (length peers) then m else pure tt) Any
  due_keeps gid peers m k = elim (Bool-cases (ltb 1 (length peers))) [
    | inl e ↦ rw e (k (ground arith))
    | inr e ↦ rw e (Keeps-pure tt tt)
  ]

  reintroduce_keeps : (groups : List String) → Keeps I (reintroduce {W = W} groups) Any
  unfolding reintroduce
  reintroduce_keeps [] = Keeps-pure tt tt
  reintroduce_keeps (gid ∷ groups) =
      Keeps-bind (read (λ s. get_peers S s.tracker gid)) _ (Keeps-read _) (λ peers _.
        Keeps-bind _ _
          (due_keeps gid peers (emit (introduce gid peers) >> log_slice debug gid) (λ h.
            Keeps-bind (emit (introduce gid peers)) _ (c.introduces gid peers h)
              (λ _ _. Keeps-log_slice debug gid)))
          (λ _ _. reintroduce_keeps groups))

  pub on_announce_keeps : Keeps I (on_announce {W = W}) Any
  unfolding on_announce
  on_announce_keeps = Keeps-bind (emit announce) _ c.announces (λ _ _.
      Keeps-bind (read (λ s. get_active_groups S s.tracker)) _ (Keeps-read _)
        (λ groups _. reintroduce_keeps groups))

  introduce_rest_keeps : (groups : List String) → Keeps I (introduce_rest {W = W} groups) Any
  unfolding introduce_rest
  introduce_rest_keeps [] = Keeps-pure tt tt
  introduce_rest_keeps (gid ∷ groups) =
      Keeps-bind (read (λ s. get_peers S s.tracker gid)) _ (Keeps-read _) (λ peers _.
        Keeps-bind _ _
          (due_keeps gid peers (log_slice info gid >> emit (introduce gid peers)) (λ h.
            Keeps-bind (log_slice info gid) _ (Keeps-log_slice info gid)
              (λ _ _. c.introduces gid peers h)))
          (λ _ _. introduce_rest_keeps groups))

  after_departure_keeps :
      (groups : Option (List String)) → Keeps I (after_departure {W = W} groups) Any
  unfolding after_departure
  after_departure_keeps none = Keeps-pure tt tt
  after_departure_keeps (some groups) = introduce_rest_keeps groups

  pub on_neighbor_down_keeps :
      (now : ℤ) (peer : String) → Keeps I (on_neighbor_down {W = W} now peer) Any
  unfolding on_neighbor_down
  on_neighbor_down_keeps now peer = Keeps-bind (log_id info peer) _ (Keeps-log_id info peer) (λ _ _.
      Keeps-bind (with_tracker (mark_offline S now peer)) _ (c.departs now peer)
        (λ affected _. after_departure_keeps affected))

  on_prune_keeps : (now : ℤ) → Keeps I (on_prune {W = W} now) Any
  unfolding on_prune
  on_prune_keeps now =
      Keeps-bind (with_tracker (prune_stale S now (pos 300))) _ (c.prunes now)
        (λ _ _. Keeps-pure tt tt)

  on_topic_keeps :
      (clock : ℕ → ℤ) (event : GossipEvent) → Keeps I (on_topic {W = W} clock event) Any
  unfolding on_topic
  on_topic_keeps clock (received content) = on_message_keeps clock content
  on_topic_keeps clock (neighbor_up peer) = Keeps-log_id info peer
  on_topic_keeps clock (neighbor_down peer) = on_neighbor_down_keeps (clock 0) peer
  on_topic_keeps clock lagged = Keeps-pure tt tt
  on_topic_keeps clock failed = Keeps-pure tt tt

  pub on_trigger_keeps : (t : Trigger) → Keeps I (on_trigger {W = W} t) Any
  unfolding on_trigger
  on_trigger_keeps announce_tick = on_announce_keeps
  on_trigger_keeps (prune_tick now) = on_prune_keeps now
  on_trigger_keeps (topic clock event) = on_topic_keeps clock event

  pub run_task_keeps : (triggers : List Trigger) → Keeps I (run_task {W = W} triggers) Any
  unfolding run_task
  run_task_keeps [] = Keeps-pure tt tt
  run_task_keeps (t ∷ triggers) =
      Keeps-bind (on_trigger t) _ (on_trigger_keeps t) (λ _ _. run_task_keeps triggers)
