-- ===== src/Node/Broadcast.antt =====
-- What gossip is given in a run: the second branch of the `select!` of `NetworkActor::run` in src/lib.rs.
use mathlib.Core.List.{map-append}
use xaeroflux.Prelude.{◌≡◌, refl, ap, sym, ◌∙◌, Option, none, some, List, [], ◌∷◌, ◌++◌, map}
use xaeroflux.Event.{Event}
use xaeroflux.Sqlite.{Sqlite}
use xaeroflux.Network.{Bytes}
use xaeroflux.Node.{
  Action, app_send, store_next, gossip, broadcast_next, Output, stored, synced, broadcast, Config,
  sent, Node, store_queued, broadcast_queued, step, run,
}
use xaeroflux.Node.Steps.{handed_over, taken, taken-append, taken-stored, taken-synced}
use xaeroflux.Node.Runs.{outbound-run}

-- What the outputs give to gossip.
abbrev pub given : List Output → List (Option Bytes)
given [] = []
given (stored e ∷ os) = given os
given (synced e ∷ os) = given os
given (broadcast e b ∷ os) = b ∷ given os

given-append : (os ps : List Output) → given (os ++ ps) ≡ given os ++ given ps
given-append [] ps = refl
given-append (stored e ∷ os) ps = given-append os ps
given-append (synced e ∷ os) ps = given-append os ps
given-append (broadcast e b ∷ os) ps = rw (given-append os ps)

given-stored : (o : Option Event) → given (map stored (sent o)) ≡ []
given-stored none = refl
given-stored (some e) = refl

given-synced : (o : Option Event) → given (map synced (sent o)) ≡ []
given-synced none = refl
given-synced (some e) = refl

module _ (S : Sqlite) (cfg : Config) where
  store-given :
      (q : List Event) (n : Node S)
      → given (store_queued S q n).0 ≡ map cfg.codec.encode (taken (store_queued S q n).0)
  unfolding store_queued
  store-given [] n = refl
  store-given (e ∷ rest) n = rw (given-stored, taken-stored) refl

  broadcast-given :
      (q : List Event) (n : Node S)
      → given (broadcast_queued S cfg.codec q n).0
        ≡ map cfg.codec.encode (taken (broadcast_queued S cfg.codec q n).0)
  unfolding broadcast_queued
  broadcast-given [] n = refl
  broadcast-given (e ∷ rest) n = refl

  step-given :
      (a : Action) (n : Node S)
      → given (step S cfg a n).0 ≡ map cfg.codec.encode (taken (step S cfg a n).0)
  unfolding step
  step-given (app_send e) n = refl
  step-given store_next n = store-given n.app_rx n
  step-given (gossip g) n = rw (given-synced, taken-synced) refl
  step-given broadcast_next n = broadcast-given n.outbound_rx n

  given-run :
      (actions : List Action) (n : Node S)
      → given (run S cfg actions n).0 ≡ map cfg.codec.encode (taken (run S cfg actions n).0)
  unfolding run
  given-run [] n = refl
  given-run (a ∷ actions) n =
      let (out, n') = step S cfg a n in
      rw (given-append, taken-append, map-append, step-given a n, given-run actions n') refl

  -- Gossip is given exactly the encodings of what the storage actor announces to the network actor, once
  -- each and in order: the encodings of what was queued before the run and announced in it are what gossip
  -- was given in it, followed by those of what is queued after it. An event that does not serialize gives
  -- nothing in its place.
  pub broadcast-run :
      (actions : List Action) (n : Node S)
      → map cfg.codec.encode (n.outbound_rx ++ handed_over (run S cfg actions n).0)
        ≡ given (run S cfg actions n).0 ++ map cfg.codec.encode (run S cfg actions n).1.outbound_rx
  broadcast-run actions n =
      ap (map cfg.codec.encode) (outbound-run S cfg actions n)
      ∙ map-append cfg.codec.encode (taken (run S cfg actions n).0)
          (run S cfg actions n).1.outbound_rx
      ∙ ap (λ bs. bs ++ map cfg.codec.encode (run S cfg actions n).1.outbound_rx)
          (sym (given-run actions n))
