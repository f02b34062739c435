-- ===== src/Cli/Received.antt =====
-- The receiver task of src/main.rs, which prints what arrives, over a run of the node.
use mathlib.Core.List.{append_assoc}
use text.Mathlib.Text.{get?}
use xaeroflux.Prelude.{
  String, ◌≡◌, ◌≢◌, refl, ap, ◌∙◌, false, Option, none, some, List, [], ◌∷◌, ◌++◌, contains,
}
use xaeroflux.Event.{Event, ids}
use xaeroflux.Sqlite.{Sqlite, NeverFails}
use xaeroflux.Network.{Bytes, RoundTrips, received}
use xaeroflux.Node.{Output, stored, synced, broadcast, gossip, Action, Config, Node, step, run}
use xaeroflux.Node.Steps.{table}
use xaeroflux.Node.Propagation.{step-received}
use xaeroflux.Discovery.Actions.{Exit, panic}
use xaeroflux.Cli.{printed, print_received}

-- The events that the outputs hand to the application.
abbrev pub handed_back : List Output → List Event
handed_back [] = []
handed_back (stored e ∷ os) = handed_back os
handed_back (synced e ∷ os) = e ∷ handed_back os
handed_back (broadcast e b ∷ os) = handed_back os

handed_back-append :
    (os ps : List Output) → handed_back (os ++ ps) ≡ handed_back os ++ handed_back ps
handed_back-append [] ps = refl
handed_back-append (stored e ∷ os) ps = handed_back-append os ps
handed_back-append (synced e ∷ os) ps = rw (handed_back-append os ps)
handed_back-append (broadcast e b ∷ os) ps = handed_back-append os ps

-- The task ends at an event whose source has no character boundary at eight bytes, if not before.
print_received-panics :
    (before after : List Event) (e : Event)
    → get? e.source 0 8 ≡ none
    → ((print_received (before ++ e ∷ after)).0 ≡ panic)
      × (print_received (before ++ e ∷ after) ≡ print_received (before ++ e ∷ []))
unfolding print_received
print_received-panics [] after e cut = rw cut (refl, refl)
print_received-panics (b ∷ before) after e cut =
    let (ends, same) = print_received-panics before after e cut in
    by_source (get? b.source 0 8) _ _ ends same
  where
    by_source :
        (o : Option String) (x y : Exit (Unit {0}) × List (String × String))
        → x.0 ≡ panic
        → x ≡ y
        → ((printed o b x).0 ≡ panic) × (printed o b x ≡ printed o b y)
    by_source none x y ends same = (refl, refl)
    by_source (some source) x y ends same = (ends, ap (printed (some source) b) same)

module _ (S : Sqlite) (cfg : Config) where
  -- What the task prints in a run of the node, and how it ends.
  abbrev pub printed_in : List Action → Node S → Exit (Unit {0}) × List (String × String)
  printed_in actions n = print_received (handed_back (run S cfg actions n).0)

  run-append :
      (before after : List Action) (n : Node S)
      → (run S cfg (before ++ after) n).0
        ≡ (run S cfg before n).0 ++ (run S cfg after (run S cfg before n).1).0
  unfolding run
  run-append [] after n = refl
  run-append (a ∷ before) after n =
      let (out, n') = step S cfg a n in rw (run-append before after n', append_assoc) refl

  handed_back-run :
      (before after : List Action) (a : Action) (e : Event) (n : Node S)
      → (step S cfg a (run S cfg before n).1).0 ≡ synced e ∷ []
      → handed_back (run S cfg (before ++ a ∷ after) n).0
        ≡ handed_back (run S cfg before n).0
          ++ e ∷ handed_back (run S cfg after (step S cfg a (run S cfg before n).1).1).0
  unfolding run
  handed_back-run before after a e n h =
      rw (run-append before (a ∷ after) n, handed_back-append, h) refl

  -- One message of a peer is enough: in any run in which a node receives an event of another node that it
  -- does not have yet, and whose source has no character boundary at eight bytes, the task that prints ends in
  -- a panic, and prints nothing of what arrives after it, if no statement fails and the codec round-trips.
  pub run-received-panics :
      (before after : List Action) (e : Event) (bytes : Bytes) (n : Node S)
      → NeverFails S
      → RoundTrips cfg.codec
      → cfg.codec.encode e ≡ some bytes
      → e.source ≢ cfg.node_id
      → contains (ids (table S (run S cfg before n).1)) e.id ≡ false
      → get? e.source 0 8 ≡ none
      → let arrival = gossip (received bytes) in
        ((printed_in (before ++ arrival ∷ after) n).0 ≡ panic)
        × (printed_in (before ++ arrival ∷ after) n ≡ printed_in (before ++ arrival ∷ []) n)
  unfolding run
  run-received-panics before after e bytes n never rt encoded foreign fresh cut =
      let arrival = gossip (received bytes) in
      let m = (run S cfg before n).1 in
      let new : (step S cfg arrival m).0 ≡ synced e ∷ [] =
        (step-received S never cfg e bytes m rt encoded foreign).1 ∙ rw fresh refl in
      let heard = λ (rest : List Action). handed_back-run before rest arrival e n new in
      let printed_before = handed_back (run S cfg before n).0 in
      let rest = handed_back (run S cfg after (step S cfg arrival m).1).0 in
      rw (heard after, heard []) (print_received-panics printed_before rest e cut)
