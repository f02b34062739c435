-- ===== src/Tests/NodeRuns.antt =====
-- Runs of a node (Node.antt) over an engine that fails once, and over one that never fails.
use mathlib.Core.Bool.{false≢true}
use text.Mathlib.TextEquality.{eq_iff}
use xaeroflux.Prelude.{
  map, ℕ, ◌≡◌, refl, List, [], ◌∷◌, ◌++◌, contains, Distinct, All, true, some, none, ◌||◌, arith,
  ◌==◌, if◌then◌else◌, string_dec, leb, ◌&&◌, Bool,
}
use xaeroflux.Event.{Event, ids}
use xaeroflux.Sqlite.{Tables}
use xaeroflux.Sqlite.Memory.{memory, reliable, reliable-NeverFails}
use xaeroflux.Storage.{store_event}
use xaeroflux.Network.{EventCodec, RoundTrips, received, on_gossip}
use xaeroflux.Node.{
  Action, app_send, store_next, gossip, broadcast_next, stored, synced, broadcast, Config, Node,
  step, run,
}
use xaeroflux.Node.Steps.{announced, handed_over, IsForeign, table}
use xaeroflux.Node.Runs.{announced-run-Distinct, run-IsForeign}
use xaeroflux.Node.Broadcast.{given, broadcast-run}
use xaeroflux.Node.NoLoss.{keeps, sends, keeps-run}
use xaeroflux.Node.Propagation.{step-received}

abbrev hello : Event
hello = record { id = "e1"; payload = "hello"; source = "me"; ts = 7 }

abbrev remote : Event
remote = record { id = "e2"; payload = "hi"; source = "peer"; ts = 8 }

abbrev is_eight : ℕ → Bool
is_eight n = leb n 8 && leb 8 n

-- A codec for the one event that travels here.
abbrev is_remote : Event → Bool
is_remote e = e.id == "e2" && e.payload == "hi" && e.source == "peer" && is_eight e.ts

abbrev codec : EventCodec
codec = record {
  encode = λ e. if is_remote e then some (2 ∷ []) else none;
  decode = λ bytes. some remote;
}

codec-RoundTrips : RoundTrips codec
codec-RoundTrips e bytes h = ground arith

abbrev me : Config
me = record { node_id = "me"; codec = codec }

abbrev peer : Config
peer = record { node_id = "peer"; codec = codec }

abbrev empty_tables : Tables
empty_tables = record { events = []; group_peers = [] }

-- The second statement fails.
abbrev start : Node memory
start = record {
  connection = record { content = empty_tables; until_failure = some 1 };
  app_rx = [];
  outbound_rx = [];
}

abbrev actions : List Action
actions =
    app_send hello
    ∷ store_next
    ∷ gossip (received [])
    ∷ gossip (received [])
    ∷ gossip (received [])
    ∷ broadcast_next
    ∷ []

-- The first copy of the remote event meets the failing statement, the second is stored, and the third
-- is a duplicate.
run_test :
    (run memory me actions start).0 ≡ stored hello ∷ synced remote ∷ broadcast hello none ∷ []
unfolding run step store_event on_gossip string_dec
run_test = refl

announced-run-Distinct_example : Distinct ([] ++ ids (announced (run memory me actions start).0))
announced-run-Distinct_example = announced-run-Distinct memory me actions start tt

run-IsForeign_example : All (IsForeign "me") (run memory me actions start).0
run-IsForeign_example = run-IsForeign memory me actions start

broadcast-run_example :
    map me.codec.encode ([] ++ handed_over (run memory me actions start).0)
    ≡ given (run memory me actions start).0
      ++ map me.codec.encode (run memory me actions start).1.outbound_rx
broadcast-run_example = broadcast-run memory me actions start

abbrev calm : Node reliable
calm = record { connection = empty_tables; app_rx = []; outbound_rx = [] }

keeps-run_example : keeps reliable (run reliable me actions calm).1 "e1" ≡ true
keeps-run_example = keeps-run reliable reliable-NeverFails "e1" me actions calm sent_one
  where
    sent_one : (keeps reliable calm "e1" || contains (ids (sends actions)) "e1") ≡ true
    sent_one = ground arith

step-received_example :
    (contains (ids (table reliable (step reliable me (gossip (received (2 ∷ []))) calm).1)) "e2"
      ≡ true)
    × ((step reliable me (gossip (received (2 ∷ []))) calm).0
        ≡ (if contains [] "e2" then [] else synced remote ∷ []))
unfolding string_dec
step-received_example =
    step-received reliable reliable-NeverFails me remote (2 ∷ []) calm codec-RoundTrips refl
      (λ h. false≢true ((eq_iff "peer" "me").1 h))
