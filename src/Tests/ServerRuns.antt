-- ===== src/Tests/ServerRuns.antt =====
-- Runs of the bootstrap server (Bootstrap/) with an Iggy that takes every message, and of the task that
-- feeds it (Discovery/Groups.antt).
use xaeroflux.Prelude.{
  ℕ, ◌+◌, String, ◌≡◌, ◌≢◌, refl, true, none, some, List, [], ◌∷◌, ◌==◌, if◌then◌else◌, string_dec,
  arith,
}
use xaeroflux.Prelude.Int.{pos}
use xaeroflux.Prelude.Dict.{lookup}
use xaeroflux.Event.{Event}
use xaeroflux.Network.{received}
use xaeroflux.Discovery.Actions.{ok, short_slice}
use xaeroflux.Discovery.Groups.{Forwarder, on_group_event, on_group_event-group_of_topic}
use xaeroflux.Bootstrap.Records.{
  NetworkEvent, workspace_created, board_created, chat_sent, notebook_cell_added,
  notebook_cell_updated,
}
use xaeroflux.Bootstrap.Texts.{is_blank}
use xaeroflux.Bootstrap.Scope.{no_scopes, text_or}
use xaeroflux.Bootstrap.Convert.{Printer, convert_network_event}
use xaeroflux.Bootstrap.Iggy.{Client, built}
use xaeroflux.Bootstrap.Serve.{Wake, event, iggy_retry, Setup, Server, serve, group_of_topic}
use xaeroflux.Bootstrap.Routing.{
  Input, scope_of, last_group, last_workspace, convert_all, convert_all-cell, board-cell-apart,
}
use xaeroflux.Bootstrap.Reports.{Tick, work, heartbeat, stats, reports}
use xaeroflux.Bootstrap.Reports.Truth.{AreTrue, reports-AreTrue}
use xaeroflux.Bootstrap.Counters.{IsHonest, IsOrdered, serve-IsOrdered}

abbrev printer : Printer
printer = record {
  Value = String;
  text = λ s. s;
  optional = text_or "null";
  number = λ n. "number";
  print = λ d. "object";
}

-- The world is the number of messages taken.
abbrev pub iggy : Client
iggy = record {
  World = ℕ;
  Handle = Unit {0};
  build = λ addr w. (built tt, w);
  connect_to = λ h w. (none, w);
  create_all = λ h w. w;
  send_messages = λ h payload w. (none, w + 1);
  to_vec = λ raw. some [];
}

abbrev chat : NetworkEvent (Unit {0})
chat = chat_sent "chat-1" "w1" "hello" "ann" none (pos 7)

abbrev workspace : NetworkEvent (Unit {0})
workspace =
    workspace_created (record { id = "w1"; group_id = "g1"; name = "Design"; created_at = pos 3 })

abbrev pub setup : Setup
setup = record {
  F = Unit {0};
  P = printer;
  decode = λ s. if s == "chat" then some chat else none;
  is_debug = true;
}

abbrev ready : Server iggy
ready = record {
  tracker = no_scopes;
  iggy = record { client = none; addr = "a"; enabled = true; last_error = none; messages_sent = 0 };
  world = 0;
  events_received = 0;
  events_converted = 0;
  events_forwarded = 0;
}

abbrev chat_event : Event
chat_event = record { id = "e"; payload = "chat"; source = "group/g1"; ts = 9 }

abbrev wakes : List Wake
wakes = event chat_event "id-1" 10 ∷ iggy_retry ∷ event chat_event "id-2" 11 ∷ []

ready-IsHonest : IsHonest iggy ready
unfolding IsHonest
ready-IsHonest = refl

ready-IsOrdered : IsOrdered iggy ready
ready-IsOrdered = record { forwarded = omega arith; converted = omega arith }

serve-IsOrdered_example : IsOrdered iggy (serve iggy setup wakes ready).1
serve-IsOrdered_example = serve-IsOrdered iggy setup wakes ready (omega arith) ready-IsOrdered

abbrev ticks : List Tick
ticks =
    heartbeat
    ∷ work (event chat_event "id-1" 10)
    ∷ work iggy_retry
    ∷ heartbeat
    ∷ work (event chat_event "id-2" 11)
    ∷ stats
    ∷ []

reports-AreTrue_example :
    AreTrue (record { recv = 0; conv = 0; fwd = 0 }) (reports iggy setup ticks ready)
reports-AreTrue_example =
    reports-AreTrue iggy setup ticks ready (record { recv = 0; conv = 0; fwd = 0 }) (omega arith)
      (omega arith) ready-IsOrdered ready-IsHonest

abbrev cut_event : Wake
cut_event =
    event (record { id = "e"; payload = "chat"; source = "group/aaaaaaaaaaaaaaaéa"; ts = 9 }) "id-1"
      10

abbrev inputs : List (Input (Unit {0}))
inputs = record { event = workspace; topic = "g0"; new_id = "id-0"; now = 1 } ∷ []

abbrev board_inputs : List (Input (Unit {0}))
board_inputs =
    record {
      event = board_created "b1" "w1" "plans" (pos 3);
      topic = "g0";
      new_id = "id-1";
      now = 2;
    }
    ∷ inputs

abbrev cell_scope : String × String
cell_scope =
    let w = text_or "unknown" (last_workspace board_inputs "b1" none) in
    (text_or "unknown" (last_group board_inputs w (lookup w [])), w)

convert_all-cell_example :
    (scope_of
        (convert_network_event printer "id-2" 3 {F = Unit {0}}
          (notebook_cell_added "c1" "b1" "text" (pos 0) (some "x"))
          "g2"
          (convert_all printer board_inputs no_scopes)).0
      ≡ some cell_scope)
    × (scope_of
          (convert_network_event printer "id-2" 3 {F = Unit {0}}
            (notebook_cell_updated "c1" "b1" "text" (pos 0) (some "x") none true none none)
            "g2"
            (convert_all printer board_inputs no_scopes)).0
        ≡ some cell_scope)
unfolding is_blank lookup
convert_all-cell_example =
    convert_all-cell printer board_inputs no_scopes "id-2" 3 "c1" "b1" "text" "x" "g2" (pos 0) none
      none true none refl

board-cell-apart_example :
    (scope_of
        (convert_network_event printer "id-1" 2 {F = Unit {0}}
          (board_created "b1" "w1" "plans" (pos 3))
          "g2"
          no_scopes).0
      ≡ some ("g2", "w1"))
    × (scope_of
          (convert_network_event printer "id-2" 3 {F = Unit {0}}
            (notebook_cell_added "c1" "b1" "text" (pos 0) (some "x"))
            "g2"
            (convert_network_event printer "id-1" 2 {F = Unit {0}}
              (board_created "b1" "w1" "plans" (pos 3))
              "g2"
              no_scopes).1).0
        ≡ some ("unknown", "w1"))
unfolding is_blank lookup
board-cell-apart_example =
    board-cell-apart printer (Unit {0}) no_scopes "id-1" "id-2" 2 3 "b1" "w1" "plans" "c1" "text"
      "x" "g2" (pos 3) (pos 0) refl refl

last_group_test : last_group inputs "w1" none ≡ some "g1"
unfolding string_dec
last_group_test = refl

abbrev forwarder : Forwarder
forwarder = record {
  digest = λ bytes. "0123456789abcdef0123";
  utf8_lossy = λ bytes. "chat";
  is_on = λ level. true;
  is_error_on = true;
}

some_ne_none : (s : String) → some s ≢ none
some_ne_none s p = cc

on_group_event-group_of_topic_example :
    (e : Event) × (on_group_event forwarder "g1" 9 (received []) ≡ ok (some e))
    × (group_of_topic e.source ≡ "g1")
    × (e.payload ≡ "chat")
unfolding short_slice
on_group_event-group_of_topic_example =
    on_group_event-group_of_topic forwarder "g1" 9 [] (some_ne_none "g1")
      (some_ne_none "0123456789abcdef")
