-- ===== src/Tests/Meshes.antt =====
-- Two nodes of a mesh (Mesh.antt) over engines that never fail: one application sends an event, its node
-- stores and broadcasts it.
use mathlib.Core.Logic.{if_pos, if_neg}
use xaeroflux.Prelude.{◌≡◌, refl, string_dec, [], ◌∷◌, contains, All}
use xaeroflux.Event.{Event, ids}
use xaeroflux.Sqlite.Memory.{reliable, reliable-NeverFails}
use xaeroflux.Storage.{store_event}
use xaeroflux.Node.{Node, store_next, broadcast_next, step}
use xaeroflux.Node.Steps.{table}
use xaeroflux.Mesh.{Mesh, advance, send, Reaches, here, next, sends, stores, broadcasts}
use xaeroflux.Mesh.Provenance.{Among}
use xaeroflux.Mesh.Genuine.{IsFresh, Reaches-genuine}
use xaeroflux.Mesh.Convergence.{IsQuiet, caught_up, caught_up-converges}
use xaeroflux.Tests.Wire.{wire, wire-RoundTrips, wire-IsTotal}

abbrev letter : Event
letter = record { id = "e1"; payload = "hello"; source = "alice"; ts = 7 }

abbrev idle : Node reliable
idle = record {
  connection = record { events = []; group_peers = [] };
  app_rx = [];
  outbound_rx = [];
}

abbrev start : Mesh reliable wire
start = record { nodes = λ i. idle; air = []; history = [] }

start-IsFresh : IsFresh reliable wire start
start-IsFresh = record {
  no_table = λ i. refl;
  no_app = λ i. refl;
  no_outbound = λ i. refl;
  no_air = refl;
  no_history = refl;
}

abbrev sent_letter : Mesh reliable wire
sent_letter = send reliable wire "alice" letter start

abbrev stored_letter : Mesh reliable wire
stored_letter = advance reliable wire "alice" store_next sent_letter

abbrev flying_letter : Mesh reliable wire
flying_letter = advance reliable wire "alice" broadcast_next stored_letter

letter-Reaches : Reaches reliable wire start flying_letter
letter-Reaches =
    next (next (next here (sends start "alice" letter refl)) (stores sent_letter "alice"))
      (broadcasts stored_letter "alice")

letter-IsQuiet : IsQuiet reliable wire flying_letter
unfolding send advance step store_event string_dec
letter-IsQuiet = record {
  no_app = λ i. elim (string_dec "alice" i) [
    | yes p ↦ rw (if_pos (string_dec "alice" i) p _ _) refl
    | no p ↦ rw (if_neg (string_dec "alice" i) p _ _) refl
  ];
  no_outbound = λ i. elim (string_dec "alice" i) [
    | yes p ↦ rw (if_pos (string_dec "alice" i) p _ _) refl
    | no p ↦ rw (if_neg (string_dec "alice" i) p _ _) refl
  ];
}

Reaches-genuine_example : All (Among (letter ∷ [])) (table reliable (flying_letter.nodes "alice"))
unfolding send advance
Reaches-genuine_example =
    Reaches-genuine reliable wire wire-RoundTrips start-IsFresh letter-Reaches "alice"

caught_up-converges_example :
    contains (ids (table reliable (caught_up reliable wire flying_letter "bob"))) "e1"
    ≡ contains ("e1" ∷ []) "e1"
unfolding send advance
caught_up-converges_example =
    caught_up-converges reliable wire reliable-NeverFails wire-RoundTrips wire-IsTotal start-IsFresh
      letter-Reaches letter-IsQuiet "bob" "e1"
