-- ===== src/Tests/Prompts.antt =====
-- The command-line tool (Cli.antt) on a few lines of input, and on a message that ends its output.
use mathlib.Core.Bool.{false≢true}
use text.Mathlib.TextEquality.{eq_iff}
use xaeroflux.Prelude.{ℕ, String, ◌≡◌, refl, List, [], ◌∷◌, true, string_dec}
use xaeroflux.Event.{Event}
use xaeroflux.Sqlite.Memory.{reliable, reliable-NeverFails}
use xaeroflux.Network.{received}
use xaeroflux.Node.{Action, store_next, gossip, Config, Node, run, step}
use xaeroflux.Discovery.Actions.{panic}
use xaeroflux.Cli.{line, Turn, message_event, interactive_mode, on_message}
use xaeroflux.Cli.Lines.{trim, trim_start, trim_end}
use xaeroflux.Cli.Typed.{events_of, typed, interactive_mode-typed}
use xaeroflux.Cli.Received.{printed_in, run-received-panics}
use xaeroflux.Tests.Wire.{wire, wire_bytes, wire-RoundTrips}

abbrev turn : String → ℕ → Turn
turn s now = record { input = line s; now = now; is_open = true; flushes = true }

-- A message, a blank line, the word that quits, and a line that is not read.
abbrev turns : List Turn
turns = turn " hi \n" 5 ∷ turn " \n" 6 ∷ turn "quit\n" 7 ∷ turn "later\n" 8 ∷ []

abbrev hash : String → String
hash s = s

interactive_mode_test : (interactive_mode hash "me" turns).0 ≡ message_event hash "me" "hi" 5 ∷ []
unfolding interactive_mode on_message trim trim_start trim_end string_dec
interactive_mode_test = refl

interactive_mode-typed_example :
    (interactive_mode hash "me" turns).0 ≡ events_of hash "me" (typed turns)
interactive_mode-typed_example =
    interactive_mode-typed hash "me" turns
      ((refl, refl), ((refl, refl), ((refl, refl), ((refl, refl), tt))))

abbrev short : Event
short = record { id = "e1"; payload = "hello"; source = "bob"; ts = 7 }

abbrev me : Config
me = record { node_id = "alice"; codec = wire }

abbrev idle : Node reliable
idle = record {
  connection = record { events = []; group_peers = [] };
  app_rx = [];
  outbound_rx = [];
}

abbrev arrival : Action
arrival = gossip (received (wire_bytes short))

run-received-panics_example :
    ((printed_in reliable me (store_next ∷ arrival ∷ arrival ∷ []) idle).0 ≡ panic)
    × (printed_in reliable me (store_next ∷ arrival ∷ arrival ∷ []) idle
        ≡ printed_in reliable me (store_next ∷ arrival ∷ []) idle)
unfolding run step
run-received-panics_example =
    run-received-panics reliable me (store_next ∷ []) (arrival ∷ []) short (wire_bytes short) idle
      reliable-NeverFails wire-RoundTrips refl (λ h. false≢true ((eq_iff "bob" "alice").1 h)) refl
      refl
