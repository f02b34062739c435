-- ===== src/Cli.antt =====
-- The interactive mode of the command-line tool (main.rs) over a node that has started: what it sends, and what
-- it prints of the events that arrive. Session is a whole run of the tool.
pub mod Lines
pub mod Typed
pub mod Received
pub mod Session
pub mod Delivery
pub mod Survives
pub mod Names
use text.Mathlib.Text.{get?}
use xaeroflux.Prelude.{ℕ, String, Bool, List, Option, none, some, [], ◌∷◌, ◌==◌, if◌then◌else◌}
use xaeroflux.Event.{Event, generate_event_id}
use xaeroflux.Discovery.Actions.{Exit, ok, panic}
use xaeroflux.Cli.Lines.{trim}

-- What `read_line` yields.
pub data Input : Type 0 where
  line : String → Input
  eof unreadable : Input

-- One turn of the loop, with the clock, whether the storage actor still receives, and whether stdout can be
-- flushed.
pub record Turn : Type 0 where
  pub input : Input
  pub now : ℕ
  pub is_open : Bool
  pub flushes : Bool

-- How the loop stands: it waits for a line, or has ended.
pub data Ending : Type 0 where
  waiting at_eof at_quit at_error closed not_flushed : Ending

module _ (blake3 : String → String) (node_id : String) where
  abbrev pub message_event : String → ℕ → Event
  message_event message now = record {
    id = generate_event_id blake3 message node_id now;
    payload = message;
    source = node_id;
    ts = now;
  }

  -- `print!("> ")` and the flush.
  abbrev pub prompted : Bool → List Event × Ending → List Event × Ending
  prompted flushes rest = if flushes then rest else ([], not_flushed)

  -- The events sent, the oldest first.
  abbrev pub sent_first : Event → List Event × Ending → List Event × Ending
  sent_first e (es, end) = (e ∷ es, end)

  unfoldable pub on_message : String → Turn → List Event × Ending → List Event × Ending
  on_message message t rest =
      let next = prompted t.flushes rest in
      if message == "quit"
      then ([], at_quit)
      else (if message == ""
          then next
          else (if t.is_open then sent_first (message_event message t.now) next else ([], closed)))

  abbrev pub on_input : Input → Turn → List Event × Ending → List Event × Ending
  on_input (line s) t rest = on_message (trim s) t rest
  on_input eof t rest = ([], at_eof)
  on_input unreadable t rest = ([], at_error)

  unfoldable pub interactive_mode : List Turn → List Event × Ending
  unfolding on_message
  interactive_mode [] = ([], waiting)
  interactive_mode (t ∷ turns) = let rest = interactive_mode turns in on_input t.input t rest

-- `println!("\n[{}] {}", &event.source[..8], event.payload)`
abbrev pub printed :
    Option String
    → Event
    → Exit (Unit {0}) × List (String × String)
    → Exit (Unit {0}) × List (String × String)
printed none e rest = (panic, [])
printed (some source) e (exit, lines) = (exit, (source, e.payload) ∷ lines)

-- The task that prints what arrives, as long as stdout can be flushed.
unfoldable pub print_received : List Event → Exit (Unit {0}) × List (String × String)
print_received [] = (ok tt, [])
print_received (e ∷ es) = let rest = print_received es in printed (get? e.source 0 8) e rest
