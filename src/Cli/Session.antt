-- ===== src/Cli/Session.antt =====
-- One run of the command-line tool of main.rs: the node is started, and the command uses it. What is printed
-- are the values, without the words around them; what the task of the interactive mode prints is `print_received`.
use text.Mathlib.Text.{get?}
use Prim.Native.String.{◌++◌ as ◌<>◌}
use xaeroflux.Prelude.{
  ℕ, ◌-◌, ◌^◌, String, Bool, Option, none, some, List, [], ◌∷◌, ltb, if◌then◌else◌,
}
use xaeroflux.Prelude.Int.{ℤ, pos, negsuc}
use xaeroflux.Event.{Event}
use xaeroflux.Sqlite.{Sqlite}
use xaeroflux.Startup.Files.{Files}
use xaeroflux.Startup.Boot.{StartError, Result, ok, err}
use xaeroflux.Startup.Identity.{Secrets}
use xaeroflux.Startup.Start.{Host, XaeroFlux, new_with_bootstrap}
use xaeroflux.Cli.{
  Turn, Ending, waiting, at_eof, at_quit, at_error, closed, not_flushed, prompted, message_event,
  interactive_mode,
}

pub data Commands : Type 0 where
  send : String → Commands
  recv interactive info : Commands

pub record Arguments : Type 0 where
  pub discovery_key : String
  pub db : String
  pub bootstrap : List String
  pub command : Commands

-- What happens around a session: the clock, whether the storage actor still receives, the events that arrive
-- until the channel closes, whether the first prompt can be flushed, and the lines typed.
pub record Surroundings : Type 0 where
  pub now : ℕ
  pub is_open : Bool
  pub arrivals : List Event
  pub flushes : Bool
  pub turns : List Turn

pub data Printed : Type 0 where
  node : String → String → Printed
  sending : Event → Printed
  arrived : Event → String → Printed
  summary : String → String → String → Printed
  topic : String → Printed

-- How `main` ends: with `Ok`, with the error of the start, the channel or the flush, or with a panic; `running`
-- is none of these yet.
pub data Finish : Type 0 where
  done not_sent unflushed panicked running : Finish
  not_started : StartError → Finish

pub record Session : Type 0 where
  pub sent : List Event
  pub printed : List Printed
  pub finish : Finish

-- `event.ts as i64`
unfoldable pub as_i64 : ℕ → ℤ
as_i64 ts = if ltb ts (2 ^ 63) then pos ts else negsuc (2 ^ 64 - ts - 1)

-- `DateTime::from_timestamp` of chrono, with the format.
module _ (show_time : ℤ → Option String) where
  or_unknown : Option String → String
  or_unknown none = "unknown"
  or_unknown (some text) = text

  unfoldable pub receive_events : List Event → List Printed
  unfolding or_unknown as_i64
  receive_events [] = []
  receive_events (e ∷ es) = arrived e (or_unknown (show_time (as_i64 e.ts))) ∷ receive_events es

finish_of : Ending → Finish
finish_of waiting = running
finish_of at_eof = done
finish_of at_quit = done
finish_of at_error = done
finish_of closed = done
finish_of not_flushed = unflushed

module _ (S : Sqlite) (F : Files) (X : Secrets F) (H : Host S F X) where
  open F use {World}

  module _ (blake3 : String → String) (show_time : ℤ → Option String) where
    -- `tx.send`, and the wait of a second after it.
    unfoldable pub send_event : String → Surroundings → XaeroFlux S F X H → Session
    send_event message s xf =
        let e = message_event blake3 xf.node_id message s.now in
        if s.is_open
        then record { sent = e ∷ []; printed = sending e ∷ []; finish = done }
        else record { sent = []; printed = sending e ∷ []; finish = not_sent }

    unfoldable pub interactive_session : Arguments → Surroundings → XaeroFlux S F X H → Session
    unfolding finish_of
    interactive_session args s xf =
        let (es, end) =
          prompted blake3 xf.node_id s.flushes (interactive_mode blake3 xf.node_id s.turns) in
        record {
          sent = es;
          printed = node xf.node_id args.discovery_key ∷ [];
          finish = finish_of end;
        }

    summarized : Arguments → Option String → Session
    summarized args none = record { sent = []; printed = []; finish = panicked }
    summarized args (some shown) = record {
      sent = [];
      printed =
          summary shown args.discovery_key args.db
          ∷ topic ("xsp-1.0/" <> (args.discovery_key <> "/events"))
          ∷ [];
      finish = done;
    }

    -- `&xf.node_id[..38]`
    unfoldable pub show_info : Arguments → XaeroFlux S F X H → Session
    unfolding summarized
    show_info args xf = summarized args (get? xf.node_id 0 38)

    unfoldable pub run_command : Commands → Arguments → Surroundings → XaeroFlux S F X H → Session
    unfolding send_event interactive_session show_info
    run_command (send message) args s xf = send_event message s xf
    run_command recv args s xf = record {
      sent = [];
      printed = node xf.node_id args.discovery_key ∷ receive_events show_time s.arrivals;
      finish = done;
    }
    run_command interactive args s xf = interactive_session args s xf
    run_command info args s xf = show_info args xf

    started : Arguments → Surroundings → Result (XaeroFlux S F X H) → Session
    unfolding run_command
    started args s (err e) = record { sent = []; printed = []; finish = not_started e }
    started args s (ok xf) = run_command args.command args s xf

    -- Each command starts the node first.
    unfoldable pub main : Arguments → Surroundings → World → Session × World
    unfolding new_with_bootstrap started
    main args s w =
        let (r, w') = new_with_bootstrap S F X H args.discovery_key args.db args.bootstrap w in
        (started args s r, w')
