-- ===== src/Cli/Typed.antt =====
-- What the interactive mode sends, from the lines that are typed.
use xaeroflux.Prelude.{
  ℕ, String, ◌≡◌, refl, Bool, true, List, [], ◌∷◌, All, arith, contains, ◌==◌, if◌then◌else◌,
}
use xaeroflux.Event.{Event, ids}
use xaeroflux.Sqlite.{Sqlite, NeverFails}
use xaeroflux.Node.{Action, Config, Node, run}
use xaeroflux.Node.NoLoss.{keeps, sends, keeps-run}
use xaeroflux.Cli.{
  Input, line, eof, unreadable, Turn, message_event, on_input, on_message, interactive_mode, Ending,
}
use xaeroflux.Bootstrap.Texts.{is_blank}
use xaeroflux.Cli.Lines.{trim, trim-is_blank}

-- A line without the white space around it.
abbrev pub entered : Input → String
entered (line s) = trim s
entered _ = ""

abbrev pub is_stop : Input → Bool
is_stop (line s) = trim s == "quit"
is_stop eof = true
is_stop unreadable = true

-- The turns before the first that stops the loop.
abbrev pub until_stop : List Turn → List Turn
until_stop [] = []
until_stop (t ∷ turns) = let rest = until_stop turns in if is_stop t.input then [] else t ∷ rest

abbrev pub is_blank_input : Input → Bool
is_blank_input (line s) = is_blank s
is_blank_input _ = true

-- The lines that are not blank, trimmed, each with its time.
abbrev pub messages : List Turn → List (String × ℕ)
messages [] = []
messages (t ∷ turns) =
    let rest = messages turns in
    if is_blank_input t.input then rest else (entered t.input, t.now) ∷ rest

-- The messages typed before the loop stops.
abbrev pub typed : List Turn → List (String × ℕ)
typed turns = messages (until_stop turns)

-- The storage actor receives, and stdout can be flushed.
abbrev pub IsWorking : Turn → Type 0
IsWorking t = (t.is_open ≡ true) × (t.flushes ≡ true)

module _ (blake3 : String → String) (node_id : String) where
  -- The events of the messages.
  abbrev pub events_of : List (String × ℕ) → List Event
  events_of [] = []
  events_of ((m, now) ∷ ms) = message_event blake3 node_id m now ∷ events_of ms

  on_input-typed :
      (i : Input) (t : Turn) (turns : List Turn) (rest : List Event × Ending)
      → IsWorking t
      → t.input ≡ i
      → rest.0 ≡ events_of (typed turns)
      → (on_input blake3 node_id i t rest).0
        ≡ events_of (messages (if is_stop i then [] else t ∷ until_stop turns))
  unfolding on_message
  on_input-typed (line s) t turns rest h p q = ground (arith, h, p, q, trim-is_blank s)
  on_input-typed eof t turns rest h p q = refl
  on_input-typed unreadable t turns rest h p q = refl

  -- While the storage actor receives and stdout can be flushed, the interactive mode sends exactly the
  -- messages typed, in order, each as an event of the node's own with its id of payload, source and time:
  -- the lines before the first "quit", end of input or read error, those that are not blank, trimmed.
  pub interactive_mode-typed :
      (turns : List Turn)
      → All IsWorking turns
      → (interactive_mode blake3 node_id turns).0 ≡ events_of (typed turns)
  unfolding interactive_mode
  interactive_mode-typed [] h = refl
  interactive_mode-typed (t ∷ turns) (now, later) =
      on_input-typed t.input t turns (interactive_mode blake3 node_id turns) now refl
        (interactive_mode-typed turns later)

  -- What is typed is not lost: if no statement fails, the storage actor receives and stdout can be flushed,
  -- then after any run of the node in which its application sends what the interactive mode sends, the id of
  -- every message typed is in the table or still queued for it.
  pub typed-keeps :
      (S : Sqlite) (cfg : Config) (turns : List Turn) (actions : List Action) (n : Node S)
      (x : String)
      → NeverFails S
      → All IsWorking turns
      → sends actions ≡ (interactive_mode blake3 node_id turns).0
      → contains (ids (events_of (typed turns))) x ≡ true
      → keeps S (run S cfg actions n).1 x ≡ true
  typed-keeps S cfg turns actions n x ok working sent_all h =
      keeps-run S ok x cfg actions n
        (ground (arith, sent_all, interactive_mode-typed turns working))
