-- ===== src/Cli/Names.antt =====
-- The `info` command shows the name under which every other command sends.
use mathlib.Core.Path.{subst}
use text.Mathlib.Text.{get?}
use Prim.Native.String.{◌++◌ as ◌<>◌}
use xaeroflux.Prelude.{
  ◌≢◌, String, ◌≡◌, refl, ap, sym, ◌∙◌, Bool, true, false, Bool-cases, inl, inr, Option-cases,
  Option, some, List, [], ◌∷◌, All, ◌==◌,
}
use xaeroflux.Prelude.Int.{ℤ}
use xaeroflux.Event.{Event}
use xaeroflux.Sqlite.{Sqlite}
use xaeroflux.Startup.Files.{Files}
use xaeroflux.Startup.Config.{built}
use xaeroflux.Startup.Identity.{Secrets, key_path, HasKey}
use xaeroflux.Startup.Start.{Host, XaeroFlux}
use xaeroflux.Startup.Started.{Stores}
use xaeroflux.Cli.{
  Input, line, eof, unreadable, Turn, Ending, prompted, on_message, on_input, interactive_mode,
}
use xaeroflux.Cli.Lines.{trim}
use xaeroflux.Cli.Session.{
  Arguments, Surroundings, Session, Commands, send, recv, interactive, info, main, run_command,
  send_event, interactive_session, show_info, summary, topic,
}
use xaeroflux.Startup.SharedKey.{same_directory-node_id}
use xaeroflux.Cli.Survives.{config_of, Starts, Starts-IsStarted}

-- The event names the node as its source.
abbrev pub IsFrom : String → Event → Type 0
IsFrom node_id e = e.source ≡ node_id

module _ (blake3 : String → String) (node_id : String) where
  prompted-IsFrom :
      (flushes : Bool) (rest : List Event × Ending)
      → All (IsFrom node_id) rest.0
      → All (IsFrom node_id) (prompted blake3 node_id flushes rest).0
  prompted-IsFrom true rest h = h
  prompted-IsFrom false rest h = tt

  on_input-IsFrom :
      (i : Input) (t : Turn) (rest : List Event × Ending)
      → All (IsFrom node_id) rest.0
      → All (IsFrom node_id) (on_input blake3 node_id i t rest).0
  unfolding on_message
  on_input-IsFrom (line s) t rest h =
      let next = prompted-IsFrom t.flushes rest h in
      elim (Bool-cases (trim s == "quit")) [
        | inl p ↦ rw p tt
        | inr p ↦ elim (Bool-cases (trim s == "")) [
          | inl q ↦ rw (p, q) next
          | inr q ↦ elim (Bool-cases t.is_open) [
            | inl r ↦ rw (p, q, r) (refl, next)
            | inr r ↦ rw (p, q, r) tt
          ]
        ]
      ]
  on_input-IsFrom eof t rest h = tt
  on_input-IsFrom unreadable t rest h = tt

  interactive_mode-IsFrom :
      (turns : List Turn) → All (IsFrom node_id) (interactive_mode blake3 node_id turns).0
  unfolding interactive_mode
  interactive_mode-IsFrom [] = tt
  interactive_mode-IsFrom (t ∷ turns) =
      on_input-IsFrom t.input t (interactive_mode blake3 node_id turns)
        (interactive_mode-IsFrom turns)

module _ (S : Sqlite) (F : Files) (X : Secrets F) (H : Host S F X) where
  open F use {World}

  module _ (blake3 : String → String) (show_time : ℤ → Option String) where
    run_command-IsFrom :
        (command : Commands) (args : Arguments) (s : Surroundings) (xf : XaeroFlux S F X H)
        → All (IsFrom xf.node_id) (run_command S F X H blake3 show_time command args s xf).sent
    unfolding run_command send_event interactive_session show_info
    run_command-IsFrom (send message) args s xf = elim (Bool-cases s.is_open) [
      | inl p ↦ rw p (refl, tt)
      | inr p ↦ rw p tt
    ]
    run_command-IsFrom recv args s xf = tt
    run_command-IsFrom interactive args s xf =
        prompted-IsFrom blake3 xf.node_id s.flushes _
          (interactive_mode-IsFrom blake3 xf.node_id s.turns)
    run_command-IsFrom info args s xf = elim (Option-cases (get? xf.node_id 0 38)) [
      | inl p ↦ rw p tt
      | inr (shown, p) ↦ rw p tt
    ]

    main-run_command :
        (args : Arguments) (s : Surroundings) (w w' : World) (xf : XaeroFlux S F X H)
        → Starts S F X H args w xf w'
        → main S F X H blake3 show_time args s w
          ≡ (run_command S F X H blake3 show_time args.command args s xf, w')
    unfolding main
    main-run_command args s w w' xf started = rw started refl

    -- What `info` prints of the node, if its id can be cut at 38 bytes.
    run_command-info :
        (args : Arguments) (s : Surroundings) (xf : XaeroFlux S F X H) (shown : String)
        → get? xf.node_id 0 38 ≡ some shown
        → (run_command S F X H blake3 show_time info args s xf).printed
          ≡ summary shown args.discovery_key args.db
            ∷ topic ("xsp-1.0/" <> (args.discovery_key <> "/events"))
            ∷ []
    unfolding run_command show_info
    run_command-info args s xf shown cut = rw cut refl

    module _ (D : Stores H) where
      -- Every event that a session sends, by whatever command, names one node, and a later session over a
      -- database with the same key file, if the key is then still in it, is the same node: its `info` prints
      -- the first 38 bytes of the name, where there is a character boundary. The key file is neither
      -- database.
      pub info-IsFrom :
          (args args' : Arguments) (s s' : Surroundings) (w w' v v' : World)
          (first second : XaeroFlux S F X H) (shown : String)
          → args.db ≢ key_path F X args.db
          → args'.db ≢ key_path F X args'.db
          → key_path F X args.db ≡ key_path F X args'.db
          → Starts S F X H args w first w'
          → HasKey F X (key_path F X args.db) first.secret_key v
          → Starts S F X H args' v second v'
          → args'.command ≡ info
          → get? first.node_id 0 38 ≡ some shown
          → All (IsFrom first.node_id) (main S F X H blake3 show_time args s w).0.sent
            × ((main S F X H blake3 show_time args' s' v).0.printed
                ≡ summary shown args'.discovery_key args'.db
                  ∷ topic ("xsp-1.0/" <> (args'.discovery_key <> "/events"))
                  ∷ [])
      unfolding built
      info-IsFrom args args' s s' w w' v v' first second shown apart apart' same started kept later
            command cut =
          let a = Starts-IsStarted S F X H D args w w' first apart started in
          let b = Starts-IsStarted S F X H D args' v v' second apart' later in
          let one =
            same_directory-node_id S F X H D (config_of S F X H args) (config_of S F X H args') w v
              first second same a kept b in
          (
            subst (λ (r : Session × World). All (IsFrom first.node_id) r.0.sent)
                (sym (main-run_command args s w w' first started))
                (run_command-IsFrom args.command args s first),
            ap (λ (r : Session × World). r.0.printed) (main-run_command args' s' v v' second later)
                ∙ ap (λ c. (run_command S F X H blake3 show_time c args' s' second).printed) command
                ∙ run_command-info args' s' second shown (ap (λ id. get? id 0 38) one ∙ cut),
          )
