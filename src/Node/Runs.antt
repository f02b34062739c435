-- ===== src/Node/Runs.antt =====
-- What holds of every run of a node, in whatever order tokio lets the actors run and whatever
-- statement fails.
use mathlib.Core.List.{append-nil, append_assoc}
use xaeroflux.Prelude.{String, ◌≡◌, List, [], ◌∷◌, ◌++◌, Distinct, All}
use xaeroflux.Event.{ids}
use xaeroflux.Sqlite.{Sqlite}
use xaeroflux.Storage.Insert.{ids-append}
use xaeroflux.Node.{Action, Output, Config, Node, step, run}
use xaeroflux.Node.Steps.{
  announced, handed_over, taken, IsForeign, announced-append, handed_over-append, taken-append,
  table, step-Moves,
}

All-append :
    (me : String) (os ps : List Output)
    → All (IsForeign me) os
    → All (IsForeign me) ps
    → All (IsForeign me) (os ++ ps)
All-append me [] ps h k = k
All-append me (o ∷ os) ps h k = (h.0, All-append me os ps h.1 k)

module _ (S : Sqlite) (cfg : Config) where
  -- Whatever the node does and in whatever order, its events table is the old table followed by
  -- exactly the events that it announced, to the network actor or to the application, in the order
  -- of the announcements: nothing is announced that is not stored, and nothing is stored silently.
  pub table-run :
      (actions : List Action) (n : Node S)
      → table S (run S cfg actions n).1 ≡ table S n ++ announced (run S cfg actions n).0
  unfolding run
  table-run [] n = rw append-nil
  table-run (a ∷ actions) n =
      let (out, n') = step S cfg a n in
      rw (table-run actions n', announced-append, (step-Moves S cfg a n).rows, append_assoc)

  -- From distinct ids the ids of the table stay distinct.
  pub run-Distinct :
      (actions : List Action) (n : Node S)
      → Distinct (ids (table S n))
      → Distinct (ids (table S (run S cfg actions n).1))
  unfolding run
  run-Distinct [] n d = d
  run-Distinct (a ∷ actions) n d =
      run-Distinct actions (step S cfg a n).1 ((step-Moves S cfg a n).distinct d)

  -- Deduplication: if the ids of the table are distinct, then over a whole run no id is announced twice,
  -- on either side, and none that the table held before, however often copies of an event are sent or
  -- arrive.
  pub announced-run-Distinct :
      (actions : List Action) (n : Node S)
      → Distinct (ids (table S n))
      → Distinct (ids (table S n) ++ ids (announced (run S cfg actions n).0))
  announced-run-Distinct actions n d =
      rw (← ids-append (table S n) (announced (run S cfg actions n).0), ← table-run actions n)
        (run-Distinct actions n d)

  -- No event whose source is the node itself is handed back to the application.
  pub run-IsForeign :
      (actions : List Action) (n : Node S) → All (IsForeign cfg.node_id) (run S cfg actions n).0
  unfolding run
  run-IsForeign [] n = tt
  run-IsForeign (a ∷ actions) n =
      All-append cfg.node_id (step S cfg a n).0 (run S cfg actions (step S cfg a n).1).0
        (step-Moves S cfg a n).foreign (run-IsForeign actions (step S cfg a n).1)

  -- The channel between the actors is first in, first out: what was queued before the run and handed over
  -- in it is what was taken in it followed by what is queued after it.
  pub outbound-run :
      (actions : List Action) (n : Node S)
      → n.outbound_rx ++ handed_over (run S cfg actions n).0
        ≡ taken (run S cfg actions n).0 ++ (run S cfg actions n).1.outbound_rx
  unfolding run
  outbound-run [] n = append-nil n.outbound_rx
  outbound-run (a ∷ actions) n =
      let (out, n') = step S cfg a n in
      let outs = (run S cfg actions n').0 in
      rw (
        handed_over-append,
        taken-append,
        ← append_assoc n.outbound_rx (handed_over out) (handed_over outs),
        (step-Moves S cfg a n).queue,
        append_assoc,
        append_assoc,
        outbound-run actions n',
      )
