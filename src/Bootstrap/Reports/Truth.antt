-- ===== src/Bootstrap/Reports/Truth.antt =====
-- The numbers that the bootstrap server prints, against what it counts.
use xaeroflux.Prelude.{
  ℕ, ◌+◌, ◌≤◌, ◌<◌, ◌^◌, String, Bool, true, false, not, if◌then◌else◌, ◌≡◌, Option-cases, inl, inr,
  Option, none, some, List, [], ◌∷◌, arith,
}
use xaeroflux.Event.{Event}
use xaeroflux.Discovery.Actions.{short_slice, Exit, ok, panic}
use xaeroflux.Bootstrap.Records.{NetworkEvent, RawEvent}
use xaeroflux.Bootstrap.Convert.{convert_network_event}
use xaeroflux.Bootstrap.Iggy.{Client}
use xaeroflux.Bootstrap.Serve.{
  Wake, event, iggy_retry, Setup, Server, add_one, forward, on_decoded, on_event, on_iggy_retry,
  wake, group_of_topic, has_client,
}
use xaeroflux.Bootstrap.Counters.{IsHonest, IsOrdered, wake-counts, wake-IsHonest}
use xaeroflux.Bootstrap.Reports.{
  Tick, work, heartbeat, stats, Status, is_disabled, is_connected, is_disconnected, Counts, Report,
  alive, statistics, counts, iggy_status, reports, after_work,
}

-- The counts are in order, and none is below an earlier one.
abbrev pub Follows : Counts → Counts → Type 0
Follows c d =
    (c.recv ≤ d.recv) × (c.conv ≤ d.conv) × (c.fwd ≤ d.fwd) × (d.conv ≤ d.recv) × (d.fwd ≤ d.conv)

-- A connected client has sent as many messages as events are counted as forwarded.
abbrev pub Agrees : Status → Counts → Type 0
Agrees is_disabled d = Unit
Agrees (is_connected n) d = n ≡ d.fwd
Agrees (is_disconnected e) d = Unit

abbrev pub AreTrue : Counts → List Report → Type 0
AreTrue c [] = Unit
AreTrue c (alive d status ∷ rs) = Follows c d × Agrees status d × AreTrue d rs
AreTrue c (statistics d workspaces boards ∷ rs) = Follows c d × AreTrue d rs

connected-Agrees :
    (enabled linked : Bool) (n : ℕ) (error : String) (d : Counts)
    → n ≡ (if enabled then d.fwd else 0)
    → Agrees
        (if not enabled
          then is_disabled
          else (if linked then is_connected n else is_disconnected error))
        d
connected-Agrees true true n error d h = h
connected-Agrees true false n error d h = tt
connected-Agrees false linked n error d h = tt

-- The work among the ticks.
abbrev pub works : List Tick → ℕ
works [] = 0
works (work w ∷ ticks) = works ticks + 1
works (heartbeat ∷ ticks) = works ticks
works (stats ∷ ticks) = works ticks

module _ (C : Client) where
  abbrev Grows : Server C → Server C → Type 0
  Grows s t =
      (s.events_received ≤ t.events_received)
      × (s.events_converted ≤ t.events_converted)
      × (s.events_forwarded ≤ t.events_forwarded)

  forward-Grows :
      (o : Option RawEvent) (s : Server C)
      → s.events_converted + 1 < 2 ^ 64
      → s.events_forwarded ≤ s.events_converted
      → Grows s (forward C o s).1
  unfolding forward
  forward-Grows none s small h = ground arith
  forward-Grows (some raw) s small h = ground arith

  status-Agrees : (s : Server C) → IsHonest C s → Agrees (iggy_status C s.iggy) (counts C s)
  unfolding iggy_status IsHonest
  status-Agrees s h =
      connected-Agrees s.iggy.enabled (has_client C s.iggy.client) s.iggy.messages_sent _
        (counts C s) h

module _ (C : Client) (setup : Setup) where
  open setup use {F, P, decode}

  on_decoded-Grows :
      (o : Option (NetworkEvent F)) (e : Event) (new_id : String) (now : ℕ) (s : Server C)
      → s.events_converted + 1 < 2 ^ 64
      → s.events_forwarded ≤ s.events_converted
      → Grows C s (on_decoded C setup o e new_id now s).1
  on_decoded-Grows none e new_id now s small h = ground arith
  on_decoded-Grows (some net_event) e new_id now s small h =
      elim (Option-cases (short_slice (group_of_topic e.source))) [
        | inl cut ↦ rw cut (omega arith)
        | inr (a, cut) ↦
            let (raw, t) =
              convert_network_event P new_id now net_event (group_of_topic e.source) s.tracker in
            rw cut (forward-Grows C raw (record s { tracker = t }) small h)
      ]

  wake-Grows :
      (w : Wake) (s : Server C)
      → s.events_received + 1 < 2 ^ 64
      → IsOrdered C s
      → Grows C s (wake C setup w s).1
  unfolding on_event on_iggy_retry
  wake-Grows (event e new_id now) s small h =
      let (a, b, c) =
        on_decoded-Grows (decode e.payload) e new_id now
          (record s { events_received = add_one s.events_received })
          (omega (arith, small, h.converted)) h.forwarded in
      (omega (arith, a, small), b, c)
  wake-Grows iggy_retry s small h = ground arith

  after_work-AreTrue :
      (c : Counts) (r : Exit (Unit {0})) (rest : List Report)
      → AreTrue c rest
      → AreTrue c (after_work C setup r rest)
  after_work-AreTrue c (ok _) rest h = h
  after_work-AreTrue c panic rest h = tt

  -- Whatever wakes the loop, also to a panic, over less work than a u64 counts: in what it prints no count is below
  -- that of an earlier line, no more events are forwarded than converted, nor converted than received, and a
  -- heartbeat that names a connected client gives the number of messages that client has taken as that of the
  -- events forwarded. The server's counters are in order and honest at the start.
  pub reports-AreTrue :
      (ticks : List Tick) (s : Server C) (c : Counts)
      → (c.recv ≤ s.events_received) × (c.conv ≤ s.events_converted) × (c.fwd ≤ s.events_forwarded)
      → s.events_received + works ticks < 2 ^ 64
      → IsOrdered C s
      → IsHonest C s
      → AreTrue c (reports C setup ticks s)
  unfolding reports
  reports-AreTrue [] s c below small ordered honest = tt
  reports-AreTrue (work w ∷ ticks) s c below small ordered honest =
      let (r, s') = wake C setup w s in
      let (grown, more) = wake-counts C setup w s (omega (arith, small)) ordered in
      let (a, b, d) = wake-Grows w s (omega (arith, small)) ordered in
      after_work-AreTrue c r (reports C setup ticks s') (
        reports-AreTrue ticks s' c (omega (arith, below, a, b, d)) (omega (arith, small, more))
          grown (wake-IsHonest C setup w s honest))
  reports-AreTrue (heartbeat ∷ ticks) s c below small ordered honest = (
    (below.0, below.1, below.2, ordered.converted, ordered.forwarded),
    status-Agrees C s honest,
    reports-AreTrue ticks s (counts C s) (omega arith) (omega (arith, small)) ordered honest,
  )
  reports-AreTrue (stats ∷ ticks) s c below small ordered honest = (
    (below.0, below.1, below.2, ordered.converted, ordered.forwarded),
    reports-AreTrue ticks s (counts C s) (omega arith) (omega (arith, small)) ordered honest,
  )
