-- ===== src/Bootstrap/Counters.antt =====
-- The counters of the main loop, and what ends it.
use xaeroflux.Prelude.{
  ◌≢◌, ℕ, ◌+◌, ◌≤◌, ◌<◌, ◌^◌, String, ◌≡◌, refl, ◌⊎◌, inl, inr, false, Option, Option-cases, none,
  some, List, [], ◌∷◌, length, arith, if◌then◌else◌,
}
use xaeroflux.Event.{Event}
use xaeroflux.Discovery.Actions.{short_slice, Exit, ok, panic}
use xaeroflux.Bootstrap.Records.{NetworkEvent, RawEvent}
use xaeroflux.Bootstrap.Scope.{ScopeTracker}
use xaeroflux.Bootstrap.Convert.{convert_network_event}
use xaeroflux.Bootstrap.Iggy.{Client, IggyConnection, connect, send_raw_event}
use xaeroflux.Bootstrap.Serve.{
  Wake, event, iggy_retry, Setup, Server, add_one, forward, converted, on_decoded, on_event,
  on_iggy_retry, wake, serve, serve_rest, group_of_topic,
}

module _ (C : Client) where
  open C use {World}

  -- What a send does: it succeeds and counts one message more if the connection is enabled, it is
  -- disabled and counts none, or it fails and counts none.
  send_raw_event_cases :
      (raw : RawEvent) (conn : IggyConnection C) (w : World)
      → let (e, conn', w') = send_raw_event C raw conn w in
        (conn'.enabled ≡ conn.enabled)
        × (((e ≡ none)
              × (conn'.messages_sent
                  ≡ (if conn.enabled then add_one conn.messages_sent else conn.messages_sent)))
            ⊎ ((e ≢ none) × (conn'.messages_sent ≡ conn.messages_sent)))
  unfolding send_raw_event
  send_raw_event_cases raw conn w = ground arith

  pub connect_keeps :
      (conn : IggyConnection C) (w : World)
      → ((connect C conn w).1.enabled ≡ conn.enabled)
        × ((connect C conn w).1.messages_sent ≡ conn.messages_sent)
  unfolding connect
  connect_keeps conn w = ground arith

  -- An event that is not counted as forwarded has not been sent, and the other way round, if the
  -- connection is enabled; if it is disabled nothing is sent.
  unfoldable pub IsHonest : Server C → Type 0
  IsHonest s = s.iggy.messages_sent ≡ (if s.iggy.enabled then s.events_forwarded else 0)

  -- Each event is counted as forwarded after it is counted as converted, and so on.
  pub record IsOrdered (s : Server C) : Type 0 where
    pub forwarded : s.events_forwarded ≤ s.events_converted
    pub converted : s.events_converted ≤ s.events_received

  forward-IsHonest : (o : Option RawEvent) (s : Server C) → IsHonest s → IsHonest (forward C o s).1
  unfolding IsHonest forward
  forward-IsHonest none s h = h
  forward-IsHonest (some raw) s h = ground (arith, send_raw_event_cases raw s.iggy s.world)

  -- What a forward adds to the counters.
  forward-counts :
      (o : Option RawEvent) (s : Server C)
      → s.events_converted + 1 < 2 ^ 64
      → s.events_forwarded ≤ s.events_converted
      → ((forward C o s).1.events_received ≡ s.events_received)
        × ((forward C o s).1.events_forwarded ≤ (forward C o s).1.events_converted)
        × ((forward C o s).1.events_converted ≤ s.events_converted + 1)
  unfolding forward
  forward-counts none s small h = ground arith
  forward-counts (some raw) s small h = ground arith

  -- The connection is disabled, and the client's world is as it was.
  abbrev pub Untouched : Server C → Server C → Type 0
  Untouched s s' = (s'.iggy.enabled ≡ false) × (s'.world ≡ s.world)

  -- Either the loop goes on, or it has ended.
  serve_rest_either :
      (I : Server C → Type 0) (r : Exit (Unit {0})) (rest : Exit (Unit {0}) × Server C)
      (s : Server C)
      → I rest.1
      → I s
      → I (serve_rest C r rest s).1
  serve_rest_either I (ok _) rest s h k = h
  serve_rest_either I panic rest s h k = k

module _ (C : Client) (setup : Setup) where
  open setup use {F, P, decode, is_debug}

  converted-IsHonest :
      (o : Option String) (e : NetworkEvent F) (topic new_id : String) (now : ℕ) (s : Server C)
      → IsHonest C s
      → IsHonest C (converted C setup o e topic new_id now s).1
  converted-IsHonest none e topic new_id now s h = h
  converted-IsHonest (some _) e topic new_id now s h =
      let (raw, t) = convert_network_event P new_id now e topic s.tracker in
      forward-IsHonest C raw (record s { tracker = t }) (same t h)
    where
      same : (t : ScopeTracker) → IsHonest C s → IsHonest C (record s { tracker = t })
      same t h = unfold IsHonest in h

  on_decoded-IsHonest :
      (o : Option (NetworkEvent F)) (e : Event) (new_id : String) (now : ℕ) (s : Server C)
      → IsHonest C s
      → IsHonest C (on_decoded C setup o e new_id now s).1
  unfolding IsHonest
  on_decoded-IsHonest none e new_id now s h = ground arith
  on_decoded-IsHonest (some net_event) e new_id now s h =
      converted-IsHonest (short_slice (group_of_topic e.source)) net_event (group_of_topic e.source)
        new_id now s h

  pub wake-IsHonest : (w : Wake) (s : Server C) → IsHonest C s → IsHonest C (wake C setup w s).1
  unfolding IsHonest on_event on_iggy_retry
  wake-IsHonest (event e new_id now) s h =
      on_decoded-IsHonest (decode e.payload) e new_id now
        (record s { events_received = add_one s.events_received }) h
  wake-IsHonest iggy_retry s h = ground (arith, connect_keeps C s.iggy s.world)

  -- From honest counters they stay honest, whatever wakes the loop and also if it panics.
  pub serve-IsHonest :
      (wakes : List Wake) (s : Server C) → IsHonest C s → IsHonest C (serve C setup wakes s).1
  unfolding serve
  serve-IsHonest [] s h = h
  serve-IsHonest (w ∷ wakes) s h =
      let (r, s') = wake C setup w s in
      let k = wake-IsHonest w s h in
      serve_rest_either C (IsHonest C) r (serve C setup wakes s') s' (serve-IsHonest wakes s' k) k

  on_decoded-counts :
      (o : Option (NetworkEvent F)) (e : Event) (new_id : String) (now : ℕ) (s : Server C)
      → s.events_converted + 1 ≤ s.events_received
      → s.events_received < 2 ^ 64
      → s.events_forwarded ≤ s.events_converted
      → IsOrdered C (on_decoded C setup o e new_id now s).1
        × ((on_decoded C setup o e new_id now s).1.events_received ≡ s.events_received)
  on_decoded-counts none e new_id now s room small h =
      (record { forwarded = ground arith; converted = ground arith }, ground arith)
  on_decoded-counts (some net_event) e new_id now s room small h =
      elim (Option-cases (short_slice (group_of_topic e.source))) [
        | inl cut ↦ rw cut (record { forwarded = h; converted = omega (arith, room) }, refl)
        | inr (a, cut) ↦
            let (raw, t) =
              convert_network_event P new_id now net_event (group_of_topic e.source) s.tracker in
            let (same, below, added) =
              forward-counts C raw (record s { tracker = t }) (omega (arith, room, small)) h in
            rw cut
              (record { forwarded = below; converted = omega (arith, added, room, same) }, same)
      ]

  pub wake-counts :
      (w : Wake) (s : Server C)
      → s.events_received + 1 < 2 ^ 64
      → IsOrdered C s
      → IsOrdered C (wake C setup w s).1
        × ((wake C setup w s).1.events_received ≤ s.events_received + 1)
  unfolding on_event on_iggy_retry
  wake-counts (event e new_id now) s small h =
      let (ordered, same) =
        on_decoded-counts (decode e.payload) e new_id now
          (record s { events_received = add_one s.events_received })
          (omega (arith, small, h.converted)) (omega (arith, small)) h.forwarded in
      (ordered, omega (arith, same, small))
  wake-counts iggy_retry s small h = (
    record { forwarded = ground (arith, h.forwarded); converted = ground (arith, h.converted) },
    ground arith,
  )

  -- Over fewer wake-ups than a u64 counts, no more events are counted as forwarded than as converted,
  -- and no more as converted than as received, also if the program panics.
  pub serve-IsOrdered :
      (wakes : List Wake) (s : Server C)
      → s.events_received + length wakes < 2 ^ 64
      → IsOrdered C s
      → IsOrdered C (serve C setup wakes s).1
  unfolding serve
  serve-IsOrdered [] s small h = h
  serve-IsOrdered (w ∷ wakes) s small h =
      let (r, s') = wake C setup w s in
      let (k, grown) = wake-counts w s (omega (arith, small)) h in
      serve_rest_either C (IsOrdered C) r (serve C setup wakes s') s'
        (serve-IsOrdered wakes s' (omega (arith, small, grown)) k) k
