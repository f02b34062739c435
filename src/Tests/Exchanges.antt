-- ===== src/Tests/Exchanges.antt =====
-- The discovery task (Discovery.antt) on a `groups_exchange` message.
use xaeroflux.Prelude.{ℕ, String, ◌≡◌, refl, ◌≢◌, none, some, List, [], ◌∷◌, All, string_dec}
use xaeroflux.Prelude.Int.{ℤ, pos}
use xaeroflux.Prelude.Dict.{lookup}
use xaeroflux.Sqlite.Memory.{reliable-NeverFails}
use xaeroflux.Network.{received, neighbor_down}
use xaeroflux.Json.{get_str, get_array}
use xaeroflux.Discovery.Actions.{ok, short_slice}
use xaeroflux.Discovery.{Trigger, announce_tick, prune_tick, topic, on_message, run_task}
use xaeroflux.Discovery.Topics.{IsOrderly, run_task-IsOrderly}
use xaeroflux.Discovery.Exchange.{Tracked, on_message-tracks}
use xaeroflux.Tests.Fixtures.{text, flat, quiet, idle, hello_groups}

abbrev clock : ℕ → ℤ
clock i = pos i

abbrev triggers : List Trigger
triggers =
    announce_tick
    ∷ topic clock (received (1 ∷ []))
    ∷ topic clock (received (1 ∷ []))
    ∷ prune_tick (pos 1000)
    ∷ announce_tick
    ∷ topic clock (neighbor_down "abcdefghijklmnopq")
    ∷ []

idle-IsOrderly : IsOrderly idle
idle-IsOrderly = record { senders = refl; once = tt; useful = tt }

run_task-IsOrderly_example : IsOrderly (run_task triggers idle).1
run_task-IsOrderly_example = run_task-IsOrderly triggers idle idle-IsOrderly

some_ne_none : (s : String) → some s ≢ none
some_ne_none s p = cc

on_message-tracks_example :
    ((on_message clock (1 ∷ []) idle).0 ≡ ok tt)
    × All
        (λ v.
          Tracked {W = quiet} "abcdefghijklmnopq"
            (flat.as_str v)
            (on_message clock (1 ∷ []) idle).1)
        (text "group-one-is-a-group" ∷ [])
unfolding lookup string_dec get_str get_array short_slice
on_message-tracks_example =
    on_message-tracks {W = quiet} clock (1 ∷ []) hello_groups "abcdefghijklmnopq"
      (text "group-one-is-a-group" ∷ []) idle reliable-NeverFails refl refl refl refl
      (some_ne_none _) (some_ne_none _, tt)
