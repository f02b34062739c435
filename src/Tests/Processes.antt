-- ===== src/Tests/Processes.antt =====
-- The process of a node (Process.antt) on the machine of Disk.antt: its application sends, a peer's groups arrive,
-- and a message with a bad id ends the discovery task.
use xaeroflux.Prelude.{ℕ, List, [], ◌∷◌, ◌++◌, Distinct}
use xaeroflux.Prelude.Int.{ℤ, pos}
use xaeroflux.Event.{ids}
use xaeroflux.Sqlite.Memory.{reliable, reliable-NeverFails}
use xaeroflux.Network.{received}
use xaeroflux.Node.{app_send, store_next, broadcast_next}
use xaeroflux.Node.Steps.{announced}
use xaeroflux.Peers.Coherence.{IsCoherent}
use xaeroflux.Discovery.{announce_tick, topic}
use xaeroflux.Discovery.Topics.{IsOrderly}
use xaeroflux.Startup.Restart.{actors_of}
use xaeroflux.Process.{Move, acts, wakes, moves, spawned, tracker_of, task_of}
use xaeroflux.Process.Sound.{started-moves}
use xaeroflux.Tests.Fixtures.{quiet}
use xaeroflux.Tests.Disk.{disk, secrets, host, host_Stores}
use xaeroflux.Tests.Starts.{blank, alice_config, keyed, alice, letter, alice_apart, alice_start}
use xaeroflux.Tests.Wire.{wire}

abbrev clock : ℕ → ℤ
clock i = pos i

abbrev busy : List Move
busy =
    acts (app_send letter)
    ∷ wakes (topic clock (received (1 ∷ [])))
    ∷ acts store_next
    ∷ wakes announce_tick
    ∷ wakes (topic clock (received (2 ∷ [])))
    ∷ acts (app_send letter)
    ∷ acts store_next
    ∷ acts broadcast_next
    ∷ []

started-moves_example :
    let (out, p) =
      moves quiet
        (actors_of reliable disk secrets host host_Stores wire alice)
        busy
        (spawned quiet 0 alice) in
    IsCoherent reliable (tracker_of quiet p)
    × IsOrderly (task_of quiet p)
    × Distinct ([] ++ ids (announced out))
started-moves_example =
    started-moves quiet reliable-NeverFails disk secrets host host_Stores wire alice_config blank
      keyed alice 0 busy alice_apart tt alice_start
