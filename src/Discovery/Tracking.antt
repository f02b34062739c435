-- ===== src/Discovery/Tracking.antt =====
-- What a `groups_exchange` does to the peer tracker, and when the task survives it.
use xaeroflux.Prelude.{Bool-cases, Option-cases, inl, inr, List}
use xaeroflux.Prelude.Int.{pos}
use xaeroflux.Sqlite.{NeverFails}
use xaeroflux.Peers.{prune_stale}
use xaeroflux.Peers.Coherence.{
  IsCoherent, upsert_peer-IsCoherent, mark_offline-IsCoherent, prune_stale-IsCoherent,
  prune_stale-some,
}
use xaeroflux.Discovery.Actions.{World, State, emit, with_tracker, subscribe, join}
use xaeroflux.Discovery.Closed.{IsClosed}
use xaeroflux.Discovery.Handlers.{run_task_keeps}
use xaeroflux.Discovery.{Trigger, run_task}

module _ {W : World} where
  open W use {S, J, PublicKey, parse_key, try_subscribe, is_on}

  abbrev pub Agrees : State W → Type 0
  Agrees s = IsCoherent S s.tracker

  pub Agrees-IsClosed : NeverFails S → IsClosed Agrees
  unfolding emit join subscribe with_tracker
  Agrees-IsClosed runs = record {
    groups = record {
      joins = λ gid pk. record { at = λ s h. (h, tt) };
      subscribes = λ gid peer s fresh h. elim (Bool-cases (try_subscribe gid peer s.network).0) [
        | inl e ↦ rw e h
        | inr e ↦ rw e h
      ];
      upserts =
          λ now gid p. record { at = λ s h. (upsert_peer-IsCoherent S now gid p s.tracker h, tt) };
    };
    announces = record { at = λ s h. (h, tt) };
    introduces = λ gid peers due. record { at = λ s h. (h, tt) };
    prunes = λ now. record {
      at = λ s h. elim (Option-cases (prune_stale S now (pos 300) s.tracker).0) [
        | inl e ↦ absurd (prune_stale-some S now (pos 300) s.tracker runs e)
        | inr (count, e) ↦ (prune_stale-IsCoherent S now (pos 300) s.tracker count e, tt)
      ];
    };
    departs = λ now p. record { at = λ s h. (mark_offline-IsCoherent S now p s.tracker h, tt) };
  }

  -- If no statement fails, the cache of the tracker agrees with its table after whatever wakes the
  -- task, and also when it panics.
  pub run_task-IsCoherent :
      (triggers : List Trigger) (s : State W)
      → NeverFails S
      → IsCoherent S s.tracker
      → IsCoherent S (run_task triggers s).1.tracker
  run_task-IsCoherent triggers s runs h =
      ((run_task_keeps (Agrees-IsClosed runs) triggers).at s h).0
