-- ===== src/Snapshot/Decisions.antt =====
-- When a snapshot is asked for.
use xaeroflux.Prelude.{
  ℕ, zero, suc, ◌+◌, ◌-◌, ◌*◌, ◌/◌, ◌<◌, ◌≤◌, String, ◌≡◌, refl, ◌↔◌, ◌⊎◌, inl, Bool, true, Option,
  none, some, arith, ltb, if◌then◌else◌, ◌==◌,
}
use xaeroflux.Prelude.Dict.{Dict, lookup-insert}
use xaeroflux.Snapshot.Requester.{
  u64_mod, six_hours, sub_u64, mul_u64, needs_snapshot, mark_synced, should_request_snapshot,
}

-- After a sync of a group at `ts` the group needs a snapshot exactly if more than six hours have
-- gone by since, in either build, if the clock is not behind `ts`; other groups are as before.
pub needs_snapshot-mark_synced :
    (checks : Bool) (now ts : ℕ) (g h : String) (sync_state : Dict ℕ)
    → ts ≤ now
    → needs_snapshot checks now (mark_synced g ts sync_state) h
      ≡ (if g == h then some (ltb six_hours (now - ts)) else needs_snapshot checks now sync_state h)
unfolding needs_snapshot mark_synced sub_u64
needs_snapshot-mark_synced checks now ts g h sync_state le =
    ground (arith, lookup-insert h g ts sync_state)

-- After a sync at a time that lies ahead of the clock, by less than 2^64 - 21600 seconds, the test
-- panics in a build with overflow checks, and says that a snapshot is needed, however recent the sync
-- was, in one without.
pub needs_snapshot_ahead :
    (checks : Bool) (now ts : ℕ) (g : String) (sync_state : Dict ℕ)
    → now < ts
    → ts + six_hours < u64_mod
    → needs_snapshot checks now (mark_synced g ts sync_state) g
      ≡ (if checks then none else some true)
unfolding needs_snapshot mark_synced sub_u64
needs_snapshot_ahead checks now ts g sync_state lt fits =
    ground (arith, lookup-insert g g ts sync_state)

-- What `should_request_snapshot` is meant to test.
abbrev pub IsDue : ℕ → ℕ → ℕ → Option ℕ → Type 0
IsDue now local remote none = (local ≡ 0) ⊎ (12 * local < 10 * remote)
IsDue now local remote (some ts) = (local ≡ 0) ⊎ (12 * local < 10 * remote) ⊎ (six_hours < now - ts)

abbrev pub NotAhead : ℕ → Option ℕ → Type 0
NotAhead now none = Unit
NotAhead now (some ts) = ts ≤ now

-- Where nothing overflows, a peer asks for a snapshot exactly if it has no item, or the remote count
-- is more than six fifths of its own, or its last sync was more than six hours ago.
pub should_request_snapshot_iff :
    (checks : Bool) (now local remote : ℕ) (last : Option ℕ)
    → local * 12 < u64_mod
    → NotAhead now last
    → (should_request_snapshot checks now local remote last ≡ some true)
      ↔ IsDue now local remote last
unfolding should_request_snapshot mul_u64 sub_u64
should_request_snapshot_iff checks now zero remote none fits h = (λ _. inl refl, λ _. refl)
should_request_snapshot_iff checks now zero remote (some ts) fits h = (λ _. inl refl, λ _. refl)
should_request_snapshot_iff checks now (suc n) remote none fits h =
    (λ e. ground arith, λ d. ground arith)
should_request_snapshot_iff checks now (suc n) remote (some ts) fits h =
    (λ e. ground arith, λ d. ground arith)

-- Where nothing overflows, the decision gives an answer and does not panic, in either build.
pub should_request_snapshot-some :
    (checks : Bool) (now local remote : ℕ) (last : Option ℕ)
    → local * 12 < u64_mod
    → NotAhead now last
    → (b : Bool) × (should_request_snapshot checks now local remote last ≡ some b)
unfolding should_request_snapshot mul_u64 sub_u64
should_request_snapshot-some checks now zero remote last fits h = (true, refl)
should_request_snapshot-some checks now (suc n) remote none fits h =
    (ltb (suc n * 12 / 10) remote, ground arith)
should_request_snapshot-some checks now (suc n) remote (some ts) fits h =
    (if ltb (suc n * 12 / 10) remote then true else ltb six_hours (now - ts), ground arith)
