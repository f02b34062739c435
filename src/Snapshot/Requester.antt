-- ===== src/Snapshot/Requester.antt =====
-- When a peer asks for a snapshot: `SnapshotRequester` and `should_request_snapshot` of
-- src/snapshot.rs. `now` is the clock in seconds. u64 arithmetic depends on the build: `checks` is
-- `overflow-checks`, with which an overflow panics (`none`) and without which it wraps.
use xaeroflux.Prelude.{
  ℕ, zero, suc, ◌+◌, ◌-◌, ◌*◌, ◌/◌, ◌%◌, ◌^◌, String, Bool, true, false, Option, none, some, ltb,
  if◌then◌else◌,
}
use xaeroflux.Prelude.Dict.{Dict, lookup, insert}
use xaeroflux.Snapshot.Records.{SnapshotMessage, request_snapshot}

abbrev pub u64_mod : ℕ
u64_mod = 2 ^ 64

unfoldable pub sub_u64 : Bool → ℕ → ℕ → Option ℕ
sub_u64 checks a b =
    if ltb a b then (if checks then none else some ((a + u64_mod - b) % u64_mod)) else some (a - b)

unfoldable pub mul_u64 : Bool → ℕ → ℕ → Option ℕ
mul_u64 checks a b =
    if ltb (a * b) u64_mod then some (a * b) else (if checks then none else some (a * b % u64_mod))

abbrev pub six_hours : ℕ
six_hours = 21600

abbrev pub is_old : Option ℕ → Option Bool
is_old none = none
is_old (some age) = some (ltb six_hours age)

abbrev needs : Bool → ℕ → Option ℕ → Option Bool
needs checks now none = some true
needs checks now (some last_ts) = is_old (sub_u64 checks now last_ts)

unfoldable pub needs_snapshot : Bool → ℕ → Dict ℕ → String → Option Bool
needs_snapshot checks now sync_state group_id = needs checks now (lookup group_id sync_state)

-- `node_id` is the requester's.
unfoldable pub create_request : String → String → SnapshotMessage
create_request node_id group_id = request_snapshot group_id node_id 0

unfoldable pub mark_synced : String → ℕ → Dict ℕ → Dict ℕ
mark_synced group_id ts sync_state = insert group_id ts sync_state

abbrev is_stale : Bool → ℕ → Option ℕ → Option Bool
is_stale checks now none = some false
is_stale checks now (some ts) = is_old (sub_u64 checks now ts)

abbrev compare_counts : Bool → ℕ → ℕ → Option ℕ → Option ℕ → Option Bool
compare_counts checks now remote none last_sync_ts = none
compare_counts checks now remote (some scaled) last_sync_ts =
    if ltb (scaled / 10) remote then some true else is_stale checks now last_sync_ts

unfoldable pub should_request_snapshot : Bool → ℕ → ℕ → ℕ → Option ℕ → Option Bool
should_request_snapshot checks now zero remote_item_count last_sync_ts = some true
should_request_snapshot checks now (suc n) remote_item_count last_sync_ts =
    compare_counts checks now remote_item_count (mul_u64 checks (suc n) 12) last_sync_ts
