-- ===== src/Snapshot/Joining.antt =====
-- A late joiner: from the request for a group to the snapshot and the time of the next one.
use xaeroflux.Prelude.{
  ℕ, ◌-◌, ◌^◌, ◌<◌, ◌≤◌, String, ◌≡◌, refl, ◌⊎◌, inl, inr, Bool, Option, none, some, ltb, length,
  ◌==◌, if◌then◌else◌, Option-cases,
}
use xaeroflux.Prelude.Dict.{Dict, insert}
use xaeroflux.Network.{Bytes}
use xaeroflux.Snapshot.Records.{GroupSnapshot}
use xaeroflux.Snapshot.Provider.{get_snapshot}
use xaeroflux.Snapshot.Transfer.{
  SnapshotCodec, Outcome, failed, can_log, logged, serve_snapshot, receive_snapshot,
  download_snapshot,
}
use xaeroflux.Snapshot.Framing.{download-serve}
use xaeroflux.Snapshot.Requester.{needs_snapshot, mark_synced, six_hours}
use xaeroflux.Snapshot.Decisions.{needs_snapshot-mark_synced}
use xaeroflux.Snapshot.Session.{Peer, request_bytes, answered, asked, download_from}

module _ (P : Peer) (info : Bool) (codec : SnapshotCodec) where
  -- A download changes nothing but the time of the group's last sync, and that only if a snapshot arrives: if
  -- the id does not parse, the peer is not reached, or its answer is no snapshot, it fails and the times are as
  -- before.
  pub download_from_cases :
      (provider g : String) (sync_state : Dict ℕ)
      → (download_from P info codec provider g sync_state ≡ (failed, sync_state))
        ⊎ ((s : GroupSnapshot) × (download_from P info codec provider g sync_state
              ≡ (logged (can_log info g) s, insert g s.snapshot_ts sync_state)))
  unfolding download_from
  download_from_cases provider g sync_state = by_key (P.parse_key provider)
    where
      Good : Outcome GroupSnapshot × Dict ℕ → Type 0
      Good r =
          (r ≡ (failed, sync_state))
          ⊎ ((s : GroupSnapshot) × (r
                ≡ (logged (can_log info g) s, insert g s.snapshot_ts sync_state)))

      by_stream : (o : Option Bytes) → Good (answered P info codec o g sync_state)
      by_stream none = inl refl
      by_stream (some stream) =
          unfold download_snapshot in
          elim (Option-cases (receive_snapshot codec stream)) [
            | inl p ↦ inl (rw p refl)
            | inr (s, p) ↦ inr (s, rw p refl)
          ]

      by_key : (o : Option P.PublicKey) → Good (asked P info codec o g sync_state)
      by_key none = inl refl
      by_key (some pk) = by_stream (P.exchange pk (request_bytes P info codec g))

  -- A joiner that asks a provider which has a snapshot of the group, and is answered with what the
  -- provider serves, gets that snapshot, unless it logs and the first sixteen bytes of the group's id
  -- end inside a character, when the download panics; either way, from then on the group needs a
  -- snapshot exactly if more than six hours have gone by since the snapshot's time, and the other groups
  -- as before. The provider's id is a key, the codec reads back what it wrote, which is shorter than
  -- 2^32 bytes, and the clock is not behind the snapshot.
  pub download_from-serve :
      (snapshots : Dict GroupSnapshot) (provider g : String) (s : GroupSnapshot) (payload : Bytes)
      (sync_state : Dict ℕ) (pk : P.PublicKey) (checks there : Bool) (now : ℕ)
      → get_snapshot snapshots g ≡ some s
      → codec.encode s ≡ some payload
      → codec.decode payload ≡ some s
      → length payload < 2 ^ 32
      → P.parse_key provider ≡ some pk
      → P.exchange pk (request_bytes P info codec g) ≡ (serve_snapshot there codec snapshots g).1
      → s.snapshot_ts ≤ now
      → ((download_from P info codec provider g sync_state).0 ≡ logged (can_log info g) s)
        × ((h : String)
            → needs_snapshot checks now (download_from P info codec provider g sync_state).1 h ≡ (
                if g == h
                then some (ltb six_hours (now - s.snapshot_ts))
                else needs_snapshot checks now sync_state h))
  unfolding download_from mark_synced
  download_from-serve snapshots provider g s payload sync_state pk checks there now found encoded
        decoded short known served le =
      let (stream, sends, gets) =
        download-serve info there codec snapshots g s payload sync_state found encoded decoded
          short in
      rw (known, served, sends, gets)
        (refl, λ h. needs_snapshot-mark_synced checks now s.snapshot_ts g h sync_state le)
