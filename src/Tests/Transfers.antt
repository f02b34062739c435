-- ===== src/Tests/Transfers.antt =====
-- The transfer of a small snapshot (Snapshot/Transfer.antt).
use xaeroflux.Prelude.{
  String, ◌-◌, true, false, ltb, ◌==◌, if◌then◌else◌, ℕ, ◌^◌, ◌%◌, ◌≡◌, refl, some, [], ◌∷◌, length,
  arith, string_dec,
}
use xaeroflux.Prelude.Dict.{Dict, lookup}
use xaeroflux.Discovery.Actions.{short_slice}
use xaeroflux.Snapshot.Records.{GroupSnapshot}
use xaeroflux.Snapshot.Provider.{empty_snapshot, get_snapshot}
use xaeroflux.Snapshot.Transfer.{
  SnapshotCodec, frame, serve_snapshot, receive_snapshot, can_log, logged,
}
use xaeroflux.Snapshot.Framing.{take, receive_snapshot-frame}
use xaeroflux.Snapshot.Requester.{needs_snapshot, six_hours}
use xaeroflux.Snapshot.Session.{Peer, download_from}
use xaeroflux.Snapshot.Joining.{download_from-serve}

abbrev codec : SnapshotCodec
codec = record { encode = λ s. some (7 ∷ 8 ∷ 9 ∷ []); decode = λ bytes. some (empty_snapshot "g1") }

abbrev snapshots : Dict GroupSnapshot
snapshots = ("g1", empty_snapshot "g1") ∷ []

receive_snapshot-frame_example :
    receive_snapshot codec (frame (7 ∷ 8 ∷ 9 ∷ []))
    ≡ codec.decode (take (length {A = ℕ} (7 ∷ 8 ∷ 9 ∷ []) % 2 ^ 32) (7 ∷ 8 ∷ 9 ∷ []))
receive_snapshot-frame_example = receive_snapshot-frame codec (7 ∷ 8 ∷ 9 ∷ [])

-- The one peer answers whatever it is asked with what it serves for the group.
abbrev peer : Peer
peer = record {
  PublicKey = Unit {0};
  parse_key = λ s. some tt;
  as_bytes = λ s. 103 ∷ 49 ∷ [];
  exchange = λ pk request. (serve_snapshot true codec snapshots "g1").1;
}

download_from-serve_example :
    ((download_from peer true codec "p" "g1" []).0
      ≡ logged (can_log true "g1") (empty_snapshot "g1"))
    × ((h : String)
        → needs_snapshot true 30000 (download_from peer true codec "p" "g1" []).1 h ≡ (
            if "g1" == h then some (ltb six_hours (30000 - 0)) else needs_snapshot true 30000 [] h))
unfolding get_snapshot lookup string_dec
download_from-serve_example =
    download_from-serve peer true codec snapshots "p" "g1" (empty_snapshot "g1") (7 ∷ 8 ∷ 9 ∷ []) []
      tt true true 30000 refl refl refl (omega arith) refl refl (omega arith)

-- A group id with its sixteenth byte inside a character.
can_log-split : can_log true "a-group-called-é" ≡ false
unfolding can_log short_slice
can_log-split = refl
