-- ===== src/Snapshot/Framing.antt =====
-- What arrives of what a provider sends.
use xaeroflux.Prelude.{
  ℕ, zero, suc, ◌%◌, ◌^◌, ◌<◌, ◌≤◌, String, Bool, ◌≡◌, refl, some, [], ◌∷◌, ◌++◌, arith, length,
}
use native.Mathlib.Nat.{mod-eq_of_lt}
use xaeroflux.Prelude.Dict.{Dict, insert}
use xaeroflux.Network.{Bytes}
use xaeroflux.Snapshot.Records.{GroupSnapshot}
use xaeroflux.Snapshot.Provider.{get_snapshot}
use xaeroflux.Snapshot.Transfer.{
  SnapshotCodec, be_bytes, from_be_bytes, read_exact, frame, serve_snapshot, receive_snapshot,
  download_snapshot, can_log, logged,
}

-- The length prefix carries a length modulo 2^32.
pub from_be_bytes-be_bytes : (n : ℕ) → from_be_bytes (be_bytes n) ≡ n % 2 ^ 32
unfolding from_be_bytes be_bytes
from_be_bytes-be_bytes n = omega arith

abbrev pub take : ℕ → Bytes → Bytes
take zero bytes = []
take (suc n) [] = []
take (suc n) (b ∷ bytes) = b ∷ take n bytes

abbrev pub drop : ℕ → Bytes → Bytes
drop zero bytes = bytes
drop (suc n) [] = []
drop (suc n) (b ∷ bytes) = drop n bytes

read_exact-take :
    (n : ℕ) (bytes : Bytes)
    → n ≤ length bytes
    → read_exact n bytes ≡ some (take n bytes, drop n bytes)
unfolding read_exact
read_exact-take zero bytes h = refl
read_exact-take (suc n) [] h = absurd (omega arith)
read_exact-take (suc n) (b ∷ bytes) h = rw (read_exact-take n bytes (omega arith)) refl

take-length : (bytes : Bytes) → take (length bytes) bytes ≡ bytes
take-length [] = refl
take-length (b ∷ bytes) = rw (take-length bytes) refl

read_exact-be_bytes :
    (n : ℕ) (rest : Bytes) → read_exact 4 (be_bytes n ++ rest) ≡ some (be_bytes n, rest)
unfolding read_exact be_bytes
read_exact-be_bytes n rest = refl

-- Of a payload that is framed the requester decodes the first bytes, as many as the length modulo
-- 2^32: all of it, if it is shorter than 4 GiB.
pub receive_snapshot-frame :
    (codec : SnapshotCodec) (payload : Bytes)
    → receive_snapshot codec (frame payload) ≡ codec.decode (take (length payload % 2 ^ 32) payload)
unfolding receive_snapshot frame
receive_snapshot-frame codec payload =
    rw
      (
        read_exact-be_bytes (length payload) payload,
        from_be_bytes-be_bytes (length payload),
        read_exact-take (length payload % 2 ^ 32) payload (omega arith),
      )
      refl

-- A requester that downloads what the provider serves for a group gets the provider's snapshot, and
-- notes its time for the group, if the codec decodes what it encoded and the bytes are fewer than
-- 2^32. Either side panics afterwards if it cannot log the group's id.
pub download-serve :
    (info there : Bool) (codec : SnapshotCodec) (snapshots : Dict GroupSnapshot) (g : String)
    (s : GroupSnapshot) (payload : Bytes) (sync_state : Dict ℕ)
    → get_snapshot snapshots g ≡ some s
    → codec.encode s ≡ some payload
    → codec.decode payload ≡ some s
    → length payload < 2 ^ 32
    → (stream : Bytes) × (serve_snapshot there codec snapshots g
        ≡ (logged (can_log there g) tt, some stream))
      × (download_snapshot info codec g stream sync_state
          ≡ (logged (can_log info g) s, insert g s.snapshot_ts sync_state))
unfolding serve_snapshot download_snapshot
download-serve info there codec snapshots g s payload sync_state found encoded decoded short = (
  frame payload,
  rw (found, encoded) refl,
  rw (receive_snapshot-frame, mod-eq_of_lt short, take-length, decoded) refl,
)
