-- ===== src/Snapshot/Transfer.antt =====
-- The transfer of a snapshot over a QUIC stream: `serve_snapshot` and `download_snapshot` of
-- src/snapshot.rs. The stream is the list of its bytes; serde's bytes for a snapshot are a parameter. Both
-- end with a log event that slices the group's id; `info` is whether its level is on.
use xaeroflux.Prelude.{
  ℕ, zero, suc, ◌+◌, ◌*◌, ◌/◌, ◌%◌, ◌^◌, String, Bool, true, false, Option, none, some, [], ◌∷◌,
  ◌++◌, length, if◌then◌else◌,
}
use xaeroflux.Prelude.Dict.{Dict, insert}
use xaeroflux.Network.{Bytes}
use xaeroflux.Discovery.Actions.{short_slice}
use xaeroflux.Snapshot.Records.{GroupSnapshot}
use xaeroflux.Snapshot.Provider.{get_snapshot}

-- `serde_json::to_vec` and `from_slice` at `GroupSnapshot`.
pub record SnapshotCodec : Type 0 where
  pub encode : GroupSnapshot → Option Bytes
  pub decode : Bytes → Option GroupSnapshot

-- How a call ends: with a value, an error, or a panic.
pub data Outcome {ℓ} (A : Type ℓ) : Type ℓ where
  returned : A → Outcome A
  failed panicked : Outcome A

abbrev is_sliced : Option String → Bool
is_sliced none = false
is_sliced (some _) = true

-- Whether the log event that prints `&group_id[..16.min(group_id.len())]` passes without a panic.
unfoldable pub can_log : Bool → String → Bool
can_log info group_id = if info then is_sliced (short_slice group_id) else true

-- A call that returns this value if its last log event passes.
abbrev pub logged {ℓ} : {A : Type ℓ} → Bool → A → Outcome A
logged true a = returned a
logged false a = panicked

-- `(n as u32).to_be_bytes()`
unfoldable pub be_bytes : ℕ → Bytes
be_bytes n = (n / 2 ^ 24 % 256) ∷ (n / 2 ^ 16 % 256) ∷ (n / 2 ^ 8 % 256) ∷ (n % 256) ∷ []

-- `read_exact` of so many bytes: these, and the rest of the stream; an error if it ends before.
unfoldable pub read_exact : ℕ → Bytes → Option (Bytes × Bytes)
read_exact zero bytes = some ([], bytes)
read_exact (suc n) [] = none
read_exact (suc n) (b ∷ bytes) = elim (read_exact n bytes) [
  | none ↦ none
  | some (xs, rest) ↦ some (b ∷ xs, rest)
]

-- `u32::from_be_bytes` of four bytes.
unfoldable pub from_be_bytes : Bytes → ℕ
from_be_bytes (a ∷ b ∷ c ∷ d ∷ []) = a * 2 ^ 24 + b * 2 ^ 16 + c * 2 ^ 8 + d
from_be_bytes _ = 0

-- The two writes: the length, and the data.
unfoldable pub frame : Bytes → Bytes
frame payload = be_bytes (length payload) ++ payload

abbrev frame_encoded : Bool → String → Option Bytes → Outcome (Unit {0}) × Option Bytes
frame_encoded info group_id none = (failed, none)
frame_encoded info group_id (some payload) =
    (logged (can_log info group_id) tt, some (frame payload))

abbrev serve :
    Bool → SnapshotCodec → String → Option GroupSnapshot → Outcome (Unit {0}) × Option Bytes
serve info codec group_id none = (failed, none)
serve info codec group_id (some s) = frame_encoded info group_id (codec.encode s)

-- How the call ends, and what goes to the stream. A group with no snapshot is an error.
unfoldable pub serve_snapshot :
    Bool → SnapshotCodec → Dict GroupSnapshot → String → Outcome (Unit {0}) × Option Bytes
serve_snapshot info codec snapshots group_id =
    serve info codec group_id (get_snapshot snapshots group_id)

abbrev decode_rest : SnapshotCodec → Option (Bytes × Bytes) → Option GroupSnapshot
decode_rest codec none = none
decode_rest codec (some (payload, rest)) = codec.decode payload

abbrev read_payload : SnapshotCodec → Option (Bytes × Bytes) → Option GroupSnapshot
read_payload codec none = none
read_payload codec (some (len_buf, stream)) =
    decode_rest codec (read_exact (from_be_bytes len_buf) stream)

-- The reading half of `download_snapshot`.
unfoldable pub receive_snapshot : SnapshotCodec → Bytes → Option GroupSnapshot
receive_snapshot codec stream = read_payload codec (read_exact 4 stream)

abbrev note_sync : Bool → String → Option GroupSnapshot → Dict ℕ → Outcome GroupSnapshot × Dict ℕ
note_sync info group_id none sync_state = (failed, sync_state)
note_sync info group_id (some s) sync_state =
    (logged (can_log info group_id) s, insert group_id s.snapshot_ts sync_state)

-- `download_snapshot` from the bytes of the answer: the snapshot, and the time of the last sync of
-- each group, which is noted before the log event.
unfoldable pub download_snapshot :
    Bool → SnapshotCodec → String → Bytes → Dict ℕ → Outcome GroupSnapshot × Dict ℕ
download_snapshot info codec group_id stream sync_state =
    note_sync info group_id (receive_snapshot codec stream) sync_state
