-- ===== src/Snapshot/Session.antt =====
-- The whole of `SnapshotRequester::download_snapshot` of src/snapshot.rs: the provider's id, the request on
-- the stream, and the answer.
use xaeroflux.Prelude.{ℕ, String, Bool, Option, none, some}
use xaeroflux.Prelude.Dict.{Dict}
use xaeroflux.Network.{Bytes}
use xaeroflux.Snapshot.Records.{GroupSnapshot}
use xaeroflux.Snapshot.Transfer.{SnapshotCodec, Outcome, failed, frame, download_snapshot}

-- iroh's keys and streams, and `as_bytes`: `exchange` gives what a peer answers to what is written on a
-- stream that is opened to it, or `none` if the connection or a write fails.
pub record Peer : Type 1 where
  pub PublicKey : Type 0
  pub parse_key : String → Option PublicKey
  pub as_bytes : String → Bytes
  pub exchange : PublicKey → Bytes → Option Bytes

module _ (P : Peer) (info : Bool) (codec : SnapshotCodec) where
  -- The length of the group's id, and the id.
  unfoldable pub request_bytes : String → Bytes
  request_bytes group_id = frame (P.as_bytes group_id)

  abbrev pub answered : Option Bytes → String → Dict ℕ → Outcome GroupSnapshot × Dict ℕ
  answered none group_id sync_state = (failed, sync_state)
  answered (some stream) group_id sync_state =
      download_snapshot info codec group_id stream sync_state

  abbrev pub asked : Option P.PublicKey → String → Dict ℕ → Outcome GroupSnapshot × Dict ℕ
  asked none group_id sync_state = (failed, sync_state)
  asked (some pk) group_id sync_state =
      answered (P.exchange pk (request_bytes group_id)) group_id sync_state

  unfoldable pub download_from : String → String → Dict ℕ → Outcome GroupSnapshot × Dict ℕ
  download_from provider_node_id group_id sync_state =
      asked (P.parse_key provider_node_id) group_id sync_state
