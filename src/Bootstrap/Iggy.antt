-- ===== src/Bootstrap/Iggy.antt =====
-- `IggyConnection` of src/bin/xaeroflux_bootstrap.rs. The Iggy client is a parameter; it acts on a world
-- that the program does not see into. An outcome `some e` is an error with its text.
use Prim.Native.String.{◌++◌ as ◌<>◌}
use xaeroflux.Prelude.{ℕ, ◌+◌, ◌%◌, ◌^◌, String, Bool, Option, none, some, if◌then◌else◌}
use xaeroflux.Network.{Bytes}
use xaeroflux.Bootstrap.Records.{RawEvent}

pub data Built (C : Type 0) : Type 0 where
  built : C → Built C
  not_built : String → Built C

pub record Client : Type 1 where
  pub World : Type 0
  pub Handle : Type 0
  -- `builder().build()` for an address, and `connect`
  pub build : String → World → Built Handle × World
  pub connect_to : Handle → World → Option String × World
  -- the stream, the topic and the consumer group, whose errors are only logged
  pub create_all : Handle → World → World
  pub send_messages : Handle → Bytes → World → Option String × World
  -- `serde_json::to_vec`; the names of the stream and the topic are valid identifiers
  pub to_vec : RawEvent → Option Bytes

module _ (C : Client) where
  open C use {World, Handle, build, connect_to, create_all, send_messages, to_vec}

  pub record IggyConnection : Type 0 where
    pub client : Option Handle
    pub addr : String
    pub enabled : Bool
    pub last_error : Option String
    pub messages_sent : ℕ

  -- `IggyConnection::new`
  unfoldable pub new_connection : String → Bool → IggyConnection
  new_connection addr enabled = record {
    client = none;
    addr = addr;
    enabled = enabled;
    last_error = none;
    messages_sent = 0;
  }

  abbrev pub Result : Type 0
  Result = Option String × IggyConnection × World

  abbrev connected_to : Handle → Option String × World → IggyConnection → Result
  connected_to h (some e, w) conn = (some ("Iggy connect error: " <> e), conn, w)
  connected_to h (none, w) conn =
      (none, record conn { client = some h; last_error = none }, create_all h w)

  abbrev after_build : Built Handle × World → IggyConnection → Result
  after_build (not_built e, w) conn = (some ("Iggy build error: " <> e), conn, w)
  after_build (built h, w) conn = connected_to h (connect_to h w) conn

  unfoldable pub connect : IggyConnection → World → Result
  connect conn w = if conn.enabled then after_build (build conn.addr w) conn else (none, conn, w)

  abbrev after_send : Option String × World → IggyConnection → Result
  after_send (none, w) conn = (
    none,
    record conn { messages_sent = (conn.messages_sent + 1) % 2 ^ 64; last_error = none },
    w,
  )
  after_send (some e, w) conn =
      let err = "Iggy send error: " <> e in
      (some err, record conn { last_error = some err; client = none }, w)

  abbrev send_bytes : Option Bytes → Handle → IggyConnection → World → Result
  send_bytes none h conn w = (some "Serialization error", conn, w)
  send_bytes (some payload) h conn w = after_send (send_messages h payload w) conn

  abbrev send_with : Option Handle → RawEvent → IggyConnection → World → Result
  send_with none raw conn w =
      (some "Not connected to Iggy", record conn { last_error = some "Not connected" }, w)
  send_with (some h) raw conn w = send_bytes (to_vec raw) h conn w

  unfoldable pub send_raw_event : RawEvent → IggyConnection → World → Result
  send_raw_event raw conn w =
      if conn.enabled then send_with conn.client raw conn w else (none, conn, w)
