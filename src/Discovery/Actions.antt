-- ===== src/Discovery/Actions.antt =====
-- The actions that the discovery task is made of. An action runs on the state of the task and either
-- goes on or panics; a panic ends the task and keeps what was done before it.
use text.Mathlib.Text.{get?}
use Prim.Native.String.{len}
use xaeroflux.Prelude.{
  String, Bool, true, false, Option, none, some, List, [], ◌∷◌, ◌++◌, min, if◌then◌else◌,
}
use xaeroflux.Sqlite.{Sqlite}
use xaeroflux.Json.{Json}
use xaeroflux.Peers.{Tracker}

pub data Level : Type 0 where
  debug info warn : Level

-- What the task is built on: the database engine, JSON, node ids and their parser, the gossip network
-- with its answer to a subscription, and which log levels are on.
pub record World : Type 1 where
  pub S : Sqlite
  pub J : Json
  pub PublicKey : Type 0
  -- `s.parse::<PublicKey>().ok()`
  pub parse_key : String → Option PublicKey
  pub Network : Type 0
  -- whether `gossip.subscribe` of a group's topic with these peers succeeds
  pub try_subscribe : String → Option PublicKey → Network → Bool × Network
  -- whether `join_peers` on the sender of a group's topic succeeds
  pub try_join : String → PublicKey → Network → Bool × Network
  -- tracing evaluates the arguments of an event exactly if its level is on
  pub is_on : Level → Bool

pub data Exit {ℓ} (A : Type ℓ) : Type ℓ where
  ok : A → Exit A
  panic : Exit A

-- `&text[..16.min(text.len())]`; `none` where the slice panics.
unfoldable pub short_slice : String → Option String
short_slice text = get? text 0 (min 16 (len text))

module _ (W : World) where
  open W use {S, PublicKey, Network}

  -- What is handed to the gossip network. Its answers to all but subscriptions are only logged.
  pub data Effect : Type 0 where
    announce : Effect
    introduce : String → List String → Effect
    subscribed subscribe_failed : String → Option PublicKey → Effect
    join_peers : String → PublicKey → Effect

  -- `senders` are the groups with an entry in `group_topic_senders`.
  pub record State : Type 0 where
    pub tracker : Tracker S
    pub senders : List String
    pub network : Network
    pub effects : List Effect

  abbrev pub Task : Type 0 → Type 0
  Task A = State → Exit A × State

module _ {W : World} where
  open W use {S, PublicKey, Network, try_subscribe, try_join, is_on}

  unfoldable pub pure : {A : Type 0} → A → Task W A
  pure a s = (ok a, s)

  unfoldable pub emit : Effect W → Task W (Unit {0})
  emit e s = (ok tt, record s { effects = s.effects ++ e ∷ [] })

  unfoldable pub read : {A : Type 0} → (State W → A) → Task W A
  read f s = (ok (f s), s)

  unfoldable pub with_tracker : {A : Type 0} → (Tracker S → A × Tracker S) → Task W A
  with_tracker f s = let (a, t) = f s.tracker in (ok a, record s { tracker = t })

  abbrev pub sliced : Option String → State W → Exit (Unit {0}) × State W
  sliced none s = (panic, s)
  sliced (some _) s = (ok tt, s)

  -- A log event that prints the first sixteen bytes of a text.
  unfoldable pub log_slice : Level → String → Task W (Unit {0})
  log_slice level text s = if is_on level then sliced (short_slice text) s else (ok tt, s)

  -- The same of a node id, `&id[..16]`.
  unfoldable pub log_id : Level → String → Task W (Unit {0})
  log_id level text s = if is_on level then sliced (get? text 0 16) s else (ok tt, s)

  -- `gossip.subscribe`, and the entry of `group_topic_senders` if it succeeds.
  unfoldable pub subscribe : String → Option PublicKey → Task W Bool
  subscribe gid peer s =
      let (good, net) = try_subscribe gid peer s.network in
      if good
      then (
        ok true,
        record s {
          network = net;
          senders = s.senders ++ gid ∷ [];
          effects = s.effects ++ subscribed gid peer ∷ [];
        },
      )
      else (
        ok false,
        record s { network = net; effects = s.effects ++ subscribe_failed gid peer ∷ [] },
      )

  unfoldable pub join : String → PublicKey → Task W Bool
  join gid pk s =
      let (good, net) = try_join gid pk s.network in
      (ok good, record s { network = net; effects = s.effects ++ join_peers gid pk ∷ [] })

  module _ {A B : Type 0} where
    abbrev pub continue : Exit A → (A → Task W B) → Task W B
    continue (ok a) f s = f a s
    continue panic f s = (panic, s)

    infixl 10 ◌>>=◌ ◌>>◌
    -- Opening this opens the actions above.
    unfoldable pub ◌>>=◌ : Task W A → (A → Task W B) → Task W B
    unfolding pure emit read with_tracker log_slice log_id subscribe join
    ◌>>=◌ m f s = let (r, s') = m s in continue r f s'

    abbrev pub ◌>>◌ : Task W A → Task W B → Task W B
    m >> n = m >>= λ _. n
