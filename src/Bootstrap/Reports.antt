-- ===== src/Bootstrap/Reports.antt =====
-- The two ticks of the main loop of src/bin/xaeroflux_bootstrap.rs that only print: the heartbeat and the
-- statistics, as the values that they print.
pub mod Truth
use Prim.Native.String.{◌++◌ as ◌<>◌}
use xaeroflux.Prelude.{
  ℕ, ◌+◌, ◌≤◌, ◌<◌, ◌^◌, String, Bool, true, false, ◌≡◌, ◌&&◌, ◌↔◌, not, Option, none, some, List,
  [], ◌∷◌, All, length, arith, if◌then◌else◌, refl,
}
use xaeroflux.Prelude.Dict.{Dict}
use xaeroflux.Event.{decimal}
use xaeroflux.Discovery.Actions.{Exit, ok, panic}
use xaeroflux.Bootstrap.Scope.{ScopeTracker, text_or}
use xaeroflux.Bootstrap.Iggy.{Client, IggyConnection}
use xaeroflux.Bootstrap.Serve.{Wake, Setup, Server, has_client, wake, serve, serve_rest}
use xaeroflux.Bootstrap.Counters.{IsOrdered, wake-counts}

-- What wakes the loop, with the ticks that print.
pub data Tick : Type 0 where
  work : Wake → Tick
  heartbeat stats : Tick

pub data Status : Type 0 where
  is_disabled : Status
  is_connected : ℕ → Status
  is_disconnected : String → Status

pub record Counts : Type 0 where
  pub recv : ℕ
  pub conv : ℕ
  pub fwd : ℕ

pub data Report : Type 0 where
  alive : Counts → Status → Report
  statistics : Counts → ℕ → ℕ → Report

module _ (C : Client) where
  unfoldable pub iggy_status : IggyConnection C → Status
  iggy_status conn =
      if not conn.enabled
      then is_disabled
      else (if has_client C conn.client
          then is_connected conn.messages_sent
          else is_disconnected (text_or "unknown" conn.last_error))

  abbrev pub counts : Server C → Counts
  counts s = record {
    recv = s.events_received;
    conv = s.events_converted;
    fwd = s.events_forwarded;
  }

  unfoldable pub on_heartbeat : Server C → Report
  on_heartbeat s = alive (counts s) (iggy_status s.iggy)

  unfoldable pub on_stats : Server C → Report
  on_stats s =
      statistics (counts s) (length s.tracker.workspace_to_group)
        (length s.tracker.board_to_workspace)

module _ (C : Client) (setup : Setup) where
  abbrev pub after_work : Exit (Unit {0}) → List Report → List Report
  after_work (ok _) rest = rest
  after_work panic rest = []

  -- What the loop prints of its counters.
  unfoldable pub reports : List Tick → Server C → List Report
  unfolding on_heartbeat on_stats
  reports [] s = []
  reports (work w ∷ ticks) s =
      let (r, s') = wake C setup w s in let rest = reports ticks s' in after_work r rest
  reports (heartbeat ∷ ticks) s = on_heartbeat C s ∷ reports ticks s
  reports (stats ∷ ticks) s = on_stats C s ∷ reports ticks s
