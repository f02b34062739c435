-- ===== src/Discovery/Groups.antt =====
-- The task that forwards the events of a group's topic to the application, which the discovery task of
-- src/lib.rs spawns for each subscription.
use Prim.Native.String.{◌++◌ as ◌<>◌}
use text.Mathlib.Text.{get?}
use xaeroflux.Prelude.{
  ℕ, String, ◌≡◌, ◌≢◌, refl, Bool, true, false, Option, none, some, if◌then◌else◌,
}
use xaeroflux.Event.{Event}
use xaeroflux.Network.{Bytes, GossipEvent, received, neighbor_up, neighbor_down, lagged, failed}
use xaeroflux.Discovery.Actions.{Level, info, warn, Exit, ok, panic, short_slice}
use xaeroflux.Bootstrap.Texts.{strip_prefix-append}
use xaeroflux.Bootstrap.Serve.{group_of_topic}

-- blake3's hex digest, `String::from_utf8_lossy`, and the log levels that are on. Errors are logged at a
-- level of their own.
pub record Forwarder : Type 0 where
  pub digest : Bytes → String
  pub utf8_lossy : Bytes → String
  pub is_on : Level → Bool
  pub is_error_on : Bool

module _ (W : Forwarder) where
  open W use {digest, utf8_lossy, is_on, is_error_on}

  abbrev after_slices : Option String → Option String → Option Event → Exit (Option Event)
  after_slices none b e = panic
  after_slices (some _) none e = panic
  after_slices (some _) (some _) e = ok e

  -- A log event that prints two slices, and then the outcome.
  abbrev logged : Bool → Option String → Option String → Option Event → Exit (Option Event)
  logged on a b e = if on then after_slices a b e else ok e

  -- The event that is made of a message.
  abbrev pub group_event : String → ℕ → Bytes → Event
  group_event gid ts content = record {
    id = digest content;
    payload = utf8_lossy content;
    source = "group/" <> gid;
    ts = ts;
  }

  -- One round of the loop: what goes to the application.
  unfoldable pub on_group_event : String → ℕ → GossipEvent → Exit (Option Event)
  on_group_event gid ts (received content) =
      let evt = group_event gid ts content in
      logged (is_on info) (short_slice gid) (get? evt.id 0 16) (some evt)
  on_group_event gid ts (neighbor_up peer) =
      logged (is_on info) (short_slice gid) (get? peer 0 16) none
  on_group_event gid ts (neighbor_down peer) =
      logged (is_on info) (short_slice gid) (get? peer 0 16) none
  on_group_event gid ts lagged = logged (is_on warn) (short_slice gid) (some "") none
  on_group_event gid ts failed = logged is_error_on (short_slice gid) (some "") none

  -- A message of a group's topic is forwarded, copies of it too, as an event from which the bootstrap
  -- server reads back that very group, if the log can cut the group's id and the digest at sixteen bytes.
  pub on_group_event-group_of_topic :
      (gid : String) (ts : ℕ) (content : Bytes)
      → short_slice gid ≢ none
      → get? (digest content) 0 16 ≢ none
      → (e : Event) × (on_group_event gid ts (received content) ≡ ok (some e))
        × (group_of_topic e.source ≡ gid)
        × (e.payload ≡ utf8_lossy content)
  unfolding on_group_event group_of_topic
  on_group_event-group_of_topic gid ts content cut cut' = (
    group_event gid ts content,
    go (is_on info) (short_slice gid) (get? (digest content) 0 16) cut cut',
    rw (strip_prefix-append "group/" gid) refl,
    refl,
  )
    where
      go :
          (b : Bool) (x y : Option String)
          → x ≢ none
          → y ≢ none
          → logged b x y (some (group_event gid ts content))
            ≡ ok (some (group_event gid ts content))
      go true none y h k = absurd (h refl)
      go true (some x) none h k = absurd (k refl)
      go true (some x) (some y) h k = refl
      go false x y h k = refl
