-- ===== src/Discovery/Exchange.antt =====
-- What a `groups_exchange` message does to the peer tracker.
use mathlib.Core.Path.{subst}
use xaeroflux.Network.{Bytes}
use xaeroflux.Json.{get_str, get_array}
use xaeroflux.Prelude.{
  ℕ, suc, ap, sym, ◌∙◌, ◌≡◌, refl, true, Bool-cases, inl, inr, String, Option, none, some, List, [],
  ◌∷◌, ◌++◌, arith, string_dec, All,
}
use xaeroflux.Prelude.Int.{ℤ}
use xaeroflux.Sqlite.{NeverFails}
use xaeroflux.Peers.{upsert_peer}
use xaeroflux.Peers.CacheLaws.{cached}
use xaeroflux.Peers.Coherence.{upsert_peer_cases}
use xaeroflux.Discovery.Actions.{
  World, State, ok, panic, pure, with_tracker, info, log_slice, subscribe, join, ◌>>=◌,
}
use xaeroflux.Discovery.Total.{
  IsLoggable, LoggableOption, LoggableDue, All-append, log_slice_ok, bind_total, track_group_total,
}
use xaeroflux.Discovery.Closed.{IsGroupClosed, track_groups_keeps}
use xaeroflux.Discovery.{
  Trigger, track_group, track_groups, run_task, introduce_all, exchange_groups, exchange, on_typed,
  on_parsed, on_message,
}

module _ {W : World} where
  open W use {S, J, PublicKey, parse_key, try_subscribe, is_on}

  module _ (from : String) where
    -- The peer is online in the group in the cache: what later rounds of the loop keep.
    abbrev pub Tracked : Option String → State W → Type 0
    Tracked none s = Unit
    Tracked (some gid) s = cached s.tracker.cache gid from ≡ true

    Tracked-IsGroupClosed : (o : Option String) → IsGroupClosed (Tracked o)
    unfolding join subscribe with_tracker
    Tracked-IsGroupClosed none = record {
      joins = λ gid pk. record { at = λ s h. (tt, tt) };
      subscribes = λ gid peer s fresh h. tt;
      upserts = λ now gid p. record { at = λ s h. (tt, tt) };
    }
    Tracked-IsGroupClosed (some g) = record {
      joins = λ gid pk. record { at = λ s h. (h, tt) };
      subscribes = λ gid peer s fresh h. elim (Bool-cases (try_subscribe gid peer s.network).0) [
        | inl e ↦ rw e h
        | inr e ↦ rw e h
      ];
      upserts = λ now gid p. record { at = λ s h. (upsert_keeps now gid p g s h, tt) };
    }
      where
        upsert_keeps :
            (now : ℤ) (gid p g : String) (s : State W)
            → cached s.tracker.cache g from ≡ true
            → cached (upsert_peer S now gid p s.tracker).1.cache g from ≡ true
        upsert_keeps now gid p g s h =
            ground (arith, upsert_peer_cases S now gid p s.tracker g from)

  module _ (from : String) (from_ok : IsLoggable from) where
    track_option_total :
        (now : ℤ) (o : Option String) (s : State W)
        → NeverFails S
        → LoggableOption o
        → (due : List (String × List String)) × ((track_group now from o s).0 ≡ ok due)
          × Tracked from o (track_group now from o s).1
          × All LoggableDue due
    unfolding track_group pure
    track_option_total now none s runs h = ([], refl, tt, tt)
    track_option_total now (some gid) s runs h = track_group_total from from_ok now gid s runs h

    track_groups_total :
        (clock : ℕ → ℤ) (i : ℕ) (vs : List J.Value) (s : State W)
        → NeverFails S
        → All (λ v. LoggableOption (J.as_str v)) vs
        → (due : List (String × List String)) × ((track_groups clock from i vs s).0 ≡ ok due)
          × All (λ v. Tracked from (J.as_str v) (track_groups clock from i vs s).1) vs
          × All LoggableDue due
    unfolding track_groups pure
    track_groups_total clock i [] s runs h = ([], refl, tt, tt)
    track_groups_total clock i (v ∷ vs) s runs h =
        let (first, done, here, fine) = track_option_total (clock i) (J.as_str v) s runs h.0 in
        let s₁ = (track_group (clock i) from (J.as_str v) s).1 in
        let (rest, more, there, good) = track_groups_total clock (suc i) vs s₁ runs h.1 in
        let s₂ = (track_groups clock from (suc i) vs s₁).1 in
        let e =
          bind_total (track_group (clock i) from (J.as_str v))
            (λ a. track_groups clock from (suc i) vs >>= λ b. pure (a ++ b)) s done
          ∙ bind_total (track_groups clock from (suc i) vs) (λ b. pure (first ++ b)) s₁ more in
        let kept =
          ((track_groups_keeps (Tracked from (J.as_str v)) (Tracked-IsGroupClosed from (J.as_str v))
              clock from (suc i) vs).at
            s₁ here).0 in
        (
          first ++ rest,
          ap (λ r. r.0) e,
          subst (λ t. Tracked from (J.as_str v) t × All (λ w. Tracked from (J.as_str w) t) vs)
              (sym (ap (λ r. r.1) e)) (kept, there),
          All-append first rest fine good,
        )

  Tracked-moves :
      (from : String) (o : Option String) (s t : State W)
      → s.tracker ≡ t.tracker
      → Tracked from o s
      → Tracked from o t
  Tracked-moves from none s t e h = tt
  Tracked-moves from (some gid) s t e h = ap (λ u. cached u.cache gid from) (sym e) ∙ h

  Tracked-same :
      (from : String) (vs : List J.Value) (s t : State W)
      → s.tracker ≡ t.tracker
      → All (λ v. Tracked from (J.as_str v) s) vs
      → All (λ v. Tracked from (J.as_str v) t) vs
  Tracked-same from [] s t e h = tt
  Tracked-same from (v ∷ vs) s t e h =
      (Tracked-moves from (J.as_str v) s t e h.0, Tracked-same from vs s t e h.1)

  introduce_all_total :
      (due : List (String × List String)) (s : State W)
      → All LoggableDue due
      → ((introduce_all due s).0 ≡ ok tt) × ((introduce_all due s).1.tracker ≡ s.tracker)
  unfolding introduce_all ◌>>=◌
  introduce_all_total [] s h = (refl, refl)
  introduce_all_total ((gid, peers) ∷ rest) s h =
      rw (log_slice_ok info gid s h.0) (introduce_all_total rest _ h.1)

  exchange_groups_total :
      (clock : ℕ → ℤ) (from : String) (groups : List J.Value) (s : State W)
      → NeverFails S
      → IsLoggable from
      → All (λ v. LoggableOption (J.as_str v)) groups
      → ((exchange_groups clock from (some groups) s).0 ≡ ok tt)
        × All (λ v. Tracked from (J.as_str v) (exchange_groups clock from (some groups) s).1) groups
  unfolding exchange_groups
  exchange_groups_total clock from groups s runs from_ok h =
      let (due, tracked, online, fine) = track_groups_total from from_ok clock 0 groups s runs h in
      let s₁ = (track_groups clock from 0 groups s).1 in
      let (done, still) = introduce_all_total due s₁ fine in
      let e =
        bind_total (log_slice info from) (λ _. track_groups clock from 0 groups >>= introduce_all) s
          (ap (λ r. r.0) (log_slice_ok info from s from_ok))
        ∙ ap (λ r. (track_groups clock from 0 groups >>= introduce_all) r.1)
            (log_slice_ok info from s from_ok)
        ∙ bind_total (track_groups clock from 0 groups) introduce_all s tracked in
      (
        ap (λ r. r.0) e ∙ done,
        subst (λ t. All (λ v. Tracked from (J.as_str v) t) groups) (sym (ap (λ r. r.1) e))
            (Tracked-same from groups s₁ _ (sym still) online),
      )

  exchange_total :
      (clock : ℕ → ℤ) (json : J.Value) (from : String) (groups : List J.Value) (s : State W)
      → NeverFails S
      → get_array J json "local_groups" ≡ some groups
      → IsLoggable from
      → All (λ v. LoggableOption (J.as_str v)) groups
      → ((exchange clock (some from) json s).0 ≡ ok tt)
        × All (λ v. Tracked from (J.as_str v) (exchange clock (some from) json s).1) groups
  unfolding exchange ◌>>=◌
  exchange_total clock json from groups s runs listed from_ok h =
      rw (log_slice_ok info from s from_ok, listed)
        (exchange_groups_total clock from groups s runs from_ok h)

  -- A `groups_exchange` that names its sender and its groups is handled without a panic if the log
  -- can cut the sender's id and every group id at sixteen bytes, and if no statement fails the
  -- sender is then online in the cache in every group of the message. What is no text in the list
  -- of groups is skipped.
  pub on_message-tracks :
      (clock : ℕ → ℤ) (content : Bytes) (json : J.Value) (from : String) (groups : List J.Value)
      (s : State W)
      → NeverFails S
      → J.from_slice content ≡ some json
      → get_str J json "msg_type" ≡ some "groups_exchange"
      → get_str J json "node_id" ≡ some from
      → get_array J json "local_groups" ≡ some groups
      → IsLoggable from
      → All (λ v. LoggableOption (J.as_str v)) groups
      → ((on_message clock content s).0 ≡ ok tt)
        × All (λ v. Tracked from (J.as_str v) (on_message clock content s).1) groups
  unfolding on_message on_parsed on_typed string_dec
  on_message-tracks clock content json from groups s runs parsed typed sender listed from_ok h =
      rw (parsed, typed, sender) (exchange_total clock json from groups s runs listed from_ok h)

  -- The task ends in a panic at this trigger, if not before.
  abbrev pub EndsAt : List Trigger → Trigger → List Trigger → State W → Type 0
  EndsAt before t after s =
      ((run_task (before ++ t ∷ after) s).0 ≡ panic)
      × (run_task (before ++ t ∷ after) s ≡ run_task (before ++ t ∷ []) s)
