-- ===== src/Discovery/Total.antt =====
-- The actions on one group go on, rather than panic, where the log can cut the texts it prints.
use xaeroflux.Prelude.{
  ap, ◌∙◌, ◌≡◌, ◌≢◌, refl, Bool, true, false, Bool-cases, Option-cases, inl, inr, String, Option,
  none, some, List, [], ◌∷◌, ◌++◌, contains, ltb, length, All, if◌then◌else◌,
}
use xaeroflux.Prelude.Int.{ℤ}
use xaeroflux.Sqlite.{NeverFails}
use xaeroflux.Peers.{upsert_peer, get_peers}
use xaeroflux.Peers.CacheLaws.{cached}
use xaeroflux.Peers.Statements.{is_row, any_row}
use xaeroflux.Peers.Coherence.{peer_rows, upsert_peer-cached}
use xaeroflux.Discovery.Actions.{
  World, State, Exit, ok, Task, pure, Level, info, warn, log_slice, short_slice, ◌>>=◌,
}
use xaeroflux.Discovery.{
  log_both, join_known, subscribe_new, join_group, track_peer, note_peer, track_group,
}

-- Only a text that the log can cut at sixteen bytes is logged without a panic.
abbrev pub IsLoggable : String → Type 0
IsLoggable text = short_slice text ≢ none

-- A group id, if it is a text, and a due introduction.
abbrev pub LoggableOption : Option String → Type 0
LoggableOption none = Unit
LoggableOption (some gid) = IsLoggable gid

abbrev pub LoggableDue : String × List String → Type 0
LoggableDue (gid, peers) = IsLoggable gid

due-All :
    (gid : String) (peers : List String) (b : Bool)
    → IsLoggable gid
    → All LoggableDue (if b then (gid, peers) ∷ [] else [])
due-All gid peers true h = (h, tt)
due-All gid peers false h = tt

pub All-append :
    (xs ys : List (String × List String))
    → All LoggableDue xs
    → All LoggableDue ys
    → All LoggableDue (xs ++ ys)
All-append [] ys h k = k
All-append (x ∷ xs) ys h k = (h.0, All-append xs ys h.1 k)

module _ {W : World} where
  open W use {S, J, PublicKey, parse_key, try_subscribe, is_on}

  pub log_slice_ok :
      (level : Level) (text : String) (s : State W)
      → IsLoggable text
      → log_slice level text s ≡ (ok tt, s)
  unfolding log_slice
  log_slice_ok level text s h = elim (Bool-cases (is_on level)) [
    | inl e ↦ rw e (elim (Option-cases (short_slice text)) [
      | inl cut ↦ absurd (h cut)
      | inr (a, cut) ↦ rw cut refl
    ])
    | inr e ↦ rw e refl
  ]

  log_both_ok :
      (level : Level) (a b : String) (s : State W)
      → IsLoggable a
      → IsLoggable b
      → log_both level a b s ≡ (ok tt, s)
  unfolding log_both ◌>>=◌
  log_both_ok level a b s ha hb = rw (log_slice_ok level a s ha) (log_slice_ok level b s hb)

  -- An action that goes on is followed by the rest on its value and its state.
  pub bind_total :
      {A B : Type 0} (m : Task W A) (f : A → Task W B) (s : State W) {a : A}
      → (m s).0 ≡ ok a
      → (m >>= f) s ≡ f a (m s).1
  unfolding ◌>>=◌
  bind_total m f s e = rw e refl

  module _ (from : String) (from_ok : IsLoggable from) where
    -- An action that goes on and leaves the tracker alone.
    abbrev Goes : Exit (Unit {0}) × State W → State W → Type 0
    Goes r s = (r.0 ≡ ok tt) × (r.1.tracker ≡ s.tracker)

    Goes-both :
        (level : Level) (gid : String) (s t : State W)
        → IsLoggable gid
        → t.tracker ≡ s.tracker
        → Goes (log_both level from gid t) s
    Goes-both level gid s t h e = rw (log_both_ok level from gid t from_ok h) (refl, e)

    Goes-slice :
        (level : Level) (gid : String) (s t : State W)
        → IsLoggable gid
        → t.tracker ≡ s.tracker
        → Goes (log_slice level gid t) s
    Goes-slice level gid s t h e = rw (log_slice_ok level gid t h) (refl, e)

    join_known-Goes :
        (gid : String) (pk : Option PublicKey) (s : State W)
        → IsLoggable gid
        → Goes (join_known from gid pk s) s
    unfolding join_known ◌>>=◌
    join_known-Goes gid none s h = (refl, refl)
    join_known-Goes gid (some pk) s h = Goes-both _ gid s _ h refl

    subscribe_new-Goes :
        (gid : String) (pk : Option PublicKey) (s : State W)
        → IsLoggable gid
        → Goes (subscribe_new from gid pk s) s
    unfolding subscribe_new ◌>>=◌
    subscribe_new-Goes gid pk s h = elim (Bool-cases (try_subscribe gid pk s.network).0) [
      | inl e ↦ rw e (Goes-both info gid s _ h refl)
      | inr e ↦ rw e (Goes-slice warn gid s _ h refl)
    ]

    join_group-Goes : (gid : String) (s : State W) → IsLoggable gid → Goes (join_group from gid s) s
    unfolding join_group ◌>>=◌
    join_group-Goes gid s h = elim (Bool-cases (contains s.senders gid)) [
      | inl e ↦ rw e (join_known-Goes gid (parse_key from) s h)
      | inr e ↦ rw e (subscribe_new-Goes gid (parse_key from) s h)
    ]

    log_new-Goes :
        (gid : String) (new : Bool) (s : State W)
        → IsLoggable gid
        → Goes ((if new then log_both info from gid else pure tt) s) s
    unfolding pure
    log_new-Goes gid true s h = Goes-both info gid s s h refl
    log_new-Goes gid false s h = (refl, refl)

    note_peer_total :
        (gid : String) (new : Bool) (peers : List String) (s : State W)
        → IsLoggable gid
        → (due : List (String × List String)) × ((note_peer from gid (some new, peers) s).0
            ≡ ok due)
          × ((note_peer from gid (some new, peers) s).1.tracker ≡ s.tracker)
          × All LoggableDue due
    unfolding note_peer
    note_peer_total gid new peers s h =
        let m : Task W (Unit {0}) = if new then log_both info from gid else pure tt in
        let g = log_new-Goes gid new s h in
        let due : List (String × List String) =
          if ltb 1 (length peers) then (gid, peers) ∷ [] else [] in
        let e = bind_total m (λ _. pure due) s g.0 in
        (
          due,
          ap (λ r. r.0) e ∙ (unfold pure in refl),
          ap (λ r. r.1.tracker) e ∙ (unfold pure in g.1),
          due-All gid peers _ h,
        )

    -- Tracking a peer for a group, if no statement fails: the peer is in the cache, and the branch
    -- after it is the one of a success.
    track_peer_total :
        (now : ℤ) (gid : String) (s : State W)
        → NeverFails S
        → (new : Bool) × (peers : List String) × ((track_peer now from gid s).0
            ≡ ok (some new, peers))
          × (cached (track_peer now from gid s).1.tracker.cache gid from ≡ true)
    unfolding track_peer ◌>>=◌
    track_peer_total now gid s runs =
        let (added, kept) = upsert_peer-cached S now gid from s.tracker runs in
        (
          if any_row (is_row gid from) (peer_rows S s.tracker) then false else true,
          get_peers S (upsert_peer S now gid from s.tracker).1 gid,
          rw added refl,
          kept,
        )

    pub track_group_total :
        (now : ℤ) (gid : String) (s : State W)
        → NeverFails S
        → IsLoggable gid
        → (due : List (String × List String)) × ((track_group now from (some gid) s).0 ≡ ok due)
          × (cached (track_group now from (some gid) s).1.tracker.cache gid from ≡ true)
          × All LoggableDue due
    unfolding track_group
    track_group_total now gid s runs h =
        let s₁ = (join_group from gid s).1 in
        let (new, peers, tracked, kept) = track_peer_total now gid s₁ runs in
        let s₂ = (track_peer now from gid s₁).1 in
        let (due, noted, still, fine) = note_peer_total gid new peers s₂ h in
        let e =
          bind_total (join_group from gid) (λ _. track_peer now from gid >>= note_peer from gid) s
            (join_group-Goes gid s h).0
          ∙ bind_total (track_peer now from gid) (note_peer from gid) s₁ tracked in
        (
          due,
          ap (λ r. r.0) e ∙ noted,
          ap (λ r. cached r.1.tracker.cache gid from) e
              ∙ ap (λ t. cached t.cache gid from) still
              ∙ kept,
          fine,
        )
