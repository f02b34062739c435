-- ===== src/Discovery/Closed.antt =====
-- The handlers of the discovery task keep every property of its state that their basic actions keep.
use xaeroflux.Prelude.{
  ℕ, suc, ◌<◌, ◌≡◌, Bool, false, Bool-cases, inl, inr, String, Option, none, some, List, [], ◌∷◌,
  ◌++◌, arith, contains, ltb, length, All, if◌then◌else◌,
}
use xaeroflux.Prelude.Int.{ℤ, pos}
use xaeroflux.Peers.{upsert_peer, mark_offline, prune_stale}
use xaeroflux.Discovery.Actions.{
  World, announce, introduce, State, pure, emit, read, with_tracker, Level, info, warn, log_slice,
  subscribe, join, ◌>>=◌,
}
use xaeroflux.Discovery.Rules.{
  Returned, Any, Keeps, Keeps-pure, Keeps-if, Keeps-bind, Keeps_continue, Keeps-read,
  Keeps-log_slice, Returned-Any,
}
use xaeroflux.Discovery.{
  log_both, join_known, subscribe_new, join_group, track_peer, note_peer, track_group, track_groups,
  introduce_all,
}

-- An introduction names at least two peers.
abbrev pub IsDue : String × List String → Type 0
IsDue (gid, peers) = 1 < length peers

module _ {W : World} (I : State W → Type 0) where
  open W use {S, J, PublicKey, parse_key}

  -- What the actions on one group have to keep; a subscription is to a group that has none.
  pub record IsGroupClosed : Type 0 where
    pub joins : (gid : String) (pk : PublicKey) → Keeps I (join gid pk) Any
    pub subscribes :
        (gid : String) (peer : Option PublicKey) (s : State W)
        → contains s.senders gid ≡ false
        → I s
        → I (subscribe gid peer s).1
    pub upserts : (now : ℤ) (gid p : String) → Keeps I (with_tracker (upsert_peer S now gid p)) Any

  -- What all basic actions have to keep.
  pub record IsClosed : Type 0 where
    pub groups : IsGroupClosed
    pub announces : Keeps I (emit announce) Any
    pub introduces :
        (gid : String) (peers : List String)
        → 1 < length peers
        → Keeps I (emit (introduce gid peers)) Any
    pub prunes : (now : ℤ) → Keeps I (with_tracker (prune_stale S now (pos 300))) Any
    pub departs : (now : ℤ) (p : String) → Keeps I (with_tracker (mark_offline S now p)) Any

  module _ (c : IsGroupClosed) where
    pub log_both_keeps : (level : Level) (a b : String) → Keeps I (log_both {W = W} level a b) Any
    unfolding log_both
    log_both_keeps level a b =
        Keeps-bind (log_slice level a) _ (Keeps-log_slice level a) (λ _ _. Keeps-log_slice level b)

    join_known_keeps :
        (from gid : String) (pk : Option PublicKey) → Keeps I (join_known {W = W} from gid pk) Any
    unfolding join_known
    join_known_keeps from gid none = Keeps-pure tt tt
    join_known_keeps from gid (some pk) =
        Keeps-bind (join gid pk) _ (c.joins gid pk) (λ joined _. log_both_keeps _ from gid)

    subscribe_new_keeps :
        (from gid : String) (peer : Option PublicKey) (s : State W)
        → contains s.senders gid ≡ false
        → I s
        → I (subscribe_new {W = W} from gid peer s).1
          × Returned Any (subscribe_new {W = W} from gid peer s).0
    unfolding subscribe_new ◌>>=◌
    subscribe_new_keeps from gid peer s fresh h =
        Keeps_continue (λ good. if good then log_both info from gid else log_slice warn gid)
          (subscribe gid peer s).0 (subscribe gid peer s).1 (c.subscribes gid peer s fresh h)
          (Returned-Any _)
          (λ good _. Keeps-if good _ _ (log_both_keeps info from gid) (Keeps-log_slice warn gid))

    pub join_group_keeps : (from gid : String) → Keeps I (join_group {W = W} from gid) Any
    unfolding join_group ◌>>=◌
    join_group_keeps from gid = record {
      at = λ s h. elim (Bool-cases (contains s.senders gid)) [
        | inl e ↦ rw e ((join_known_keeps from gid (parse_key from)).at s h)
        | inr e ↦ rw e (subscribe_new_keeps from gid (parse_key from) s e h)
      ];
    }

    pub track_peer_keeps :
        (now : ℤ) (from gid : String) → Keeps I (track_peer {W = W} now from gid) Any
    unfolding track_peer
    track_peer_keeps now from gid =
        Keeps-bind (with_tracker (upsert_peer S now gid from)) _ (c.upserts now gid from)
          (λ added _. Keeps-bind (read _) _ (Keeps-read _) (λ peers _. Keeps-pure _ tt))

    IsDue-list :
        (gid : String) (peers : List String)
        → All IsDue (if ltb 1 (length peers) then (gid, peers) ∷ [] else [])
    IsDue-list gid peers = elim (Bool-cases (ltb 1 (length peers))) [
      | inl e ↦ rw e (ground arith, tt)
      | inr e ↦ rw e tt
    ]

    note_peer_keeps :
        (from gid : String) (o : Option Bool) (peers : List String)
        → Keeps I (note_peer {W = W} from gid (o, peers)) (All IsDue)
    unfolding note_peer
    note_peer_keeps from gid none peers = Keeps-pure [] tt
    note_peer_keeps from gid (some new) peers =
        Keeps-bind (if new then log_both info from gid else pure tt) _
          (Keeps-if new _ _ (log_both_keeps info from gid) (Keeps-pure {Q = Any} tt tt))
          (λ _ _. Keeps-pure _ (IsDue-list gid peers))

    pub track_group_keeps :
        (now : ℤ) (from : String) (gid : Option String)
        → Keeps I (track_group {W = W} now from gid) (All IsDue)
    unfolding track_group
    track_group_keeps now from none = Keeps-pure [] tt
    track_group_keeps now from (some gid) =
        Keeps-bind (join_group from gid) _ (join_group_keeps from gid) (λ _ _.
          Keeps-bind (track_peer now from gid) _ (track_peer_keeps now from gid)
            (λ tracked _. note_peer_keeps from gid tracked.0 tracked.1))

    All-append :
        (xs ys : List (String × List String)) → All IsDue xs → All IsDue ys → All IsDue (xs ++ ys)
    All-append [] ys h k = k
    All-append (x ∷ xs) ys h k = (h.0, All-append xs ys h.1 k)

    pub track_groups_keeps :
        (clock : ℕ → ℤ) (from : String) (i : ℕ) (vs : List J.Value)
        → Keeps I (track_groups {W = W} clock from i vs) (All IsDue)
    unfolding track_groups
    track_groups_keeps clock from i [] = Keeps-pure [] tt
    track_groups_keeps clock from i (v ∷ vs) =
        Keeps-bind (track_group (clock i) from (J.as_str v)) _
          (track_group_keeps (clock i) from (J.as_str v))
          (λ first f.
            Keeps-bind (track_groups clock from (suc i) vs) _
              (track_groups_keeps clock from (suc i) vs)
              (λ rest r. Keeps-pure (first ++ rest) (All-append first rest f r)))

  module _ (c : IsClosed) where
    pub introduce_all_keeps :
        (due : List (String × List String))
        → All IsDue due
        → Keeps I (introduce_all {W = W} due) Any
    unfolding introduce_all
    introduce_all_keeps [] h = Keeps-pure tt tt
    introduce_all_keeps ((gid, peers) ∷ rest) h =
        Keeps-bind (log_slice info gid) _ (Keeps-log_slice info gid) (λ _ _.
          Keeps-bind (emit (introduce gid peers)) _ (c.introduces gid peers h.0)
            (λ _ _. introduce_all_keeps rest h.1))
