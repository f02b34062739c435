-- ===== src/Mesh/Coverage.antt =====
-- What a node of a mesh still owes: an id in its table has been broadcast, or is queued for it. No statement
-- fails.
use mathlib.Core.Path.{subst}
use xaeroflux.Prelude.{
  ◌≡◌, refl, sym, ◌∙◌, String, Bool, true, false, ◌||◌, Option, none, some, List, [], ◌∷◌, ◌++◌,
  All, arith, contains, contains-append, if◌then◌else◌, ◌==◌,
}
use xaeroflux.Event.{Event, ids}
use xaeroflux.Sqlite.{Sqlite, NeverFails}
use xaeroflux.Storage.{store_event}
use xaeroflux.Storage.Insert.{ids-append, store_event-Inserts, store_event-stored}
use xaeroflux.Network.{Bytes, received, on_gossip}
use xaeroflux.Network.Sync.{on_gossip-Syncs}
use xaeroflux.Node.{Action, gossip, sent, Config, Node, store_queued, step}
use xaeroflux.Node.Steps.{table, announced, step-Moves}
use xaeroflux.Mesh.Provenance.{on_gossip-decoded}
use mathlib.Core.Option.{some-injective}
use xaeroflux.Node.NoLoss.{contains-sent}
use xaeroflux.Mesh.Nodes.{All-append, All-map}

module _ (S : Sqlite) where
  abbrev pub has_id : Node S → String → Bool
  has_id n x = contains (ids (table S n)) x

  abbrev pub IsOwn : String → Event → Type 0
  IsOwn i e = e.source ≡ i

  -- `air` are the ids that have been broadcast, `history` those that the applications have sent.
  pub record IsCovered (air history : List String) (i : String) (n : Node S) : Type 0 where
    pub app_own : All (IsOwn i) n.app_rx
    pub out_own : All (IsOwn i) n.outbound_rx
    pub out_stored : All (λ e. has_id n e.id ≡ true) n.outbound_rx
    pub covered :
        (x : String) → has_id n x ≡ true → (contains (ids n.outbound_rx) x || contains air x) ≡ true
    pub sent_once :
        (x : String) → (contains (ids n.app_rx) x || has_id n x) ≡ true → contains history x ≡ true

  -- More may be on the air and in the history.
  pub IsCovered-grow :
      (air air' history history' : List String) (i : String) (n : Node S)
      → ((x : String) → contains air x ≡ true → contains air' x ≡ true)
      → ((x : String) → contains history x ≡ true → contains history' x ≡ true)
      → IsCovered air history i n
      → IsCovered air' history' i n
  IsCovered-grow air air' history history' i n f g h = record {
    app_own = h.app_own;
    out_own = h.out_own;
    out_stored = h.out_stored;
    covered = λ x p. ground (arith, f x, h.covered x p);
    sent_once = λ x p. g x (h.sent_once x p);
  }

  pub sends-IsCovered :
      (air history : List String) (i : String) (e : Event) (n : Node S)
      → e.source ≡ i
      → IsCovered air history i n
      → IsCovered air (history ++ e.id ∷ []) i (record n { app_rx = n.app_rx ++ e ∷ [] })
  sends-IsCovered air history i e n own h = record {
    app_own = All-append (IsOwn i) n.app_rx (e ∷ []) h.app_own (own, tt);
    out_own = h.out_own;
    out_stored = h.out_stored;
    covered = h.covered;
    sent_once = λ x p. ground (
      arith,
      h.sent_once x,
      ids-append n.app_rx (e ∷ []),
      contains-append (ids n.app_rx) (e.id ∷ []) x,
      contains-append history (e.id ∷ []) x,
    );
  }

  -- A move never drops an id from the table.
  pub step-has_id :
      (cfg : Config) (a : Action) (n : Node S) (x : String)
      → has_id n x ≡ true
      → has_id (step S cfg a n).1 x ≡ true
  step-has_id cfg a n x h =
      rw ((step-Moves S cfg a n).rows)
        (contains-sent S (table S n) (announced (step S cfg a n).0) x h)

  module _ (ok : NeverFails S) where
    pub stores-IsCovered :
        (air history : List String) (i : String) (q : List Event) (n : Node S)
        → n.app_rx ≡ q
        → IsCovered air history i n
        → IsCovered air history i (store_queued S q n).1
    unfolding store_queued
    stores-IsCovered air history i [] n p h = h
    stores-IsCovered air history i (e ∷ rest) n p h =
        let (o, c) = store_event S e n.connection in
        let rows = (store_event-Inserts S e n.connection).rows in
        let (now, passed) = store_event-stored S e n.connection ok in
        let own = subst (All (IsOwn i)) p h.app_own in
        let old = λ (x : String). λ (k : has_id n x ≡ true).
          subst (λ es. contains (ids es) x ≡ true) (sym rows)
            (contains-sent S (table S n) (sent o) x k) in
        record {
          app_own = own.1;
          out_own =
              All-append (IsOwn i) n.outbound_rx (sent o) h.out_own
                (only (has_id n e.id) (IsOwn i) own.0 passed);
          out_stored =
              All-append _ n.outbound_rx (sent o)
                (All-map _ _ n.outbound_rx (λ y. old y.id) h.out_stored)
                (only (has_id n e.id) _ now passed);
          covered = λ x k. ground (
            arith,
            rows,
            h.covered x,
            ids-append (table S n) (sent o),
            contains-append (ids (table S n)) (ids (sent o)) x,
            ids-append n.outbound_rx (sent o),
            contains-append (ids n.outbound_rx) (ids (sent o)) x,
          );
          sent_once = λ x k. ground (
            arith,
            rows,
            passed,
            p,
            h.sent_once x,
            ids-append (table S n) (sent o),
            contains-append (ids (table S n)) (ids (sent o)) x,
          );
        }
      where
        only :
            (b : Bool) {o : Option Event} (P : Event → Type 0)
            → P e
            → o ≡ (if b then none else some e)
            → All P (sent o)
        only true P k p = rw p tt
        only false P k p = rw p (k, tt)

  -- What has been taken for broadcast is on the air.
  pub broadcasts-IsCovered :
      (air history : List String) (i : String) (e : Event) (rest : List Event) (n : Node S)
      → n.outbound_rx ≡ e ∷ rest
      → IsCovered air history i n
      → IsCovered (air ++ e.id ∷ []) history i (record n { outbound_rx = rest })
  broadcasts-IsCovered air history i e rest n p h = record {
    app_own = h.app_own;
    out_own = (subst (All (IsOwn i)) p h.out_own).1;
    out_stored = (subst (All (λ x. has_id n x.id ≡ true)) p h.out_stored).1;
    covered = λ x k. ground (arith, p, h.covered x, contains-append air (e.id ∷ []) x);
    sent_once = h.sent_once;
  }

  -- The id that a message may add to the table is that of the event that it carries.
  pub arrival :
      (cfg : Config) (b : Bytes) (e : Event) (c : S.Connection)
      → cfg.codec.decode b ≡ some e
      → (x : String)
      → contains (ids (sent (on_gossip S cfg.node_id cfg.codec (received b) c).0)) x ≡ true
      → (e.id == x) ≡ true
  arrival cfg b e c p x =
      only (on_gossip S cfg.node_id cfg.codec (received b) c).0
        (λ y q. some-injective _ _ (sym p ∙ on_gossip-decoded S cfg.node_id cfg.codec b c y q))
    where
      only :
          (o : Option Event)
          → ((y : Event) → o ≡ some y → e ≡ y)
          → contains (ids (sent o)) x ≡ true
          → (e.id == x) ≡ true
      only none f k = cc
      only (some y) f k = rw (f y refl) (ground arith)

  -- What arrives is on the air and in the history.
  pub gossip-IsCovered :
      (air history : List String) (cfg : Config) (i : String) (b : Bytes) (e : Event) (n : Node S)
      → cfg.codec.decode b ≡ some e
      → contains air e.id ≡ true
      → contains history e.id ≡ true
      → IsCovered air history i n
      → IsCovered air history i (step S cfg (gossip (received b)) n).1
  unfolding step
  gossip-IsCovered air history cfg i b e n p flying known h =
      let rows = (on_gossip-Syncs S cfg.node_id cfg.codec (received b) n.connection).rows in
      let o = (on_gossip S cfg.node_id cfg.codec (received b) n.connection).0 in
      record {
        app_own = h.app_own;
        out_own = h.out_own;
        out_stored =
            All-map _ _ n.outbound_rx (λ y. step-has_id cfg (gossip (received b)) n y.id)
              h.out_stored;
        covered = λ x k. ground (
          arith,
          rows,
          h.covered x,
          arrival cfg b e n.connection p x,
          ids-append (table S n) (sent o),
          contains-append (ids (table S n)) (ids (sent o)) x,
        );
        sent_once = λ x k. ground (
          arith,
          rows,
          h.sent_once x,
          arrival cfg b e n.connection p x,
          ids-append (table S n) (sent o),
          contains-append (ids (table S n)) (ids (sent o)) x,
        );
      }
