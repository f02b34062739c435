-- ===== src/Discovery/Topics.antt =====
-- What the discovery task hands to the gossip network, over its whole life.
use mathlib.Core.List.{append-nil}
use mathlib.Core.Path.{subst}
use xaeroflux.Prelude.{
  ◌<◌, ◌≡◌, refl, sym, ap, ◌∙◌, false, Bool-cases, inl, inr, String, Option, List, [], ◌∷◌, ◌++◌,
  contains, Distinct, append-Distinct, All, length,
}
use xaeroflux.Discovery.{Trigger, run_task}
use xaeroflux.Discovery.Actions.{
  World, Effect, announce, introduce, subscribed, subscribe_failed, join_peers, State, emit,
  with_tracker, subscribe, join,
}
use xaeroflux.Discovery.Closed.{IsClosed}
use xaeroflux.Discovery.Handlers.{run_task_keeps}

module _ {W : World} where
  open W use {PublicKey, try_subscribe}

  -- The groups whose topic the gossip network let the task subscribe to, in order.
  abbrev pub subscribed_groups : List (Effect W) → List String
  subscribed_groups [] = []
  subscribed_groups (announce ∷ es) = subscribed_groups es
  subscribed_groups (introduce g ps ∷ es) = subscribed_groups es
  subscribed_groups (subscribed g p ∷ es) = g ∷ subscribed_groups es
  subscribed_groups (subscribe_failed g p ∷ es) = subscribed_groups es
  subscribed_groups (join_peers g p ∷ es) = subscribed_groups es

  -- An introduction that is sent names two peers at least.
  abbrev pub IsUseful : Effect W → Type 0
  IsUseful (introduce g ps) = 1 < length ps
  IsUseful announce = Unit
  IsUseful (subscribed g p) = Unit
  IsUseful (subscribe_failed g p) = Unit
  IsUseful (join_peers g p) = Unit

  subscribed_groups-append :
      (xs ys : List (Effect W))
      → subscribed_groups (xs ++ ys) ≡ subscribed_groups xs ++ subscribed_groups ys
  subscribed_groups-append [] ys = refl
  subscribed_groups-append (announce ∷ xs) ys = subscribed_groups-append xs ys
  subscribed_groups-append (introduce g ps ∷ xs) ys = subscribed_groups-append xs ys
  subscribed_groups-append (subscribed g p ∷ xs) ys = rw (subscribed_groups-append xs ys)
  subscribed_groups-append (subscribe_failed g p ∷ xs) ys = subscribed_groups-append xs ys
  subscribed_groups-append (join_peers g p ∷ xs) ys = subscribed_groups-append xs ys

  append-IsUseful :
      (xs : List (Effect W)) (e : Effect W)
      → All IsUseful xs
      → IsUseful e
      → All IsUseful (xs ++ e ∷ [])
  append-IsUseful [] e h k = (k, tt)
  append-IsUseful (x ∷ xs) e h k = (h.0, append-IsUseful xs e h.1 k)

  -- The senders are those of the subscriptions that succeeded, no group was subscribed to twice, and
  -- every introduction was useful.
  pub record IsOrderly (s : State W) : Type 0 where
    pub senders : s.senders ≡ subscribed_groups s.effects
    pub once : Distinct s.senders
    pub useful : All IsUseful s.effects

  -- A step that leaves the senders alone and has one effect, which is no new subscription.
  IsOrderly-after :
      {s t : State W} (e : Effect W)
      → subscribed_groups (e ∷ []) ≡ []
      → IsUseful e
      → t.senders ≡ s.senders
      → t.effects ≡ s.effects ++ e ∷ []
      → IsOrderly s
      → IsOrderly t
  IsOrderly-after {s} {t} e none_new u p q h = record {
    senders =
        p
        ∙ h.senders
        ∙ sym (
            ap subscribed_groups q
            ∙ subscribed_groups-append s.effects (e ∷ [])
            ∙ ap (λ l. subscribed_groups s.effects ++ l) none_new
            ∙ append-nil (subscribed_groups s.effects));
    once = subst Distinct (sym p) h.once;
    useful = subst (All IsUseful) (sym q) (append-IsUseful s.effects e h.useful u);
  }

  IsOrderly-subscribed :
      {s t : State W} (gid : String) (peer : Option PublicKey)
      → contains s.senders gid ≡ false
      → t.senders ≡ s.senders ++ gid ∷ []
      → t.effects ≡ s.effects ++ subscribed gid peer ∷ []
      → IsOrderly s
      → IsOrderly t
  IsOrderly-subscribed {s} {t} gid peer fresh p q h = record {
    senders =
        p
        ∙ ap (λ l. l ++ gid ∷ []) h.senders
        ∙ sym (
            ap subscribed_groups q ∙ subscribed_groups-append s.effects (subscribed gid peer ∷ []));
    once = subst Distinct (sym p) (append-Distinct s.senders gid fresh h.once);
    useful =
        subst (All IsUseful) (sym q) (append-IsUseful s.effects (subscribed gid peer) h.useful tt);
  }

  IsOrderly-unmoved :
      {s t : State W} → t.senders ≡ s.senders → t.effects ≡ s.effects → IsOrderly s → IsOrderly t
  IsOrderly-unmoved p q h = record {
    senders = p ∙ h.senders ∙ ap subscribed_groups (sym q);
    once = subst Distinct (sym p) h.once;
    useful = subst (All IsUseful) (sym q) h.useful;
  }

  subscribe-IsOrderly :
      (gid : String) (peer : Option PublicKey) (s : State W)
      → contains s.senders gid ≡ false
      → IsOrderly s
      → IsOrderly (subscribe gid peer s).1
  unfolding subscribe
  subscribe-IsOrderly gid peer s fresh h = elim (Bool-cases (try_subscribe gid peer s.network).0) [
    | inl e ↦ rw e (IsOrderly-subscribed gid peer fresh refl refl h)
    | inr e ↦ rw e (IsOrderly-after (subscribe_failed gid peer) refl tt refl refl h)
  ]

  pub IsOrderly-IsClosed : IsClosed IsOrderly
  unfolding emit join with_tracker
  IsOrderly-IsClosed = record {
    groups = record {
      joins = λ gid pk. record {
        at = λ s h. (IsOrderly-after (join_peers gid pk) refl tt refl refl h, tt);
      };
      subscribes = subscribe-IsOrderly;
      upserts = λ now gid p. record { at = λ s h. (IsOrderly-unmoved refl refl h, tt) };
    };
    announces = record { at = λ s h. (IsOrderly-after announce refl tt refl refl h, tt) };
    introduces = λ gid peers due. record {
      at = λ s h. (IsOrderly-after (introduce gid peers) refl due refl refl h, tt);
    };
    prunes = λ now. record { at = λ s h. (IsOrderly-unmoved refl refl h, tt) };
    departs = λ now p. record { at = λ s h. (IsOrderly-unmoved refl refl h, tt) };
  }

  -- Whatever wakes the task, and also if it panics: it keeps a sender for exactly the groups whose
  -- topic it subscribed to, no group's topic is subscribed to twice, and every introduction that it
  -- sends names two peers at least.
  pub run_task-IsOrderly :
      (triggers : List Trigger) (s : State W) → IsOrderly s → IsOrderly (run_task triggers s).1
  run_task-IsOrderly triggers s h = ((run_task_keeps IsOrderly-IsClosed triggers).at s h).0
