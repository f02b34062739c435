-- ===== src/Startup/Settings.antt =====
-- What a chain of builder calls makes of a node.
use Prim.Native.String.{◌++◌ as ◌<>◌}
use mathlib.Core.Bool.{false≢true}
use text.Mathlib.TextEquality.{eq_iff}
use text.Mathlib.TextLemmas.{append_cancel_left, append_assoc, append_inj}
use xaeroflux.Prelude.{
  String, ◌≡◌, ◌≢◌, refl, ◌∙◌, Bool, true, false, ◌&&◌, ◌||◌, not, Option, none, some, List, [],
  ◌∷◌, ◌++◌, arith, if◌then◌else◌, ◌↔◌, ap,
}
use xaeroflux.Startup.Config.{
  XaeroFluxConfig, default, Call, discovery_key, db_path, relay_url, bootstrap_peer,
  bootstrap_peers, no_n0_discovery, no_mdns, disable_relay, static_provider, set, built, disabled,
  configured_relay, custom_or_default, relay_mode, pkarr, dns, mdns, discovery_services,
  static_discovery, events_topic, discovery_topic,
}

module _ (StaticProvider RelayUrl : Type 0) where
  abbrev pub is_disable_relay : Call StaticProvider RelayUrl → Bool
  is_disable_relay disable_relay = true
  is_disable_relay _ = false

  abbrev pub is_no_n0 : Call StaticProvider RelayUrl → Bool
  is_no_n0 no_n0_discovery = true
  is_no_n0 _ = false

  abbrev pub is_no_mdns : Call StaticProvider RelayUrl → Bool
  is_no_mdns no_mdns = true
  is_no_mdns _ = false

  -- The chain has a call of the kind.
  abbrev pub has_call :
      (Call StaticProvider RelayUrl → Bool) → List (Call StaticProvider RelayUrl) → Bool
  has_call f [] = false
  has_call f (call ∷ calls) = f call || has_call f calls

  -- A chain of calls leaves each switch as it was, or turns it for good.
  record IsSwitched (c : XaeroFluxConfig StaticProvider RelayUrl)
      (calls : List (Call StaticProvider RelayUrl)) (d : XaeroFluxConfig StaticProvider RelayUrl)
      : Type 0 where
    relay : d.relay_disabled ≡ (c.relay_disabled || has_call is_disable_relay calls)
    n0 : d.use_n0_discovery ≡ (c.use_n0_discovery && not (has_call is_no_n0 calls))
    local : d.use_mdns ≡ (c.use_mdns && not (has_call is_no_mdns calls))

  -- A call that is no switch, by the configuration that it makes.
  other_IsSwitched :
      (call : Call StaticProvider RelayUrl) (c d : XaeroFluxConfig StaticProvider RelayUrl)
      → (is_disable_relay call ≡ false) × (is_no_n0 call ≡ false) × (is_no_mdns call ≡ false)
      → (d.relay_disabled ≡ c.relay_disabled)
        × (d.use_n0_discovery ≡ c.use_n0_discovery)
        × (d.use_mdns ≡ c.use_mdns)
      → IsSwitched c (call ∷ []) d
  other_IsSwitched call c d (p, q, r) (p', q', r') = record {
    relay = ground (arith, p, p');
    n0 = ground (arith, q, q');
    local = ground (arith, r, r');
  }

  set-IsSwitched :
      (call : Call StaticProvider RelayUrl) (c : XaeroFluxConfig StaticProvider RelayUrl)
      → IsSwitched c (call ∷ []) (set StaticProvider RelayUrl call c)
  unfolding set
  set-IsSwitched (discovery_key _) c = other_IsSwitched _ c _ (refl, refl, refl) (refl, refl, refl)
  set-IsSwitched (db_path _) c = other_IsSwitched _ c _ (refl, refl, refl) (refl, refl, refl)
  set-IsSwitched (relay_url _) c = other_IsSwitched _ c _ (refl, refl, refl) (refl, refl, refl)
  set-IsSwitched (bootstrap_peers _) c =
      other_IsSwitched _ c _ (refl, refl, refl) (refl, refl, refl)
  set-IsSwitched (bootstrap_peer _) c = other_IsSwitched _ c _ (refl, refl, refl) (refl, refl, refl)
  set-IsSwitched (static_provider _) c =
      other_IsSwitched _ c _ (refl, refl, refl) (refl, refl, refl)
  set-IsSwitched no_n0_discovery c = record {
    relay = ground arith;
    n0 = ground arith;
    local = ground arith;
  }
  set-IsSwitched no_mdns c = record {
    relay = ground arith;
    n0 = ground arith;
    local = ground arith;
  }
  set-IsSwitched disable_relay c = record {
    relay = ground arith;
    n0 = ground arith;
    local = ground arith;
  }

  built-IsSwitched :
      (calls : List (Call StaticProvider RelayUrl)) (c : XaeroFluxConfig StaticProvider RelayUrl)
      → IsSwitched c calls (built StaticProvider RelayUrl calls c)
  unfolding built
  built-IsSwitched [] c = record { relay = ground arith; n0 = ground arith; local = ground arith }
  built-IsSwitched (call ∷ calls) c =
      let d = set StaticProvider RelayUrl call c in
      let now = set-IsSwitched call c in
      let later = built-IsSwitched calls d in
      record {
        relay = ground (arith, now.relay, later.relay);
        n0 = ground (arith, now.n0, later.n0);
        local = ground (arith, now.local, later.local);
      }

  configured_enabled :
      (parse : String → Option RelayUrl) (url : Option String)
      → configured_relay StaticProvider RelayUrl parse url ≢ disabled
  configured_enabled parse none h = cc
  configured_enabled parse (some url) h = go (parse url) h
    where
      go : (r : Option RelayUrl) → custom_or_default StaticProvider RelayUrl r ≢ disabled
      go none h = cc
      go (some u) h = cc

  -- Whatever chain of calls builds it, a node contacts no relay exactly if one of the calls disables the
  -- relay, uses n0's discovery unless one of them turns it off, and multicasts unless one of them turns that
  -- off, whatever the order of the calls and whatever relay URL they give.
  pub built-switches :
      (parse : String → Option RelayUrl) (calls : List (Call StaticProvider RelayUrl))
      → let c = built StaticProvider RelayUrl calls (default StaticProvider RelayUrl) in
        ((relay_mode StaticProvider RelayUrl parse c ≡ disabled)
          ↔ (has_call is_disable_relay calls ≡ true))
        × (discovery_services StaticProvider RelayUrl c
            ≡ (if has_call is_no_n0 calls then [] else pkarr ∷ dns ∷ [])
              ++ ((if has_call is_no_mdns calls then [] else mdns ∷ [])
                  ++ static_discovery StaticProvider RelayUrl c.static_provider))
  unfolding relay_mode discovery_services
  built-switches parse calls =
      let c = built StaticProvider RelayUrl calls (default StaticProvider RelayUrl) in
      let h = built-IsSwitched calls (default StaticProvider RelayUrl) in
      (
        (
          λ p. ground (arith, h.relay, configured_enabled parse c.relay_url),
          λ p. ground (arith, h.relay),
        ),
        ground (arith, h.n0, h.local),
      )

no_event : ◌≢◌ {A = String} "cyan/events/" "cyan/discove"
no_event h = false≢true ((eq_iff "cyan/events/" "cyan/discove").1 h)

-- Nodes gossip events on one topic exactly if they have one discovery key, and no topic of events is one of
-- discovery, where the hash has no collision.
pub events_topic_iff :
    {Topic : Type 0} (hash : String → Topic)
    → ((s t : String) → hash s ≡ hash t → s ≡ t)
    → (key key' : String)
    → ((events_topic hash key ≡ events_topic hash key') ↔ (key ≡ key'))
      × (events_topic hash key ≢ discovery_topic hash key')
unfolding events_topic discovery_topic
events_topic_iff hash injective key key' = (
  (
    λ h. append_cancel_left "cyan/events/" key key' (injective _ _ h),
    λ p. ap (λ k. hash ("cyan/events/" <> k)) p,
  ),
  λ h. no_event (append_inj (injective _ _ h ∙ append_assoc "cyan/discove" "ry/" key') refl).0,
)
