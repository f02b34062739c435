-- ===== src/Peers/Specification.antt =====
-- What a peer tracker promises, as a specification of `PeerTracker` of src/lib.rs: which pairs of group and peer
-- it knows, who is online and was seen when, and whom it shows as present.
use mathlib.Core.Path.{fun_ext}
use xaeroflux.Prelude.{
  String, ◌≡◌, ap, ◌∙◌, Bool, false, ◌&&◌, ◌||◌, not, List, [], ◌∷◌, ◌==◌, if◌then◌else◌,
}
use xaeroflux.Prelude.Int.{ℤ, ◌-ℤ◌}
use xaeroflux.Peers.Sightings.{any_time, since}

-- `is_known` of a pair that has ever been seen, `is_online` of a peer in a group with a last sighting that
-- passes the test, and `is_shown` of a peer that the tracker shows in the group.
pub record Presence : Type 0 where
  pub is_known : String → String → Bool
  pub is_online : (ℤ → Bool) → String → String → Bool
  pub is_shown : String → String → Bool

-- A call, with the clock where it reads it.
pub data Request : Type 0 where
  upsert : ℤ → String → String → Request
  offline : ℤ → String → Request
  prune : ℤ → ℤ → Request
  load : Request

-- A call is refused as a whole, breaks off halfway, or works.
pub data Outcome : Type 0 where
  refused halfway worked : Outcome

-- `upserted` has whether the pair is new, `left` the groups that the peer was online in.
pub data Answer : Type 0 where
  failed loaded pruned : Answer
  upserted : Bool → Answer
  left : (String → Bool) → Answer

-- Those that were last seen before the cutoff are offline, and still shown.
abbrev pub without_stale : ℤ → Presence → Presence
without_stale cutoff P = record P { is_online = λ test. P.is_online (since cutoff test) }

abbrev pub shown_as_online : Presence → Presence
shown_as_online P = record P { is_shown = P.is_online any_time }

-- The specification. Only a pruning can break off halfway: then the table has changed and what is shown has
-- not.
unfoldable pub spec_step : Request → Outcome → Presence → Answer × Presence
spec_step (upsert now g p) worked P = (
  upserted (not (P.is_known g p)),
  record {
    is_known = λ h q. (g == h && p == q) || P.is_known h q;
    is_online = λ test h q. if g == h && p == q then test now else P.is_online test h q;
    is_shown = λ h q. (g == h && p == q) || P.is_shown h q;
  },
)
spec_step (offline now p) worked P = (
  left (λ h. P.is_online any_time h p),
  record {
    is_known = P.is_known;
    is_online = λ test h q. if p == q then false else P.is_online test h q;
    is_shown = λ h q. if p == q then false else P.is_shown h q;
  },
)
spec_step (prune now max_age) worked P =
    (pruned, shown_as_online (without_stale (now -ℤ max_age) P))
spec_step (prune now max_age) halfway P = (failed, without_stale (now -ℤ max_age) P)
spec_step load worked P = (loaded, shown_as_online P)
spec_step _ _ P = (failed, P)

unfoldable pub spec_run : List Request → List Outcome → Presence → List Answer × Presence
spec_run (r ∷ rs) (o ∷ os) P =
    let (answer, P') = spec_step r o P in
    let (answers, P'') = spec_run rs os P' in (answer ∷ answers, P'')
spec_run _ _ P = ([], P)

pub same_presence :
    (P Q : Presence)
    → ((h q : String) → P.is_known h q ≡ Q.is_known h q)
    → ((test : ℤ → Bool) (h q : String) → P.is_online test h q ≡ Q.is_online test h q)
    → ((h q : String) → P.is_shown h q ≡ Q.is_shown h q)
    → P ≡ Q
same_presence P Q k o s =
    ap (λ (f : String → String → Bool). record P { is_known = f }) (fun_ext (λ h. fun_ext (k h)))
    ∙ ap
        (λ (f : (ℤ → Bool) → String → String → Bool). record P {
          is_known = Q.is_known;
          is_online = f;
        })
        (fun_ext (λ test. fun_ext (λ h. fun_ext (o test h))))
    ∙ ap (λ (f : String → String → Bool). record Q { is_shown = f }) (fun_ext (λ h. fun_ext (s h)))
