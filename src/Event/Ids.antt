-- ===== src/Event/Ids.antt =====
-- What the id of an event tells apart.
use Prim.Native.String.{◌++◌ as ◌<>◌}
use text.Mathlib.TextLemmas.{append_assoc}
use xaeroflux.Prelude.{ℕ, String, ◌≡◌, ap}
use xaeroflux.Event.{generate_event_id, decimal}

-- The id does not tell where the payload ends and the source begins: a text that moves from the end of
-- the payload to the start of the source leaves the id as it is, whatever the hash.
pub generate_event_id-shift :
    (blake3 : String → String) (payload text source : String) (ts : ℕ)
    → generate_event_id blake3 (payload <> text) source ts
      ≡ generate_event_id blake3 payload (text <> source) ts
unfolding generate_event_id
generate_event_id-shift blake3 payload text source ts =
    ap (λ s. blake3 (s <> decimal ts)) (append_assoc payload text source)
