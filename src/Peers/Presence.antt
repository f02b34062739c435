-- ===== src/Peers/Presence.antt =====
-- `PeerTracker` of src/lib.rs against Specification.antt.
use mathlib.Core.Path.{fun_ext}
use xaeroflux.Prelude.{
  ℕ, String, ◌≡◌, refl, ap, sym, ◌∙◌, Bool, Option, none, some, List, [], ◌∷◌, arith, contains,
  Option-cases, inl, inr,
}
use xaeroflux.Prelude.Int.{ℤ, ◌-ℤ◌}
use xaeroflux.Sqlite.{PeerRow, Sqlite}
use xaeroflux.Peers.{Tracker, load_cache, upsert_peer, mark_offline, prune_stale}
use xaeroflux.Peers.CacheLaws.{cached}
use xaeroflux.Peers.Coherence.{peer_rows, upsert_peer_cases, mark_offline_cases}
use xaeroflux.Peers.Sightings.{known, seen, any_time, seen-any_time, known-update, seen-stale}
use xaeroflux.Peers.Changes.{
  stale_rows, upsert_peer_rows, mark_offline_rows, load_cache_all, prune_stale_cases,
}
use xaeroflux.Peers.Specification.{
  Presence, Request, upsert, offline, prune, load, Outcome, refused, halfway, worked, Answer,
  failed, loaded, pruned, upserted, left, spec_step, spec_run, same_presence,
}

module _ (S : Sqlite) where
  abbrev pub presence : Tracker S → Presence
  presence t = record {
    is_known = known (peer_rows S t);
    is_online = seen (peer_rows S t);
    is_shown = cached t.cache;
  }

  abbrev joined : Option Bool → Answer
  joined none = failed
  joined (some is_new) = upserted is_new

  abbrev gone_from : Option (List String) → Answer
  gone_from none = failed
  gone_from (some groups) = left (contains groups)

  abbrev counted : Option ℕ → Answer
  counted none = failed
  counted (some count) = pruned

  abbrev reloaded : Option (Unit {0}) → Answer
  reloaded none = failed
  reloaded (some _) = loaded

  unfoldable pub serve_request : Request → Tracker S → Answer × Tracker S
  serve_request (upsert now g p) t = let (r, t') = upsert_peer S now g p t in (joined r, t')
  serve_request (offline now p) t = let (r, t') = mark_offline S now p t in (gone_from r, t')
  serve_request (prune now max_age) t = let (r, t') = prune_stale S now max_age t in (counted r, t')
  serve_request load t = let (r, t') = load_cache S t in (reloaded r, t')

  unfoldable pub serve_requests : List Request → Tracker S → List Answer × Tracker S
  unfolding serve_request
  serve_requests [] t = ([], t)
  serve_requests (r ∷ rs) t =
      let (answer, t') = serve_request r t in
      let (answers, t'') = serve_requests rs t' in (answer ∷ answers, t'')

  -- What a call shows is what the specification gives for some outcome.
  abbrev Refines : Request → Tracker S → Answer × Tracker S → Type 0
  Refines r t (answer, t') =
      (o : Outcome) × (◌≡◌ {A = Answer × Presence} (answer, presence t')
        (spec_step r o (presence t)))

  paired :
      (a b : Answer) (P Q : Presence) → a ≡ b → P ≡ Q → ◌≡◌ {A = Answer × Presence} (a, P) (b, Q)
  paired a b P Q e h = ap (λ (c : Answer). (c, P)) e ∙ ap (λ (R : Presence). (b, R)) h

  -- A call that fails and changes neither the rows nor the cache.
  unchanged :
      (t t' : Tracker S)
      → peer_rows S t' ≡ peer_rows S t
      → t'.cache ≡ t.cache
      → presence t' ≡ presence t
  unchanged t t' rows cache =
      same_presence _ _ (λ h q. ap (λ rs. known rs h q) rows)
        (λ test h q. ap (λ rs. seen rs test h q) rows) (λ h q. ap (λ c. cached c h q) cache)

  upsert-Refines :
      (now : ℤ) (g p : String) (t : Tracker S)
      → Refines (upsert now g p) t (serve_request (upsert now g p) t)
  unfolding serve_request spec_step
  upsert-Refines now g p t = elim (Option-cases (upsert_peer S now g p t).0) [
    | inl bad ↦ (
      refused,
      paired _ _ _ _ (ap joined bad) (
          unchanged t _ (ground (arith, bad, upsert_peer_cases S now g p t g p))
            (ground (arith, bad, upsert_peer_cases S now g p t g p))),
    )
    | inr (b, good) ↦ (
      worked,
      paired _ _ _ _
          (ap joined good
            ∙ ap upserted (ground (arith, good, upsert_peer_rows S now g p t any_time g p)))
          (same_presence _ _
            (λ h q. ground (arith, good, upsert_peer_rows S now g p t any_time h q))
            (λ test h q. ground (arith, good, upsert_peer_rows S now g p t test h q))
            (λ h q. ground (arith, good, upsert_peer_cases S now g p t h q))),
    )
  ]

  offline-Refines :
      (now : ℤ) (p : String) (t : Tracker S)
      → Refines (offline now p) t (serve_request (offline now p) t)
  unfolding serve_request spec_step
  offline-Refines now p t = elim (Option-cases (mark_offline S now p t).0) [
    | inl bad ↦ (
      refused,
      paired _ _ _ _ (ap gone_from bad) (
          unchanged t _ (ground (arith, bad, mark_offline_cases S now p t p p))
            (ground (arith, bad, mark_offline_cases S now p t p p))),
    )
    | inr (groups, good) ↦ (
      worked,
      paired _ _ _ _
          (ap gone_from good
            ∙ ap left (
                fun_ext (λ h. ground (
                  arith,
                  good,
                  mark_offline_cases S now p t h p,
                  seen-any_time (peer_rows S t) h p,
                ))))
          (same_presence _ _ (λ h q. ground (arith, good, mark_offline_rows S now p t any_time h q))
            (λ test h q. ground (arith, good, mark_offline_rows S now p t test h q))
            (λ h q. ground (arith, good, mark_offline_cases S now p t h q))),
    )
  ]

  load-Refines : (t : Tracker S) → Refines load t (serve_request load t)
  unfolding serve_request spec_step
  load-Refines t =
      let (rows, either) = load_cache_all S t in
      elim either [
        | inl (bad, cache) ↦ (refused, paired _ _ _ _ (ap reloaded bad) (unchanged t _ rows cache))
        | inr (good, fills) ↦ (
          worked,
          paired _ _ _ _ (ap reloaded good) (
              same_presence _ _ (λ h q. ap (λ rs. known rs h q) rows)
                (λ test h q. ap (λ rs. seen rs test h q) rows)
                (λ h q. fills h q ∙ sym (seen-any_time (peer_rows S t) h q))),
        )
      ]

  known-stale :
      (cutoff : ℤ) (rows : List PeerRow) (h q : String)
      → known (stale_rows cutoff rows) h q ≡ known rows h q
  known-stale cutoff rows h q = known-update _ _ rows h q (λ r. refl)

  prune-Refines :
      (now max_age : ℤ) (t : Tracker S)
      → Refines (prune now max_age) t (serve_request (prune now max_age) t)
  unfolding serve_request spec_step
  prune-Refines now max_age t =
      let cutoff = now -ℤ max_age in
      let rows = peer_rows S t in
      elim (prune_stale_cases S now max_age t) [
        | inl (bad, same, cache) ↦
            (refused, paired _ _ _ _ (ap counted bad) (unchanged t _ same cache))
        | inr (inl (bad, changed, cache)) ↦ (
          halfway,
          paired _ _ _ _ (ap counted bad) (
              same_presence _ _
                (λ h q. ap (λ rs. known rs h q) changed ∙ known-stale cutoff rows h q)
                (λ test h q. ap (λ rs. seen rs test h q) changed ∙ seen-stale cutoff rows test h q)
                (λ h q. ap (λ c. cached c h q) cache)),
        )
        | inr (inr (count, good, changed, fills)) ↦ (
          worked,
          paired _ _ _ _ (ap counted good) (
              same_presence _ _
                (λ h q. ap (λ rs. known rs h q) changed ∙ known-stale cutoff rows h q)
                (λ test h q. ap (λ rs. seen rs test h q) changed ∙ seen-stale cutoff rows test h q)
                (λ h q.
                  fills h q
                  ∙ sym (seen-any_time (stale_rows cutoff rows) h q)
                  ∙ seen-stale cutoff rows any_time h q)),
        )
      ]

  serve_request-Refines : (r : Request) (t : Tracker S) → Refines r t (serve_request r t)
  serve_request-Refines (upsert now g p) t = upsert-Refines now g p t
  serve_request-Refines (offline now p) t = offline-Refines now p t
  serve_request-Refines (prune now max_age) t = prune-Refines now max_age t
  serve_request-Refines load t = load-Refines t

  -- Refinement: whatever the cache holds and whatever statement fails, any calls of `upsert_peer`,
  -- `mark_offline`, `prune_stale` and `load_cache` give the answers, and leave the pairs known, the peers
  -- online with their last sightings and the peers shown, that the specification gives and leaves for some
  -- outcome of each call. The number that `prune_stale` returns is left out.
  pub serve_requests-refines :
      (rs : List Request) (t : Tracker S)
      → let (answers, t') = serve_requests rs t in
        (os : List Outcome) × (◌≡◌ {A = List Answer × Presence}
          (answers, presence t')
          (spec_run rs os (presence t)))
  unfolding serve_requests spec_run
  serve_requests-refines [] t = ([], refl)
  serve_requests-refines (r ∷ rs) t =
      let (a, t') = serve_request r t in
      let (o, now) = serve_request-Refines r t in
      let (os, later) = serve_requests-refines rs t' in
      (o ∷ os, rw (← now) (ap (λ (x : List Answer × Presence). (a ∷ x.0, x.1)) later))
