-- ===== src/Peers/CacheLaws.antt =====
-- Who is online by the cache, and how each change of the cache changes it.
use xaeroflux.Prelude.{
  String, ◌≡◌, refl, Bool, false, ◌&&◌, ◌||◌, List, [], ◌∷◌, ◌++◌, arith, contains, contains-append,
  ◌==◌, if◌then◌else◌,
}
use xaeroflux.Prelude.Dict.{lookup, map_values, lookup-insert, lookup-map_values}
use xaeroflux.Peers.{Cache, cached_peers, push_peer, add_peer, retain_others, fill_cache}
use xaeroflux.Peers.Rows.{has_pair}

-- The cache says that the peer is online in the group.
abbrev pub cached : Cache → String → String → Bool
cached cache g p = contains (cached_peers cache g) p

pub cached-push :
    (g p : String) (cache : Cache) (h q : String)
    → cached (push_peer g p cache) h q ≡ ((g == h && p == q) || cached cache h q)
unfolding push_peer cached_peers
cached-push g p cache h q = ground (
  arith,
  lookup-insert h g (cached_peers cache g ++ p ∷ []) cache,
  contains-append (cached_peers cache g) (p ∷ []) q,
)

pub cached-add :
    (g p : String) (cache : Cache) (h q : String)
    → cached (add_peer g p cache) h q ≡ ((g == h && p == q) || cached cache h q)
unfolding add_peer cached_peers
cached-add g p cache h q = ground (
  arith,
  lookup-insert h g
      (if contains (cached_peers cache g) p
        then cached_peers cache g
        else cached_peers cache g ++ p ∷ [])
      cache,
  contains-append (cached_peers cache g) (p ∷ []) q,
)

contains-retain_others :
    (p : String) (peers : List String) (q : String)
    → contains (retain_others p peers) q ≡ (if p == q then false else contains peers q)
unfolding retain_others
contains-retain_others p [] q = ground arith
contains-retain_others p (r ∷ peers) q = ground (arith, contains-retain_others p peers q)

pub cached-retain :
    (p : String) (cache : Cache) (h q : String)
    → cached (map_values (retain_others p) cache) h q ≡ (if p == q then false else cached cache h q)
unfolding cached_peers
cached-retain p cache h q = ground (
  arith,
  lookup-map_values (retain_others p) h cache,
  contains-retain_others p (cached_peers cache h) q,
)

pub cached-fill :
    (rows : List (String × String)) (cache : Cache) (h q : String)
    → cached (fill_cache rows cache) h q ≡ (has_pair rows h q || cached cache h q)
unfolding fill_cache
cached-fill [] cache h q = refl
cached-fill ((g, p) ∷ rows) cache h q =
    ground (arith, cached-fill rows (push_peer g p cache) h q, cached-push g p cache h q)

pub cached-empty : (h q : String) → cached [] h q ≡ false
unfolding cached_peers lookup
cached-empty h q = refl
