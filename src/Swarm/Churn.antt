-- ===== src/Swarm/Churn.antt =====
-- `BlobSwarm::fetch` of src/swarm.rs when holders fail: what it returns is the content of the hash, one
-- holder that serves is enough.
use mathlib.Core.Logic.{ite}
use mathlib.Core.Path.{subst}
use xaeroflux.Prelude.{
  String, ◌≡◌, refl, sym, ◌∙◌, ap, Bool, true, false, Option, none, some, List, [], ◌∷◌, ◌++◌, All,
}
use xaeroflux.Network.{Bytes}
use xaeroflux.Swarm.Blobs.{Blobs, IsWorking, connected}
use xaeroflux.Swarm.Fetch.{
  FetchError, integrity, Fetched, ok, err, parse_holders, try_provider, try_providers, surface,
  read_blob, finish, fetch_parsed, fetch, unless_held,
}

ite_yes {ℓ κ} : {P : Type ℓ} {A : Type κ} (d : Dec P) → P → (x y : A) → ite d x y ≡ x
ite_yes (yes p) q x y = refl
ite_yes (no n) q x y = absurd (n q)

module _ (B : Blobs) where
  open B use {
    World, Hash, show_hash, hash_dec, hash_of, PublicKey, parse_key, Connection, has, get_bytes,
    connect, remote_fetch,
  }

  IsContent : Hash → Fetched B Bytes → Type 0
  IsContent h (ok bytes) = hash_of bytes ≡ h
  IsContent h (err e) = Unit

  surface-IsContent : (h : Hash) (o : Option Bytes) (w : World) → IsContent h (surface B h o w).0
  unfolding IsContent
  surface-IsContent h none w = tt
  surface-IsContent h (some bytes) w = go (hash_dec (hash_of bytes) h)
    where
      go :
          (d : Dec (hash_of bytes ≡ h))
          → IsContent h (ite d (ok bytes) (err (integrity (hash_of bytes))))
      go (yes same) = same
      go (no differ) = tt

  read_blob-IsContent :
      (h : Hash) (held : Option Bool) (last_err : Option (FetchError B)) (w : World)
      → IsContent h (read_blob B h held last_err w).0
  unfolding IsContent
  read_blob-IsContent h none last_err w = tt
  read_blob-IsContent h (some false) last_err w = tt
  read_blob-IsContent h (some true) last_err w =
      surface-IsContent h (get_bytes h w).0 (get_bytes h w).1

  fetch_parsed-IsContent :
      (h : Hash) (ps : Fetched B (List PublicKey)) (w : World)
      → IsContent h (fetch_parsed B h ps w).0
  unfolding IsContent
  fetch_parsed-IsContent h (err e) w = tt
  fetch_parsed-IsContent h (ok ps) w =
      go (try_providers B h ps none w).0 (try_providers B h ps none w).1
    where
      go : (r : Fetched B (Option (FetchError B))) (w' : World) → IsContent h (finish B h r w').0
      go (err e) w' = tt
      go (ok last_err) w' = read_blob-IsContent h (has h w').0 last_err (has h w').1

  fetch-IsContent : (h : Hash) (ids : List String) (w : World) → IsContent h (fetch B h ids w).0
  unfolding fetch IsContent
  fetch-IsContent h [] w = tt
  fetch-IsContent h (id ∷ ids) w = fetch_parsed-IsContent h (parse_holders B (id ∷ ids)) w

  -- Bytes that a fetch returns have the hash that was asked for, whatever the holders sent.
  pub fetch-integrity :
      (h : Hash) (ids : List String) (w : World) (bytes : Bytes)
      → (fetch B h ids w).0 ≡ ok bytes
      → hash_of bytes ≡ h
  unfolding IsContent
  fetch-integrity h ids w bytes p = subst (IsContent h) p (fetch-IsContent h ids w)

  -- A provider that is reached and delivers the blob, whatever the state of the world.
  abbrev pub Serves : IsWorking B → Hash → PublicKey → Type 0
  Serves working h p =
      (w : World)
      → (c : Connection) × ((connect p w).0 ≡ connected c)
        × ((remote_fetch c h (connect p w).1).0 ≡ true)
        × (working.holds h (remote_fetch c h (connect p w).1).1 ≡ true)

  -- What a loop leaves behind that has found the blob.
  Found : IsWorking B → Hash → Fetched B (Option (FetchError B)) × World → Type 0
  Found working h (r, w) = ((e : Option (FetchError B)) × (r ≡ ok e)) × (working.holds h w ≡ true)

  module _ (working : IsWorking B) (h : Hash) where
    has-held : (w : World) → working.holds h w ≡ true → working.holds h (has h w).1 ≡ true
    has-held w held = working.has-keeps h h w ∙ held

    try_provider-Serves :
        (p : PublicKey) (e : Option (FetchError B)) (w : World)
        → Serves working h p
        → working.holds h (try_provider B h p e w).1 ≡ true
    unfolding try_provider
    try_provider-Serves p e w serves = let (c, dialled, good, held) = serves w in rw dialled held

    try_providers-held :
        (ps : List PublicKey) (e : Option (FetchError B)) (w : World)
        → working.holds h w ≡ true
        → Found working h (try_providers B h ps e w)
    unfolding try_providers Found
    try_providers-held [] e w held = ((e, refl), held)
    try_providers-held (p ∷ ps) e w held =
        let e' = try_provider B h p e (has h w).1 in
        subst
          (λ o. Found working h (unless_held B o e (has h w).1 (try_providers B h ps e'.0 e'.1)))
          (sym (working.has-holds h w ∙ ap some held)) ((e, refl), has-held w held)

    -- The loop behaves as it does if the blob is not there yet, when it is found either way.
    step-Found :
        (p : PublicKey) (ps : List PublicKey) (e : Option (FetchError B)) (w : World)
        → ((e' : Option (FetchError B)) (w' : World)
            → (e', w') ≡ try_provider B h p e (has h w).1
            → Found working h (try_providers B h ps e' w'))
        → Found working h (try_providers B h (p ∷ ps) e w)
    unfolding try_providers
    step-Found p ps e w rest = go (working.holds h w) refl
      where
        e' : Option (FetchError B) × World
        e' = try_provider B h p e (has h w).1

        go : (b : Bool) → working.holds h w ≡ b → Found working h (try_providers B h (p ∷ ps) e w)
        go true held = try_providers-held (p ∷ ps) e w held
        go false gone =
            subst
              (λ o.
                Found working h (unless_held B o e (has h w).1 (try_providers B h ps e'.0 e'.1)))
              (sym (working.has-holds h w ∙ ap some gone)) (rest e'.0 e'.1 refl)

    try_providers-Found :
        (before after : List PublicKey) (p : PublicKey)
        → Serves working h p
        → (e : Option (FetchError B)) (w : World)
        → Found working h (try_providers B h (before ++ p ∷ after) e w)
    try_providers-Found [] after p serves e w = step-Found p after e w (λ e' w' same.
        try_providers-held after e' w'
          (ap (λ r. working.holds h r.1) same ∙ try_provider-Serves p e (has h w).1 serves))
    try_providers-Found (q ∷ before) after p serves e w =
        step-Found q (before ++ p ∷ after) e w
          (λ e' w' same. try_providers-Found before after p serves e' w')

    finish-Found :
        (e : Option (FetchError B)) (w : World)
        → working.holds h w ≡ true
        → (bytes : Bytes) × ((finish B h (ok e) w).0 ≡ ok bytes) × (hash_of bytes ≡ h)
    finish-Found e w held =
        let (bytes, read, same) = working.get_bytes-holds h (has h w).1 (has-held w held) in
        (
          bytes,
          rw (working.has-holds h w, held, read)
              (ite_yes (hash_dec (hash_of bytes) h) same (ok bytes)
                (err (integrity (hash_of bytes)))),
          same,
        )

  unfoldable pub IsKey : String → Type 0
  IsKey id = (k : PublicKey) × (parse_key id ≡ some k)

  parse_holders-IsKey :
      (ids : List String) → All IsKey ids → (ps : List PublicKey) × (parse_holders B ids ≡ ok ps)
  unfolding parse_holders IsKey
  parse_holders-IsKey [] keys = ([], refl)
  parse_holders-IsKey (id ∷ ids) ((k, p), keys) =
      let (ps, q) = parse_holders-IsKey ids keys in (k ∷ ps, rw (p, q) refl)

  parse_holders-append :
      (before after : List String) (id : String) (p : PublicKey)
      → All IsKey before
      → All IsKey after
      → parse_key id ≡ some p
      → (ps qs : List PublicKey) × (parse_holders B (before ++ id ∷ after) ≡ ok (ps ++ p ∷ qs))
  unfolding parse_holders IsKey
  parse_holders-append [] after id p tt keys parsed =
      let (qs, q) = parse_holders-IsKey after keys in ([], qs, rw (parsed, q) refl)
  parse_holders-append (x ∷ before) after id p ((k, r), keys) keys' parsed =
      let (ps, qs, q) = parse_holders-append before after id p keys keys' parsed in
      (k ∷ ps, qs, rw (r, q) refl)

  fetch_cons :
      (h : Hash) (before after : List String) (id : String) (w : World)
      → fetch B h (before ++ id ∷ after) w
        ≡ fetch_parsed B h (parse_holders B (before ++ id ∷ after)) w
  unfolding fetch
  fetch_cons h [] after id w = refl
  fetch_cons h (x ∷ before) after id w = refl

  -- Over a store that works, one holder that serves is enough: whichever holders stand before and
  -- after it and however they fail, the fetch returns the content of the hash. Every id must be a key.
  pub fetch-Serves :
      (working : IsWorking B) (h : Hash) (before after : List String) (id : String) (p : PublicKey)
      → All IsKey before
      → All IsKey after
      → parse_key id ≡ some p
      → Serves working h p
      → (w : World)
      → (bytes : Bytes) × ((fetch B h (before ++ id ∷ after) w).0 ≡ ok bytes) × (hash_of bytes ≡ h)
  unfolding Found
  fetch-Serves working h before after id p keys keys' parsed serves w =
      let (ps, qs, q) = parse_holders-append before after id p keys keys' parsed in
      let r = try_providers B h (ps ++ p ∷ qs) none w in
      let ((e, ended), held) = try_providers-Found working h ps qs p serves none w in
      rw (fetch_cons h before after id w, q, ended) (finish-Found working h e r.1 held)
