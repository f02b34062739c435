-- ===== src/Tests/Wire.antt =====
-- A codec that encodes every event and decodes it to itself: the time, then each text as the numbers of
-- its characters, one more each, and a zero at its end.
use Prim.Native.Nat.{Ordering, compare as compare_ℕ}
use Prim.Native.Char.{Char, char, code, IsLt, IsScalar}
use Prim.Native.String.{[] as []ˢ, ◌∷◌ as ◌∷ˢ◌}
use text.Mathlib.TextEquality.{IsScalar-prop}
use mathlib.Core.Option.{some-injective}
use xaeroflux.Prelude.{
  ℕ, zero, suc, ◌≡◌, refl, ap, ◌∙◌, sym, String, Option, none, some, [], ◌∷◌, ◌++◌,
}
use xaeroflux.Event.{Event}
use xaeroflux.Network.{Bytes, EventCodec, RoundTrips}
use xaeroflux.Mesh.Carried.{IsTotal}

-- `IsScalar n` is `Scalar` of three comparisons.
abbrev Both : Ordering → Ordering → Type 0
Both Ordering.lt o = IsLt o
Both Ordering.eq _ = ⊥
Both Ordering.gt _ = ⊥

abbrev Scalar : Ordering → Ordering → Ordering → Type 0
Scalar Ordering.lt _ _ = Unit
Scalar Ordering.eq o p = Both o p
Scalar Ordering.gt o p = Both o p

abbrev lt_dec : (o : Ordering) → Dec (IsLt o)
lt_dec Ordering.lt = yes tt
lt_dec Ordering.eq = no (λ h. h)
lt_dec Ordering.gt = no (λ h. h)

abbrev both_dec : (o p : Ordering) → Dec (Both o p)
both_dec Ordering.lt p = lt_dec p
both_dec Ordering.eq _ = no (λ h. h)
both_dec Ordering.gt _ = no (λ h. h)

abbrev scalar_dec : (o p q : Ordering) → Dec (Scalar o p q)
scalar_dec Ordering.lt _ _ = yes tt
scalar_dec Ordering.eq p q = both_dec p q
scalar_dec Ordering.gt p q = both_dec p q

abbrev char_if : (n : ℕ) → Dec (IsScalar n) → Option Char
char_if n (yes p) = some (char n p)
char_if n (no _) = none

char_if-code : (n : ℕ) (p : IsScalar n) (d : Dec (IsScalar n)) → char_if n d ≡ some (char n p)
char_if-code n p (yes q) = ap (λ r. some (char n r)) (IsScalar-prop n q p)
char_if-code n p (no q) = elim (q p) [ ]

abbrev char_of : ℕ → Option Char
char_of n = char_if n (scalar_dec (compare_ℕ n 55296) (compare_ℕ 57343 n) (compare_ℕ n 1114112))

char_of-code : (c : Char) → char_of (code c) ≡ some c
char_of-code (char n p) =
    char_if-code n p (scalar_dec (compare_ℕ n 55296) (compare_ℕ 57343 n) (compare_ℕ n 1114112))

abbrev pub write_text : String → Bytes
write_text []ˢ = 0 ∷ []
write_text (c ∷ˢ s) = suc (code c) ∷ write_text s

abbrev prepend : Option Char → Option (String × Bytes) → Option (String × Bytes)
prepend (some c) (some (s, bs)) = some (c ∷ˢ s, bs)
prepend (some c) none = none
prepend none _ = none

abbrev pub read_text : Bytes → Option (String × Bytes)
read_text [] = none
read_text (zero ∷ bs) = some ([]ˢ, bs)
read_text (suc n ∷ bs) = prepend (char_of n) (read_text bs)

pub read_text-write_text : (s : String) (bs : Bytes) → read_text (write_text s ++ bs) ≡ some (s, bs)
read_text-write_text []ˢ bs = refl
read_text-write_text (c ∷ˢ s) bs = rw (char_of-code c, read_text-write_text s bs) refl

infixl 10 ◌>>=◌
abbrev pub ◌>>=◌ : {A B : Type 0} → Option A → (A → Option B) → Option B
none >>= f = none
some a >>= f = f a

abbrev pub wire_bytes : Event → Bytes
wire_bytes e = e.ts ∷ write_text e.id ++ (write_text e.payload ++ (write_text e.source ++ []))

abbrev decode : Bytes → Option Event
decode [] = none
decode (ts ∷ bs) = do
  (id, after_id) ← read_text bs
  (payload, after_payload) ← read_text after_id
  (source, _) ← read_text after_payload
  some (record { id = id; payload = payload; source = source; ts = ts })

abbrev pub wire : EventCodec
wire = record { encode = λ e. some (wire_bytes e); decode = decode }

decode-encode : (e : Event) → decode (wire_bytes e) ≡ some e
decode-encode e =
    rw
      (
        read_text-write_text e.id (write_text e.payload ++ (write_text e.source ++ [])),
        read_text-write_text e.payload (write_text e.source ++ []),
        read_text-write_text e.source [],
      )
      refl

pub wire-RoundTrips : RoundTrips wire
wire-RoundTrips e bytes h = ap decode (sym (some-injective _ _ h)) ∙ decode-encode e

pub wire-IsTotal : IsTotal wire
wire-IsTotal e = (wire_bytes e, refl)
