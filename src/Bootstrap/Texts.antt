-- ===== src/Bootstrap/Texts.antt =====
-- `strip_prefix`, and the test for texts of white space.
use Prim.Native.String.{String, [], ◌∷◌, ◌++◌}
use Prim.Native.String.append
use Prim.Native.Char.{Char, code}
use xaeroflux.Prelude.{
  ℕ, ◌≡◌, ap, ◌∙◌, Bool, true, ◌&&◌, ◌||◌, Option, none, some, leb, arith, if◌then◌else◌,
}

abbrev pub same_char : Char → Char → Bool
same_char c d = leb (code c) (code d) && leb (code d) (code c)

unfoldable pub strip_prefix : String → String → Option String
strip_prefix [] s = some s
strip_prefix (c ∷ p) [] = none
strip_prefix (c ∷ p) (d ∷ s) = let rest = strip_prefix p s in if same_char c d then rest else none

nil_append : (s : String) → [] ++ s ≡ s
nil_append s = λ i. append.nil s i

cons_append : (c : Char) (p s : String) → (c ∷ p) ++ s ≡ c ∷ (p ++ s)
cons_append c p s = λ i. append.cons c p s i

pub strip_prefix-append : (p s : String) → strip_prefix p (p ++ s) ≡ some s
unfolding strip_prefix
strip_prefix-append [] s = ap some (nil_append s)
strip_prefix-append (c ∷ p) s =
    ap (strip_prefix (c ∷ p)) (cons_append c p s) ∙ ground (arith, strip_prefix-append p s)

-- Unicode's White_Space.
abbrev between : ℕ → ℕ → ℕ → Bool
between a b n = leb a n && leb n b

abbrev pub is_whitespace : ℕ → Bool
is_whitespace n =
    between 9 13 n
    || between 32 32 n
    || between 133 133 n
    || between 160 160 n
    || between 5760 5760 n
    || between 8192 8202 n
    || between 8232 8233 n
    || between 8239 8239 n
    || between 8287 8287 n
    || between 12288 12288 n

-- `text.trim().is_empty()`
unfoldable pub is_blank : String → Bool
is_blank [] = true
is_blank (c ∷ s) = is_whitespace (code c) && is_blank s
