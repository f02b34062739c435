-- ===== src/Cli/Lines.antt =====
-- `str::trim`.
use Prim.Native.String.{String, [], ◌∷◌}
use Prim.Native.Char.{code}
use mathlib.Core.Bool.{false≢true}
use mathlib.Core.Logic.{if_neg}
use xaeroflux.Prelude.{
  ◌≡◌, refl, Bool, true, false, ◌&&◌, arith, ap, ◌∙◌, string_dec, ◌==◌, if◌then◌else◌,
}
use xaeroflux.Bootstrap.Texts.{is_whitespace, is_blank}

unfoldable pub trim_start : String → String
trim_start [] = []
trim_start (c ∷ s) = let rest = trim_start s in if is_whitespace (code c) then rest else c ∷ s

abbrev is_empty : String → Bool
is_empty [] = true
is_empty (c ∷ s) = false

unfoldable pub trim_end : String → String
trim_end [] = []
trim_end (c ∷ s) =
    let rest = trim_end s in if is_whitespace (code c) && is_empty rest then [] else c ∷ rest

unfoldable pub trim : String → String
unfolding trim_start trim_end
trim s = trim_end (trim_start s)

-- Nothing is left just of a text of white space.
is_empty-trim_end : (s : String) → is_empty (trim_end s) ≡ is_blank s
unfolding trim_end is_blank
is_empty-trim_end [] = refl
is_empty-trim_end (c ∷ s) = ground (arith, is_empty-trim_end s)

is_empty-trim : (s : String) → is_empty (trim s) ≡ is_blank s
unfolding trim trim_start is_blank
is_empty-trim [] = refl
is_empty-trim (c ∷ s) = ground (arith, is_empty-trim s, is_empty-trim_end (c ∷ s))

is_empty-equal : (s : String) → (s == "") ≡ is_empty s
is_empty-equal [] = ground arith
is_empty-equal (c ∷ s) = if_neg (string_dec (c ∷ s) []) (λ h. false≢true (ap is_empty h)) _ _

-- A line is empty without its white space just if it is blank.
pub trim-is_blank : (s : String) → (trim s == "") ≡ is_blank s
trim-is_blank s = is_empty-equal (trim s) ∙ is_empty-trim s
