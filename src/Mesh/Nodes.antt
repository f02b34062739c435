-- ===== src/Mesh/Nodes.antt =====
-- What holds of every node of a mesh when one of them moves.
use mathlib.Core.Path.{subst}
use mathlib.Core.Logic.{if_pos, if_neg}
use mathlib.Core.Option.{some-injective}
use xaeroflux.Prelude.{
  ℕ, zero, suc, ◌≡◌, String, string_dec, none, some, List, [], ◌∷◌, ◌++◌, get_elem?, All,
}
use xaeroflux.Sqlite.{Sqlite}
use xaeroflux.Network.{EventCodec}
use xaeroflux.Node.{Node}
use xaeroflux.Mesh.{set_node}

module _ (S : Sqlite) (codec : EventCodec) where
  -- What holds of the node that moved, and of every other, holds of all.
  pub set_node-all :
      (Q : String → Node S → Type 0) (i : String) (n : Node S) (nodes : String → Node S)
      → Q i n
      → ((j : String) → Q j (nodes j))
      → (j : String) → Q j (set_node S codec i n nodes j)
  set_node-all Q i n nodes h k j = elim (string_dec i j) [
    | yes p ↦ rw (if_pos (string_dec i j) p _ _) (subst (λ x. Q x n) p h)
    | no p ↦ rw (if_neg (string_dec i j) p _ _) (k j)
  ]

pub All-append {ℓ κ} :
    {A : Type ℓ} (P : A → Type κ) (xs ys : List A) → All P xs → All P ys → All P (xs ++ ys)
All-append P [] ys h k = k
All-append P (x ∷ xs) ys h k = (h.0, All-append P xs ys h.1 k)

pub All-map {ℓ κ μ} :
    {A : Type ℓ} (P : A → Type κ) (Q : A → Type μ) (xs : List A)
    → ((x : A) → P x → Q x)
    → All P xs
    → All Q xs
All-map P Q [] f h = tt
All-map P Q (x ∷ xs) f h = (f x h.0, All-map P Q xs f h.1)

pub All-get_elem? {ℓ κ} :
    {A : Type ℓ} (P : A → Type κ) (xs : List A) (k : ℕ) (a : A)
    → All P xs
    → get_elem? xs k ≡ some a
    → P a
All-get_elem? P [] k a h p = absurd_none p
  where
    absurd_none : none ≡ some a → P a
    absurd_none q = cc
All-get_elem? P (x ∷ xs) zero a h p = subst P (some-injective _ _ p) h.0
All-get_elem? P (x ∷ xs) (suc k) a h p = All-get_elem? P xs k a h.1 p
