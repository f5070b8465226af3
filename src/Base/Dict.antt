-- ===== src/Base/Dict.antt =====
-- A `HashMap` from texts, as an association list, and the equality of texts that it looks up by.
use heliobridge.Base.Tests.{if◌then◌else◌}
use heliobridge.Base.Text.Parsing.{same_text}
use Prim.Native.Nat.{ℕ}
use native.Mathlib.Omega.{arith}
use mathlib.Core.Path.{◌≡◌, refl}
use mathlib.Core.Logic.{◌↔◌}
use mathlib.Core.Bool.{true}
use mathlib.Core.Option.{Option, none, some}
use mathlib.Core.List.{List, [], ◌∷◌}

pub same_text_self : (a : List ℕ) → same_text a a ≡ true
unfolding same_text
same_text_self [] = refl
same_text_self (x ∷ a) = ground (arith, same_text_self a)

pub eq_of_same_text : (a b : List ℕ) → same_text a b ≡ true → a ≡ b
unfolding same_text
eq_of_same_text [] [] h = refl
eq_of_same_text [] (y ∷ b) h = cc
eq_of_same_text (x ∷ a) [] h = cc
eq_of_same_text (x ∷ a) (y ∷ b) h = ground (arith, eq_of_same_text a b)

pub same_text_iff : (a b : List ℕ) → (same_text a b ≡ true) ↔ (a ≡ b)
same_text_iff a b = (eq_of_same_text a b, λ e. rw e (same_text_self b))

module _ {ℓ} {V : Type ℓ} where
  unfoldable pub get : List ℕ → List (List ℕ × V) → Option V
  get k [] = none
  get k ((j, v) ∷ m) = if same_text j k then some v else get k m

  -- the value of a key is replaced where it stands
  unfoldable pub insert : List ℕ → V → List (List ℕ × V) → List (List ℕ × V)
  insert k v [] = (k, v) ∷ []
  insert k v ((j, w) ∷ m) = if same_text j k then (k, v) ∷ m else (j, w) ∷ insert k v m

  unfoldable pub remove : List ℕ → List (List ℕ × V) → List (List ℕ × V)
  remove k [] = []
  remove k ((j, w) ∷ m) = if same_text j k then remove k m else (j, w) ∷ remove k m

  pub get-insert :
      (k j : List ℕ) (v : V) (m : List (List ℕ × V))
      → get j (insert k v m) ≡ (if same_text k j then some v else get j m)
  unfolding get insert
  get-insert k j v [] = refl
  get-insert k j v ((i, w) ∷ m) =
      ground (arith, same_text_iff k j, same_text_iff i k, same_text_iff i j, get-insert k j v m)

  pub get-remove :
      (k j : List ℕ) (m : List (List ℕ × V))
      → get j (remove k m) ≡ (if same_text k j then none else get j m)
  unfolding get remove
  get-remove k j [] = ground arith
  get-remove k j ((i, w) ∷ m) =
      ground (arith, same_text_iff k j, same_text_iff i k, same_text_iff i j, get-remove k j m)
