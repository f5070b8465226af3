-- ===== src/Base/Text/Lossy.antt =====
-- `String::from_utf8_lossy` and the trimming of NULs, on octets.
use Prim.Native.Nat.{ℕ, zero, suc, ◌<◌}
use mathlib.Core.Path.{◌≡◌, refl, ap}
use mathlib.Core.Bool.{Bool, true, false}
use mathlib.Core.Logic.{inl, inr}
use mathlib.Core.Option.{Option, none, some}
use mathlib.Core.List.{List, [], ◌∷◌, ◌++◌, append_assoc}
use native.Mathlib.Omega.{arith}
use heliobridge.Base.Tests.{◌==◌, if◌then◌else◌, Option-cases, Bool-cases}
use heliobridge.Base.Lists.{All}
use heliobridge.Base.Text.{utf8_start, in_range, lead, utf8_from, is_utf8, Pending}

abbrev replacement : List ℕ → List ℕ
replacement rest = 0xef ∷ 0xbf ∷ 0xbd ∷ rest

-- What a leading octet gives, given how the rest goes on.
lossy_start : Option Pending → ℕ → (ℕ → ℕ → ℕ → List ℕ → List ℕ) → List ℕ
lossy_start none b go = replacement (go 0 0x80 0xbf [])
lossy_start (some p) b go =
    if p.count == 0 then b ∷ go 0 0x80 0xbf [] else go p.count p.low p.high (b ∷ [])

-- A continuation octet: it ends the character, goes on with it, or breaks it off.
lossy_more : Bool → ℕ → List ℕ → ℕ → (ℕ → ℕ → ℕ → List ℕ → List ℕ) → List ℕ
lossy_more true zero seen b go = seen ++ (b ∷ go 0 0x80 0xbf [])
lossy_more true (suc n) seen b go = go (suc n) 0x80 0xbf (seen ++ (b ∷ []))
lossy_more false n seen b go = replacement (lossy_start (lead b) b go)

-- `String::from_utf8_lossy`: each longest part of a sequence that is cut short or broken off
-- becomes U+FFFD. `seen` is the part of the current character that was read.
lossy_from : ℕ → ℕ → ℕ → List ℕ → List ℕ → List ℕ
lossy_from zero lo hi seen [] = []
lossy_from (suc n) lo hi seen [] = replacement []
lossy_from zero lo hi seen (b ∷ bs) = lossy_start (lead b) b (λ n l h s. lossy_from n l h s bs)
lossy_from (suc n) lo hi seen (b ∷ bs) =
    lossy_more (in_range lo hi b) n seen b (λ n l h s. lossy_from n l h s bs)

unfoldable pub from_utf8_lossy : List ℕ → List ℕ
unfolding lead lossy_from lossy_start lossy_more
from_utf8_lossy = lossy_from 0 0x80 0xbf []

-- A leading octet that nothing has to follow leaves the scan where it started.
lead-zero : (b : ℕ) (p : Pending) → lead b ≡ some p → p.count ≡ 0 → (p.low ≡ 0x80) × (p.high ≡ 0xbf)
unfolding lead
lead-zero b p e h = ground arith

lossy_start-utf8 :
    (b : ℕ) (p : Pending) (bs : List ℕ)
    → (p.count ≡ 0 → (p.low ≡ 0x80) × (p.high ≡ 0xbf))
    → utf8_start (some p) (λ n l h. utf8_from n l h bs) ≡ true
    → (utf8_from p.count p.low p.high bs ≡ true → lossy_from p.count p.low p.high [] bs ≡ bs)
    → ((p.count ≡ 0 → b ∷ [] ≡ [])
        → utf8_from p.count p.low p.high bs ≡ true
        → lossy_from p.count p.low p.high (b ∷ []) bs ≡ b ∷ bs)
    → lossy_start (some p) b (λ n l h s. lossy_from n l h s bs) ≡ b ∷ bs
unfolding lossy_start utf8_start
lossy_start-utf8 b p bs z h plain more = elim (Bool-cases (p.count == 0)) [
  | inl e ↦
      let c : p.count ≡ 0 = ground arith in
      let (l, u) = z c in rw e (ap (λ xs. b ∷ xs) (rw (c, l, u) at (plain h)))
  | inr e ↦ rw e (more (λ c. absurd (ground arith)) h)
]

-- Valid text is left as it is: what is still to be read is appended to what was seen.
lossy_from-utf8 :
    (n lo hi : ℕ) (seen s : List ℕ)
    → (n ≡ 0 → seen ≡ [])
    → utf8_from n lo hi s ≡ true
    → lossy_from n lo hi seen s ≡ seen ++ s
unfolding utf8_from lossy_from lossy_more
lossy_from-utf8 zero lo hi seen [] k h = ground (arith, k refl)
lossy_from-utf8 (suc n) lo hi seen [] k h = cc
lossy_from-utf8 zero lo hi seen (b ∷ bs) k h = elim (Option-cases (lead b)) [
  | inl n ↦ absurd (unfold utf8_start in ground (arith, n))
  | inr (p, e) ↦
      rw (k refl, e)
        (lossy_start-utf8 b p bs (lead-zero b p e) (rw e at h)
          (lossy_from-utf8 p.count p.low p.high [] bs (λ _. refl))
          (lossy_from-utf8 p.count p.low p.high (b ∷ []) bs))
]
lossy_from-utf8 (suc zero) lo hi seen (b ∷ bs) k h =
    ground (arith, lossy_from-utf8 0 0x80 0xbf [] bs (λ _. refl))
lossy_from-utf8 (suc (suc n)) lo hi seen (b ∷ bs) k h = ground (
  arith,
  lossy_from-utf8 (suc n) 0x80 0xbf (seen ++ (b ∷ [])) bs (λ q. absurd (omega arith)),
  append_assoc seen (b ∷ []) bs,
)

pub from_utf8_lossy-utf8 : (s : List ℕ) → is_utf8 s ≡ true → from_utf8_lossy s ≡ s
unfolding is_utf8 from_utf8_lossy
from_utf8_lossy-utf8 s h = lossy_from-utf8 0 0x80 0xbf [] s (λ _. refl) h

-- `trim_end_matches('\0')`
unfoldable pub trim_end_nul : List ℕ → List ℕ
trim_end_nul [] = []
trim_end_nul (b ∷ bs) = elim (trim_end_nul bs) [
  | [] ↦ if b == 0 then [] else b ∷ []
  | c ∷ cs ↦ b ∷ c ∷ cs
]

-- Text without a NUL is not trimmed.
pub trim_end_nul-graphic : (s : List ℕ) → All (λ b. 0 < b) s → trim_end_nul s ≡ s
unfolding trim_end_nul
trim_end_nul-graphic [] h = refl
trim_end_nul-graphic (b ∷ []) h = ground arith
trim_end_nul-graphic (b ∷ c ∷ cs) h = ground (arith, trim_end_nul-graphic (c ∷ cs) h.1)
