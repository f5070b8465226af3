-- ===== src/Growatt/Frame/Transform.antt =====
-- The obfuscation of src/growatt/v7/frame.rs.
use heliobridge.Base.{
  subst, All-append_left, All-append_right, ℕ, suc, ◌<◌, ◌≡◌, refl, sym, ap, ◌∙◌, inl, inr, List,
  [], ◌∷◌, ◌++◌, arith, length, take, drop, All, ltb, ltb→lt, Bool-cases, length-append,
  length-take, take-append-drop, take-append, suffix?-append, All-append,
}
use heliobridge.Base.Octets.{IsByte, xor-xor_key, xor-IsByte}
use heliobridge.Growatt.Frame.{obfuscation_key, xor_cycle, transform}

length-xor_cycle : (key os turn : List ℕ) → length (xor_cycle key os turn) ≡ length os
unfolding xor_cycle
length-xor_cycle key [] turn = refl
length-xor_cycle key (o ∷ os) (k ∷ ks) = ap suc (length-xor_cycle key os ks)
length-xor_cycle [] (o ∷ os) [] = refl
length-xor_cycle (k ∷ ks) (o ∷ os) [] = ap suc (length-xor_cycle (k ∷ ks) os ks)

xor_cycle-IsByte :
    (key os turn : List ℕ)
    → All IsByte key
    → All IsByte os
    → All IsByte turn
    → All IsByte (xor_cycle key os turn)
unfolding xor_cycle
xor_cycle-IsByte key [] turn b h t = tt
xor_cycle-IsByte key (o ∷ os) (k ∷ ks) b h t =
    (xor-IsByte k o t.0 h.0, xor_cycle-IsByte key os ks b h.1 t.1)
xor_cycle-IsByte [] (o ∷ os) [] b h t = h
xor_cycle-IsByte (k ∷ ks) (o ∷ os) [] b h t =
    (xor-IsByte k o b.0 h.0, xor_cycle-IsByte (k ∷ ks) os ks b h.1 b.1)

-- Two passes with one key, from the same place in it, give the octets back.
xor_cycle-xor_cycle :
    (key os turn : List ℕ)
    → All IsByte key
    → All IsByte os
    → All IsByte turn
    → xor_cycle key (xor_cycle key os turn) turn ≡ os
unfolding xor_cycle
xor_cycle-xor_cycle key [] turn b h t = refl
xor_cycle-xor_cycle key (o ∷ os) (k ∷ ks) b h t =
    cc (xor-xor_key k o t.0 h.0, xor_cycle-xor_cycle key os ks b h.1 t.1)
xor_cycle-xor_cycle [] (o ∷ os) [] b h t = refl
xor_cycle-xor_cycle (k ∷ ks) (o ∷ os) [] b h t =
    cc (xor-xor_key k o b.0 h.0, xor_cycle-xor_cycle (k ∷ ks) os ks b h.1 b.1)

key-IsByte : All IsByte obfuscation_key
key-IsByte = omega arith

abbrev masked : List ℕ → List ℕ
masked region = xor_cycle obfuscation_key region obfuscation_key

-- The header stays in clear, and all that follows it is masked.
transform-append :
    (head region : List ℕ) → length head ≡ 8 → transform (head ++ region) ≡ head ++ masked region
unfolding transform
transform-append head region e =
    let t : take 8 (head ++ region) ≡ head = rw (← e) (take-append head region) in
    rw (suffix?-append head region 8 e, transform) (ap (λ h. h ++ masked region) t)

-- Fewer octets than a header are left alone.
transform_short : (p : List ℕ) → length p < 8 → transform p ≡ p
unfolding transform
transform_short p h = ground arith

-- A property of `transform p`, from the short case and from the case of a header and a region.
module _ {ℓ} (P : List ℕ → Type ℓ) where
  by_header :
      ((p : List ℕ) → length p < 8 → P p)
      → ((head region : List ℕ) → length head ≡ 8 → P (head ++ region))
      → (p : List ℕ) → P p
  by_header short long p = elim (Bool-cases (ltb (length p) 8)) [
    | inl h ↦ short p (ltb→lt _ _ h)
    | inr h ↦
        subst P (take-append-drop 8 p)
          (long (take 8 p) (drop 8 p) (ground (arith, length-take 8 p)))
  ]

-- The operation is its own inverse.
pub transform-transform : (p : List ℕ) → All IsByte p → transform (transform p) ≡ p
transform-transform =
    by_header (λ p. All IsByte p → transform (transform p) ≡ p)
      (λ p h v. rw (transform_short p h) (transform_short p h))
      (λ head region e v.
        rw (transform-append head region e, transform-append head (masked region) e)
          (ap (λ r. head ++ r)
            (xor_cycle-xor_cycle obfuscation_key region obfuscation_key key-IsByte
              (All-append_right IsByte head region v) key-IsByte)))

pub length-transform : (p : List ℕ) → length (transform p) ≡ length p
length-transform =
    by_header (λ p. length (transform p) ≡ length p) (λ p h. ap length (transform_short p h))
      (λ head region e. rw (transform-append head region e) (
        omega (
          arith,
          length-append head (masked region),
          length-append head region,
          length-xor_cycle obfuscation_key region obfuscation_key,
        )))

pub take-transform : (p : List ℕ) → take 8 (transform p) ≡ take 8 p
take-transform =
    by_header (λ p. take 8 (transform p) ≡ take 8 p) (λ p h. ap (take 8) (transform_short p h))
      (λ head region e.
        rw (transform-append head region e, ← e)
          (take-append head (masked region) ∙ sym (take-append head region)))

pub transform-IsByte : (p : List ℕ) → All IsByte p → All IsByte (transform p)
transform-IsByte =
    by_header (λ p. All IsByte p → All IsByte (transform p)) (λ p h v. rw (transform_short p h) v)
      (λ head region e v. rw (transform-append head region e) (
        All-append IsByte head (masked region) (All-append_left IsByte head region v) (
          xor_cycle-IsByte obfuscation_key region obfuscation_key key-IsByte
            (All-append_right IsByte head region v) key-IsByte)))
