-- ===== src/Growatt/Header.antt =====
-- src/growatt/header.rs: the 8-octet frame header, and `ProtocolVersion` of src/growatt.rs.
use heliobridge.Base.{
  slice?-prefix, sym, ap, ◌∙◌, ◌≤◌, ℕ, ◌+◌, ◌≡◌, refl, Bool, Option, none, some, List, [], ◌∷◌,
  ◌++◌, arith, length, slice?, take, All, ◌==◌,
}
use heliobridge.Base.Octets.{IsByte, IsU16, be16, word, be16-word, word-be16}

-- `LEN`
abbrev pub header_len : ℕ
header_len = 8

-- `ProtocolVersion(pub u16)` and `ProtocolVersion::V7`
abbrev pub v7 : ℕ
v7 = 7

pub record Header : Type 0 where
  pub transaction_id : ℕ
  pub protocol : ℕ
  pub length : ℕ
  pub address : ℕ
  pub function : ℕ

pub from_octets : List ℕ → Option Header
unfolding word
from_octets (t0 ∷ t1 ∷ p0 ∷ p1 ∷ l0 ∷ l1 ∷ address ∷ function ∷ []) = some (record {
  transaction_id = word t0 t1;
  protocol = word p0 p1;
  length = word l0 l1;
  address = address;
  function = function;
})
from_octets _ = none

-- `Header::peek`
unfoldable pub peek : List ℕ → Option Header
unfolding from_octets
peek wire = elim (slice? wire 0 header_len) [ none ↦ none | some head ↦ from_octets head ]

-- `Header::to_bytes`
unfoldable pub to_bytes : Header → List ℕ
unfolding be16
to_bytes h =
    be16 h.transaction_id ++ (be16 h.protocol ++ (be16 h.length ++ (h.address ∷ h.function ∷ [])))

unfoldable pub implied_total_len : Header → ℕ
implied_total_len h = h.length + header_len

unfoldable pub length_matches : Header → ℕ → Bool
unfolding implied_total_len
length_matches h actual_total = implied_total_len h == actual_total

-- The values that the fields' Rust types allow.
pub record IsHeader (h : Header) : Type 0 where
  pub transaction_id : IsU16 h.transaction_id
  pub protocol : IsU16 h.protocol
  pub length : IsU16 h.length
  pub address : IsByte h.address
  pub function : IsByte h.function

pub length-to_bytes : (h : Header) → length (to_bytes h) ≡ 8
unfolding to_bytes
length-to_bytes h = refl

pub to_bytes-IsByte : (h : Header) → IsHeader h → All IsByte (to_bytes h)
unfolding to_bytes
to_bytes-IsByte h v = omega arith

-- A header that was serialised at the front of any octets is read back.
pub peek-to_bytes : (h : Header) (rest : List ℕ) → peek (to_bytes h ++ rest) ≡ some h
unfolding peek to_bytes
peek-to_bytes h rest =
    ground (arith, word-be16 h.transaction_id, word-be16 h.protocol, word-be16 h.length)

-- What is read from octets is what they say: serialising it gives the first eight back.
pub to_bytes-peek :
    (wire : List ℕ) {h : Header}
    → All IsByte wire
    → peek wire ≡ some h
    → (to_bytes h ≡ take 8 wire) × IsHeader h
unfolding peek to_bytes
to_bytes-peek (t0 ∷ t1 ∷ p0 ∷ p1 ∷ l0 ∷ l1 ∷ a ∷ f ∷ rest) v e =
    ground (arith, be16-word t0 t1, be16-word p0 p1, be16-word l0 l1)
to_bytes-peek _ v e = cc

-- `peek` reads the first eight octets alone.
pub peek-take : (p : List ℕ) → 8 ≤ length p → peek p ≡ from_octets (take 8 p)
unfolding peek
peek-take p h =
    ap (λ (o : Option (List ℕ)). elim o [ none ↦ none | some head ↦ from_octets head ])
      (slice?-prefix 8 p h)

pub peek-eq_take :
    (p q : List ℕ) → 8 ≤ length p → 8 ≤ length q → take 8 p ≡ take 8 q → peek p ≡ peek q
peek-eq_take p q hp hq e = peek-take p hp ∙ ap from_octets e ∙ sym (peek-take q hq)
