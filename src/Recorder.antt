-- ===== src/Recorder.antt =====
-- src/record.rs: the record that a recorded frame becomes in its file. Choosing, capping and
-- writing the files is input and output and is not modelled.
pub mod RoundTrip
use heliobridge.Base.{
  ℕ, zero, suc, ◌+◌, ◌*◌, ◌/◌, ◌%◌, Bool, true, false, Option, none, some, List, [], ◌∷◌, ◌++◌, min,
  length, get_elem?, slice?, ◌==◌, if◌then◌else◌, ◌&&◌,
}

pub data Stream : Type 0 where
  up down inject blocked : Stream

-- `Stream::tag` and `Stream::from_tag`
unfoldable pub tag : Stream → ℕ
tag up = 0
tag down = 1
tag inject = 2
tag blocked = 3

unfoldable pub from_tag : ℕ → Option Stream
from_tag zero = some up
from_tag (suc zero) = some down
from_tag (suc (suc zero)) = some inject
from_tag (suc (suc (suc zero))) = some blocked
from_tag _ = none

pub record Record : Type 0 where
  pub stream : Stream
  pub micros : ℕ
  pub payload : List ℕ

-- `*b"HBR1"`
abbrev pub magic : List ℕ
magic = 0x48 ∷ 0x42 ∷ 0x52 ∷ 0x31 ∷ []

abbrev pub header_len : ℕ
header_len = 17

abbrev pub u32_max : ℕ
u32_max = 4294967295

-- `to_be_bytes` of a `u32`, and its inverse on a slice of four octets.
unfoldable pub be32 : ℕ → List ℕ
be32 n = (n / 16777216) ∷ (n / 65536 % 256) ∷ (n / 256 % 256) ∷ (n % 256) ∷ []

unfoldable pub from_be32 : List ℕ → Option ℕ
from_be32 (a ∷ b ∷ c ∷ d ∷ []) = some (((a * 256 + b) * 256 + c) * 256 + d)
from_be32 _ = none

-- `to_be_bytes` of a `u64`, half by half, and its inverse on a slice of eight octets.
unfoldable pub be64 : ℕ → List ℕ
unfolding be32
be64 n = be32 (n / 4294967296) ++ be32 (n % 4294967296)

unfoldable pub from_be64 : List ℕ → Option ℕ
from_be64 (a ∷ b ∷ c ∷ d ∷ e ∷ f ∷ g ∷ h ∷ []) =
    some ((((((((a * 256 + b) * 256 + c) * 256 + d) * 256 + e) * 256 + f) * 256 + g) * 256) + h)
from_be64 _ = none

-- `Record::encode`
unfoldable pub encode : Record → List ℕ
encode r =
    magic
    ++ (tag r.stream ∷ (be64 r.micros ++ (be32 (min (length r.payload) u32_max) ++ r.payload)))

abbrev pub same_octets : List ℕ → List ℕ → Bool
same_octets [] [] = true
same_octets (a ∷ xs) (b ∷ ys) = a == b && same_octets xs ys
same_octets _ _ = false

infixl 5 ◌>>=◌
abbrev pub ◌>>=◌ : {A B : Type 0} → Option A → (A → Option B) → Option B
none >>= f = none
some a >>= f = f a

abbrev pub guard : Bool → Option (Unit {0})
guard true = some tt
guard false = none

-- `Record::decode`
unfoldable pub decode : List ℕ → Option (Record × ℕ)
decode buf = do
  start ← slice? buf 0 4
  checked ← guard (same_octets start magic)
  octet ← get_elem? buf 4
  stream ← from_tag octet
  clock ← slice? buf 5 13
  micros ← from_be64 clock
  size ← slice? buf 13 17
  len ← from_be32 size
  payload ← slice? buf header_len (header_len + len)
  some (record { stream = stream; micros = micros; payload = payload }, header_len + len)
