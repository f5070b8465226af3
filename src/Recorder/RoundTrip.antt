-- ===== src/Recorder/RoundTrip.antt =====
-- What src/record.rs writes for a frame is read back.
use heliobridge.Base.{
  refl, ◌≡◌, ap, ℕ, ◌+◌, ◌<◌, some, List, ◌++◌, length, length-append, slice?, slice?-drop, arith,
  min,
}
use heliobridge.Recorder.{
  Stream, up, down, inject, blocked, tag, from_tag, Record, be32, from_be32, be64, from_be64,
  encode, decode, magic, u32_max,
}

from_tag-tag : (s : Stream) → from_tag (tag s) ≡ some s
unfolding from_tag tag
from_tag-tag up = refl
from_tag-tag down = refl
from_tag-tag inject = refl
from_tag-tag blocked = refl

from_be32-be32 : (n : ℕ) → from_be32 (be32 n) ≡ some n
unfolding from_be32 be32
from_be32-be32 n = ap some (omega arith)

from_be64-be64 : (n : ℕ) → n < 18446744073709551616 → from_be64 (be64 n) ≡ some n
unfolding from_be64 be64 be32
from_be64-be64 n h = ap some (omega arith)

-- A record whose clock fits 64 bits and whose payload fits the length field is read back from the
-- front of any octets that begin with its own, and their number is given.
pub decode-encode_record :
    (r : Record) (rest : List ℕ)
    → r.micros < 18446744073709551616
    → length r.payload < 4294967296
    → decode (encode r ++ rest) ≡ some (r, length (encode r))
unfolding encode decode be64 be32
decode-encode_record r rest m p =
    let w = encode r ++ rest in
    let n = length r.payload in
    let fits : min n u32_max ≡ n = omega arith in
    let z = length-append r.payload rest in
    let s0 : slice? w 0 4 ≡ some magic = slice?-drop w 0 4 magic _ refl (omega arith) refl in
    let s1 : slice? w 5 13 ≡ some (be64 r.micros) =
      slice?-drop w 5 8 (be64 r.micros) _ refl (omega arith) refl in
    let s2 : slice? w 13 17 ≡ some (be32 (min n u32_max)) =
      slice?-drop w 13 4 (be32 (min n u32_max)) _ refl (omega arith) refl in
    let s3 : slice? w 17 (17 + n) ≡ some r.payload =
      slice?-drop w 17 n r.payload rest refl (omega arith) refl in
    let c = from_be64-be64 r.micros m in
    let l = from_be32-be32 n in
    rw (s0, from_tag-tag r.stream, s1, c, s2, fits, l, s3) (ap (λ k. some (r, k)) (omega arith))
