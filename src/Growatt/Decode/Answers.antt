-- ===== src/Growatt/Decode/Answers.antt =====
-- Read answers and write acknowledgements of src/growatt/v7/decode.rs on octets of any length.
use heliobridge.Base.{ℕ, ◌≡◌, ◌↔◌, refl, some, List, [], ◌∷◌, ◌++◌, arith, All}
use heliobridge.Base.Octets.{word, word_at, pair_word, IsByte, be16, be16-word, word-be16}
use heliobridge.Base.Results.{some-injective, ok}
use heliobridge.Model.{Register, Raw}
use heliobridge.Growatt.Decode.{
  ReadResponse, WriteAck, read_body, single_ack, ack_of_read, word_field, octet_field,
}

-- The octets of an answer to a read, and of an acknowledgement in either layout.
abbrev pub answer_octets : ReadResponse → List ℕ
answer_octets r = be16 r.register ++ (be16 r.register ++ be16 r.raw)

abbrev pub single_octets : Register → ℕ → Raw → List ℕ
single_octets r status value = be16 r ++ (status ∷ be16 value)

-- An answer is read as it was laid out, whatever octets follow it.
pub read_body-octets :
    (r : ReadResponse) (rest : List ℕ) → read_body (answer_octets r ++ rest) ≡ ok r
unfolding read_body word_field word_at be16
read_body-octets r rest =
    let e = word-be16 r.register in let v = word-be16 r.raw in ground (arith, e, v)

-- Among bodies of octets, five under the code of a read are an acknowledgement of one register, and no other
-- number of octets is: the answer to a read, which has six, is never taken for one.
pub ack_of_read_iff :
    (body : List ℕ) (a : WriteAck)
    → All IsByte body
    → (ack_of_read body ≡ some a) ↔ (
        (value : Raw) × (body ≡ single_octets a.start a.status value)
        × (a.end ≡ a.start)
        × (a.value ≡ some value))
unfolding ack_of_read single_ack word_field octet_field word_at pair_word be16
ack_of_read_iff (b0 ∷ b1 ∷ b2 ∷ b3 ∷ b4 ∷ []) a v =
    let e = be16-word b0 b1 v.1.0 in
    let w = be16-word b3 b4 v.1.1.1.1.0 in
    (
      λ h. rw (← some-injective h) (word b3 b4, ground (arith, e, w), refl, refl),
      λ (x, p, q, r).
          let s = word-be16 a.start in let t = word-be16 x in ground (arith, s, t, p, q, r),
    )
ack_of_read_iff body a v = ground arith
