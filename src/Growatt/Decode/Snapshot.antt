-- ===== src/Growatt/Decode/Snapshot.antt =====
-- What a settings snapshot of src/growatt/v7/decode.rs yields.
use heliobridge.Base.{
  ℕ, zero, suc, ◌+◌, ◌-◌, ◌*◌, ◌≤◌, ◌≡◌, inl, inr, true, some, List, [], ◌∷◌, arith, All, leb,
  Option-cases,
}
use heliobridge.Base.Results.{ok-injective, ok, ensure, >>=-eq-ok}
use heliobridge.Model.{Register, Raw}
use heliobridge.Growatt.MessageType.{settings_snapshot}
use heliobridge.Growatt.Frame.{Frame, message_type, u16_at}
use heliobridge.Growatt.Registers.{HoldingRegister, lookup}
use heliobridge.Growatt.Decode.{
  snapshot_end_offset, snapshot_start_offset, SettingsSnapshot, snapshot_start_offset,
  snapshot_end_offset, snapshot_values, snapshot_word, settings_snapshot_of, snapshot_block_offset,
  is_type, is_type-eq, wrong_message_type, range,
}

-- A value that a snapshot from `start` gives: of a known register, in the range, and the word that
-- stands at its place in the block.
pub record IsRead (f : Frame) (start end : Register) (p : Register × Raw) : Type 0 where
  pub entry : HoldingRegister
  pub known : lookup p.0 ≡ some entry
  pub above : start ≤ p.0
  pub below : p.0 ≤ end
  pub held : u16_at f (snapshot_block_offset + (p.0 - start) * 2) ≡ some p.1

snapshot_values-IsRead :
    (f : Frame) (start end : Register) (count index : ℕ)
    → start + index + count ≤ end + 1
    → All (IsRead f start end) (snapshot_values f start count index)
unfolding snapshot_values
snapshot_values-IsRead f start end zero index h = tt
snapshot_values-IsRead f start end (suc count) index h =
    let rest = snapshot_values-IsRead f start end count (index + 1) (omega arith) in
    elim (Option-cases (lookup (start + index))) [
      | inl n ↦ rw n rest
      | inr (e, k) ↦ elim (Option-cases (u16_at f (snapshot_block_offset + index * 2))) [
        | inl n ↦ rw (k, n) rest
        | inr (raw, w) ↦
            let i : start + index - start ≡ index = omega arith in
            rw (k, w)
              (
                record {
                  entry = e;
                  known = k;
                  above = omega arith;
                  below = omega arith;
                  held = rw i w;
                },
                rest,
              )
      ]
    ]

-- The registers of a list rise, and all lie at or above a bound.
abbrev pub Rising : Register → List (Register × Raw) → Type 0
Rising bound [] = Unit
Rising bound ((r, raw) ∷ rest) = (bound ≤ r) × Rising (r + 1) rest

Rising-weaken : (a b : Register) (xs : List (Register × Raw)) → a ≤ b → Rising b xs → Rising a xs
Rising-weaken a b [] h r = tt
Rising-weaken a b ((x, raw) ∷ xs) h r = (omega arith, r.1)

snapshot_values-Rising :
    (f : Frame) (start : Register) (count index : ℕ)
    → Rising (start + index) (snapshot_values f start count index)
unfolding snapshot_values
snapshot_values-Rising f start zero index = tt
snapshot_values-Rising f start (suc count) index =
    let out = snapshot_values f start count (index + 1) in
    let e : start + (index + 1) ≡ start + index + 1 = omega arith in
    let rest : Rising (start + index + 1) out =
      rw e at (snapshot_values-Rising f start count (index + 1)) in
    let later : Rising (start + index) out =
      Rising-weaken (start + index) (start + index + 1) out (omega arith) rest in
    elim (Option-cases (lookup (start + index))) [
      | inl n ↦ rw n later
      | inr (h, k) ↦ elim (Option-cases (u16_at f (snapshot_block_offset + index * 2))) [
        | inl n ↦ rw (k, n) later
        | inr (raw, w) ↦ rw (k, w) (omega arith, rest)
      ]
    ]

-- A snapshot that is decoded comes from a frame of its type, declares a range that does not run
-- backwards, and gives rising known registers of that range, each with the word of its place.
pub settings_snapshot_lem :
    (f : Frame) (s : SettingsSnapshot)
    → settings_snapshot_of f ≡ ok s
    → (message_type f ≡ settings_snapshot)
      × (s.start ≤ s.end)
      × All (IsRead f s.start s.end) s.values
      × Rising s.start s.values
unfolding settings_snapshot_of
settings_snapshot_lem f s h =
    let (u, checked, h1) =
      >>=-eq-ok
        (ensure (is_type (message_type f) settings_snapshot)
          (wrong_message_type settings_snapshot (message_type f)))
        _ h in
    let (start, at_start, h2) =
      >>=-eq-ok (snapshot_word f snapshot_start_offset "snapshot start") _ h1 in
    let (end, at_end, h3) = >>=-eq-ok (snapshot_word f snapshot_end_offset "snapshot end") _ h2 in
    let (v, ordered, h4) = >>=-eq-ok (ensure (leb start end) (range start end)) _ h3 in
    let t : is_type (message_type f) settings_snapshot ≡ true = ground arith in
    let o : start ≤ end = ground arith in
    let read = snapshot_values-IsRead f start end (end - start + 1) 0 (omega arith) in
    let z : start + 0 ≡ start = omega arith in
    let rises : Rising start (snapshot_values f start (end - start + 1) 0) =
      rw z at (snapshot_values-Rising f start (end - start + 1) 0) in
    rw (← ok-injective h4) (is_type-eq _ _ t, o, read, rises)
