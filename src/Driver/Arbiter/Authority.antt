-- ===== src/Driver/Arbiter/Authority.antt =====
-- What the relay policy of src/driver/arbiter.rs lets through, in each direction.
use heliobridge.Base.{◌≡◌, ◌≢◌, ◌↔◌, refl, ◌⊎◌, inl, inr, true, false, some, arith}
use heliobridge.Model.{Register}
use heliobridge.Driver.Arbiter.{
  Direction, to_device, to_cloud, Intent, telemetry, write_settings, write_config, read_request,
  read_response, write_ack, needs_attribution, Originator, unknown, Refusal, not_cloud_originated,
  allowed, refusal, Mode, full, controls, observer, cloud_only, Policy, evaluate, accessory_list,
}

-- The frames that the cloud may put in front of the device.
pub data Reaches (p : Policy) : Intent → Type 0 where
  in_full : {i : Intent} → p.mode ≡ full → Reaches p i
  a_setting : {s e : Register} → p.mode ≡ controls → Reaches p (write_settings s e)
  a_read : {r : Register} → p.mode ≡ controls → Reaches p (read_request r)
  a_pairing :
      {r : Register}
      → p.mode ≡ controls
      → p.cloud_may_pair_accessories ≡ true
      → r ≡ accessory_list
      → Reaches p (write_config r)

mode_cases : (m : Mode) → (m ≡ full) ⊎ ((m ≡ controls) ⊎ (m ≡ observer))
mode_cases full = inl refl
mode_cases controls = inr (inl refl)
mode_cases observer = inr (inr refl)

evaluate-Reaches :
    (p : Policy) (i : Intent) (o : Originator)
    → Reaches p i
    → allowed (evaluate p to_device i o) ≡ true
unfolding evaluate allowed
evaluate-Reaches p i o (in_full m) = ground arith
evaluate-Reaches p i o (a_setting m) = ground arith
evaluate-Reaches p i o (a_read m) = ground arith
evaluate-Reaches p i o (a_pairing m f e) = ground arith

in_controls :
    (p : Policy) (i : Intent) (o : Originator)
    → p.mode ≡ controls
    → allowed (evaluate p to_device i o) ≡ true
    → Reaches p i
unfolding evaluate allowed
in_controls p (write_settings s e) o m h = a_setting m
in_controls p (read_request r) o m h = a_read m
in_controls p (write_config r) o m h = a_pairing m (ground arith) (ground arith)
in_controls p _ o m h = absurd (ground arith)

not_in_observer :
    (p : Policy) (i : Intent) (o : Originator)
    → p.mode ≡ observer
    → allowed (evaluate p to_device i o) ≡ true
    → ⊥
unfolding evaluate allowed
not_in_observer p i o m h = ground arith

-- Towards the device exactly the frames that the policy names pass, whoever they came from.
pub allowed-iff_Reaches :
    (p : Policy) (i : Intent) (o : Originator)
    → (allowed (evaluate p to_device i o) ≡ true) ↔ Reaches p i
allowed-iff_Reaches p i o = (forth, evaluate-Reaches p i o)
  where
    forth : allowed (evaluate p to_device i o) ≡ true → Reaches p i
    forth h = elim (mode_cases p.mode) [
      | inl m ↦ in_full m
      | inr (inl m) ↦ in_controls p i o m h
      | inr (inr m) ↦ absurd (not_in_observer p i o m h)
    ]

-- Towards the cloud a frame is withheld exactly when it answers a command, only the cloud's own
-- answers are wanted, and the cloud issued no such command; the refusal says so.
pub refusal-to_cloud :
    (p : Policy) (i : Intent) (o : Originator) (r : Refusal)
    → (refusal (evaluate p to_cloud i o) ≡ some r) ↔ (
        (needs_attribution i ≡ true)
        × (p.answers ≡ cloud_only)
        × (o ≡ unknown)
        × (r ≡ not_cloud_originated))
unfolding evaluate refusal needs_attribution
refusal-to_cloud p i o r = (forth i o, back i o)
  where
    forth :
        (i : Intent) (o : Originator)
        → refusal (evaluate p to_cloud i o) ≡ some r
        → (needs_attribution i ≡ true)
          × (p.answers ≡ cloud_only)
          × (o ≡ unknown)
          × (r ≡ not_cloud_originated)
    forth (read_response x) o h = ground arith
    forth (write_ack x y) o h = ground arith
    forth _ o h = absurd (ground arith)

    back :
        (i : Intent) (o : Originator)
        → (needs_attribution i ≡ true)
          × (p.answers ≡ cloud_only)
          × (o ≡ unknown)
          × (r ≡ not_cloud_originated)
        → refusal (evaluate p to_cloud i o) ≡ some r
    back (read_response x) o h = ground arith
    back (write_ack x y) o h = ground arith
    back _ o h = absurd (ground arith)

-- Opening the accessory list changes the decision on one frame alone: a write of that register.
pub pairing_only :
    (p : Policy) (d : Direction) (i : Intent) (o : Originator)
    → i ≢ write_config accessory_list
    → evaluate (record p { cloud_may_pair_accessories = true }) d i o
      ≡ evaluate (record p { cloud_may_pair_accessories = false }) d i o
unfolding evaluate
pairing_only p to_cloud i o ne = refl
pairing_only p to_device (write_config r) o ne = ground (arith, ne)
pairing_only p to_device telemetry o ne = refl
pairing_only p to_device _ o ne = refl
