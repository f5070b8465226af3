-- ===== src/Tests/Arbiter.antt =====
-- The policy and the outstanding commands of src/driver/arbiter.rs on concrete frames.
use heliobridge.Base.{
  ap, refl, ◌≡◌, ◌≢◌, ◌↔◌, true, false, some, List, [], ◌∷◌, ◌≤◌, ◌+◌, All, arith, ◌++◌,
}
use heliobridge.Base.Results.{some-injective}
use heliobridge.Model.{Register}
use heliobridge.Driver.Arbiter.{
  Policy, controls, cloud_only, to_device, to_cloud, write_config, write_settings, write_ack,
  unknown, cloud, allowed, evaluate, refusal, not_cloud_originated, needs_attribution, claim,
  remember, outstanding, Pending, CloudCommands, expire, take_first, covers, answered,
}
use heliobridge.Driver.Arbiter.Authority.{
  Reaches, allowed-iff_Reaches, refusal-to_cloud, pairing_only,
}
use heliobridge.Driver.Arbiter.Claims.{
  after, Answers, claim_sound, claim-remember, credited, credited-le-issued, issued, Event, sends,
  answers,
}

-- The default: control writes pass, and only answers to the cloud's own commands go up.
abbrev guarded : Policy
guarded = record { mode = controls; answers = cloud_only; cloud_may_pair_accessories = false }

allowed-iff_Reaches_example :
    (allowed (evaluate guarded to_device (write_config 18) cloud) ≡ true)
    ↔ Reaches guarded (write_config 18)
allowed-iff_Reaches_example = allowed-iff_Reaches guarded (write_config 18) cloud

refusal-to_cloud_example :
    (refusal (evaluate guarded to_cloud (write_ack 254 256) unknown) ≡ some not_cloud_originated)
    ↔ ((needs_attribution (write_ack 254 256) ≡ true)
        × (guarded.answers ≡ cloud_only)
        × (unknown ≡ unknown)
        × (not_cloud_originated ≡ not_cloud_originated))
refusal-to_cloud_example = refusal-to_cloud guarded (write_ack 254 256) unknown not_cloud_originated

not_pairing : write_config 18 ≢ write_config 122
not_pairing h = absurd (ground arith)

pairing_only_example :
    evaluate
      (record guarded { cloud_may_pair_accessories = true })
      to_device
      (write_config 18)
      cloud
    ≡ evaluate
        (record guarded { cloud_may_pair_accessories = false })
        to_device
        (write_config 18)
        cloud
pairing_only_example = pairing_only guarded to_device (write_config 18) cloud not_pairing

-- Two range writes of the cloud, a second apart.
abbrev queue : CloudCommands
queue =
    record { from = 254; to = 256; at = 1000 } ∷ (record { from = 310; to = 310; at = 2000 } ∷ [])

abbrev later : CloudCommands
later = record { from = 254; to = 256; at = 1000 } ∷ []

second_claimed : claim (write_ack 310 310) 3000 queue ≡ (cloud, later)
unfolding claim expire take_first
second_claimed = refl

claim_sound_example :
    (r : Register × Register) × (answered (write_ack 310 310) ≡ some r)
    × (before : CloudCommands) × (p : Pending) × (after : CloudCommands) × (expire 3000 queue
        ≡ before ++ (p ∷ after))
    × (later ≡ before ++ after)
    × Answers r.0 r.1 3000 p
    × All (λ x. covers r.0 r.1 x ≡ false) before
claim_sound_example = claim_sound (write_ack 310 310) 3000 queue later second_claimed

-- The cloud sends another command over the same registers, and the device answers a third.
abbrev meanwhile : List Event
meanwhile =
    sends (write_settings 250 260) 1500
    ∷ (answers (write_ack 310 310) 2000 ∷ (sends (write_settings 322 322) 2500 ∷ []))

elsewhere :
    (r : Register × Register)
    → answered (write_ack 310 310) ≡ some r
    → ¬ ((254 ≤ r.0) × (r.1 ≤ 256))
elsewhere r e within =
    absurd (omega (arith, ap (λ (x : Register × Register). x.1) (some-injective e), within.1))

claim-remember_example :
    (claim
      (write_ack 255 255)
      3000
      (after meanwhile (remember (write_settings 254 256) 1000 queue))).0
    ≡ cloud
claim-remember_example =
    claim-remember (write_settings 254 256) (write_ack 255 255) 1000 3000 queue meanwhile 254 256
      255 255 refl refl (omega arith) (omega arith) (omega arith)
      ((omega arith, tt), ((omega arith, elsewhere), ((omega arith, tt), tt)))

abbrev history : List Event
history =
    sends (write_settings 254 256) 1000
    ∷ (answers (write_ack 254 256) 2000 ∷ (answers (write_ack 254 256) 3000 ∷ []))

credited-le-issued_example : credited history [] ≤ outstanding [] + issued history
credited-le-issued_example = credited-le-issued history []
