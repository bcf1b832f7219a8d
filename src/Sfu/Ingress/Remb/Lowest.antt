-- ===== src/Sfu/Ingress/Remb/Lowest.antt =====
-- The estimate that goes to a publisher is the lowest of the fresh ones of its subscribers.
use meeting_system.Prelude.{ℕ, ◌≡◌, ◌≤◌, ◌⊎◌, List, [], ◌∷◌, Option, some, ◌+◌, ltb, if◌then◌else◌}
use meeting_system.Prelude.Assoc.{Text, nat_eq, text_eq, lookup}
use meeting_system.Sfu.Endpoint.{Endpoint}
use meeting_system.Sfu.Ingress.State.{MediaIngress, RembFeedbackSample}

-- Every sample is at most three seconds old and has at least the bit rate.
unfoldable pub AreAbove : ℕ → ℕ → List (Text × RembFeedbackSample) → Type 0
AreAbove bitrate now [] = Unit
AreAbove bitrate now ((k, s) ∷ rest) =
    (now ≤ s.observed_at + 3000000000) × (bitrate ≤ s.bitrate_bps) × AreAbove bitrate now rest

unfoldable pub AreFresh : ℕ → List (Text × RembFeedbackSample) → Type 0
AreFresh now [] = Unit
AreFresh now ((k, s) ∷ rest) = (now ≤ s.observed_at + 3000000000) × AreFresh now rest

-- The lower of the two.
abbrev lower_of : RembFeedbackSample → RembFeedbackSample → RembFeedbackSample
lower_of selected s = if ltb s.bitrate_bps selected.bitrate_bps then s else selected

-- The sample that is chosen is one of them.
unfoldable pub IsOneOf : RembFeedbackSample → List (Text × RembFeedbackSample) → Type 0
IsOneOf chosen [] = ⊥
IsOneOf chosen ((k, s) ∷ rest) = (chosen ≡ s) ⊎ IsOneOf chosen rest

module _ {Dtls Srtp : Type 0} where
  -- What is announced for the source, if anything, with the samples that are kept for it.
  abbrev pub Announces :
      Option (ℕ × ℕ) × MediaIngress Dtls Srtp → ℕ → ℕ → (exp mantissa : ℕ) → Type 0
  Announces answer source_ssrc now exp mantissa =
      (chosen : RembFeedbackSample) × (samples : List (Text × RembFeedbackSample)) × (lookup
          source_ssrc answer.1.remb_feedback_by_source
        ≡ some samples)
      × IsOneOf chosen samples
      × AreAbove chosen.bitrate_bps now samples
      × (chosen.bitrate_exp ≡ exp)
      × (chosen.bitrate_mantissa ≡ mantissa)
