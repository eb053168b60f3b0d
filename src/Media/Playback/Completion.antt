-- ===== src/Media/Playback/Completion.antt =====
-- When a recording counts as played to its end.
use cctv_timeline_viewer_cor.Base.{
  ◌≡◌, ℕ, ◌+◌, ◌≤◌, ◌<◌, inl, inr, Option, none, some, refl, ◌↔◌, ◌⊎◌, true, false, arith, ℕ, some,
  ◌<◌,
}
use cctv_timeline_viewer_cor.Media.Playback.{Ending, reaches, unknown_duration, playback_completed}

-- The three ways to be at the end.
abbrev pub AtEnd : Ending → Type 0
AtEnd e =
    ((d : ℕ) × (e.actual_duration ≡ some d) × (0 < d) × (d ≤ e.current_time + 50))
    ⊎ ((e.buffering ≡ false)
        × (e.warming ≡ false)
        × ((e.expected_duration ≡ none)
            ⊎ (e.expected_duration ≡ some 0)
            ⊎ ((d : ℕ) × (e.expected_duration ≡ some d) × (d ≤ e.current_time + 500))))

-- The tests of the code for these.
abbrev Tested : Ending → Type 0
Tested e =
    (reaches e.current_time e.actual_duration 50 ≡ true)
    ⊎ ((e.buffering ≡ false)
        × (e.warming ≡ false)
        × ((unknown_duration e.expected_duration ≡ true)
            ⊎ (reaches e.current_time e.expected_duration 500 ≡ true)))

reaches_iff :
    (time : ℕ) (duration : Option ℕ) (slack : ℕ)
    → (reaches time duration slack ≡ true)
      ↔ ((d : ℕ) × (duration ≡ some d) × (0 < d) × (d ≤ time + slack))
reaches_iff time none slack = (λ h. absurd (ground (arith, h)), λ h. absurd (ground (arith, h.1)))
reaches_iff time (some d) slack =
    (λ h. (d, refl, ground (arith, h), ground (arith, h)), λ h. ground (arith, h.1, h.2, h.3))

expected_iff :
    (time : ℕ) (duration : Option ℕ)
    → ((unknown_duration duration ≡ true) ⊎ (reaches time duration 500 ≡ true)) ↔ (
        (duration ≡ none)
        ⊎ (duration ≡ some 0)
        ⊎ ((d : ℕ) × (duration ≡ some d) × (d ≤ time + 500)))
expected_iff time none = (λ h. inl refl, λ h. inl refl)
expected_iff time (some d) = (
  λ h. elim h [
    | inl u ↦ inr (inl (ground (arith, u)))
    | inr r ↦ inr (inr (d, refl, ground (arith, r)))
  ],
  λ h. elim h [
    | inl n ↦ absurd (ground (arith, n))
    | inr (inl z) ↦ inl (ground (arith, z))
    | inr (inr (c, e, b)) ↦ ground (arith, e, b)
  ],
)

Tested-iff : (e : Ending) → Tested e ↔ AtEnd e
Tested-iff e =
    let actual = reaches_iff e.current_time e.actual_duration 50 in
    let expected = expected_iff e.current_time e.expected_duration in
    (
      λ h. elim h [ inl a ↦ inl (actual.0 a) | inr (b, w, x) ↦ inr (b, w, expected.0 x) ],
      λ h. elim h [ inl a ↦ inl (actual.1 a) | inr (b, w, x) ↦ inr (b, w, expected.1 x) ],
    )

completed_iff :
    (e : Ending)
    → (playback_completed e ≡ true)
      ↔ ((e.ended ≡ true) × (e.metadata_ready ≡ true) × (e.has_played ≡ true) × Tested e)
unfolding playback_completed
completed_iff e = (λ h. ground arith, λ h. ground arith)

-- `playbackCompleted` holds exactly when the browser reported the end of media that was loaded and
-- had played, and the position is within 0.05 s of a finite media duration above zero, or, outside buffering
-- and warmup, the indexed duration is missing, zero, or ends within 0.5 s.
pub playback_completed_iff :
    (e : Ending)
    → (playback_completed e ≡ true)
      ↔ ((e.ended ≡ true) × (e.metadata_ready ≡ true) × (e.has_played ≡ true) × AtEnd e)
playback_completed_iff e = (
  λ h.
      let (ended, loaded, played, tested) = (completed_iff e).0 h in
      (ended, loaded, played, (Tested-iff e).0 tested),
  λ (ended, loaded, played, end). (completed_iff e).1 (ended, loaded, played, (Tested-iff e).1 end),
)
