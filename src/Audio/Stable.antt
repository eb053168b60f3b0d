-- ===== src/Audio/Stable.antt =====
-- A second `sync` changes nothing, and every operation leaves at most one camera heard.
use mathlib.Core.Path.{ap₂}
use cctv_timeline_viewer_cor.Base.{
  if◌then◌else◌, ==_iff, Bool-cases, any, ℕ, ◌≡◌, refl, sym, ap, ◌∙◌, inl, inr, Bool, true, false,
  not, Option, none, some, List, arith,
}
use cctv_timeline_viewer_cor.Audio.{
  Playback, Video, Audio, is_selected, still_selected, other_day, day_after, deselects, present,
  may_sound, only_first, sync,
}
use cctv_timeline_viewer_cor.Audio.Single.{
  Ignores, may_sound-Ignores, IsSingle, only_first_twice, any-only_first,
}

is_selected-Ignores : (selected : Option ℕ) → Ignores (is_selected selected)
is_selected-Ignores none v b = refl
is_selected-Ignores (some camera) v b = refl

other_day-after : (today day : Option ℕ) → other_day (day_after today day) today ≡ false
other_day-after none none = refl
other_day-after none (some d) = refl
other_day-after (some t) day = ap not ((==_iff t t).1 refl)

day_after_twice :
    (today day : Option ℕ) → day_after today (day_after today day) ≡ day_after today day
day_after_twice none day = refl
day_after_twice (some t) day = refl

deselects-after :
    (state : Playback) (day : Option ℕ)
    → deselects state day ≡ false
    → deselects state (day_after state.day day) ≡ false
deselects-after state day h = ground (arith, other_day-after state.day day)

present-none : (videos : List Video) → present none videos ≡ none
present-none videos = elim (Bool-cases (any (is_selected none) videos)) [
  | inl some_video ↦ rw some_video refl
  | inr no_video ↦ rw no_video refl
]

none-present : (b : Bool) (videos : List Video) → present (if b then none else none) videos ≡ none
none-present true videos = present-none videos
none-present false videos = present-none videos

present-only_first :
    (selected : Option ℕ) (test : Video → Bool) (videos : List Video)
    → Ignores test
    → present (present selected videos) (only_first test videos) ≡ present selected videos
present-only_first selected test videos ignores =
    elim (Bool-cases (any (is_selected selected) videos)) [
      | inl found ↦
          rw
            (
              found,
              any-only_first test ignores (is_selected selected) (is_selected-Ignores selected)
                  videos,
              found,
            )
            refl
      | inr missing ↦ rw missing (present-none (only_first test videos))
    ]

still_selected_twice :
    (state : Playback) (audio : Audio)
    → still_selected state (sync state audio) ≡ still_selected state audio
unfolding sync still_selected
still_selected_twice state audio = elim (Bool-cases (deselects state audio.day)) [
  | inl gone ↦
      let cleared : still_selected state audio ≡ none =
        ap (λ b. present (if b then none else audio.selected) audio.videos) gone
        ∙ present-none audio.videos in
      ap
        (λ s.
          present (if deselects state (day_after state.day audio.day) then none else s)
            (sync state audio).videos)
        cleared
      ∙ none-present (deselects state (day_after state.day audio.day)) (sync state audio).videos
      ∙ sym cleared
  | inr stays ↦
      let kept : still_selected state audio ≡ present audio.selected audio.videos =
        ap (λ b. present (if b then none else audio.selected) audio.videos) stays in
      ap (λ b. present (if b then none else still_selected state audio) (sync state audio).videos)
        (deselects-after state audio.day stays)
      ∙ ap (λ s. present s (sync state audio).videos) kept
      ∙ present-only_first audio.selected _ audio.videos
          (may_sound-Ignores state (still_selected state audio))
      ∙ sym kept
]

-- A second `sync` in the same state changes nothing.
pub sync_twice :
    (state : Playback) (audio : Audio) → sync state (sync state audio) ≡ sync state audio
unfolding sync
sync_twice state audio =
    let selected : Option ℕ = still_selected state audio in
    let day : Option ℕ = day_after state.day audio.day in
    let videos : List Video = only_first (may_sound state selected) audio.videos in
    let rebuild : Option ℕ → Option ℕ → Audio =
      λ s d. record { selected = s; day = d; videos = only_first (may_sound state s) videos } in
    ap₂ rebuild (still_selected_twice state audio) (day_after_twice state.day audio.day)
    ∙ ap (λ (vs : List Video). record { selected = selected; day = day; videos = vs })
        (only_first_twice (may_sound state selected) (may_sound-Ignores state selected)
          audio.videos)

-- The state that every operation keeps in a playback state: a video that is heard is the only one,
-- and may sound with the camera that is selected.
abbrev pub IsQuiet : Playback → Audio → Type 0
IsQuiet state audio = IsSingle (may_sound state audio.selected) audio.videos
