-- ===== src/Player/Source/Failing.antt =====
-- Failure: a recording that failed is not loaded again.
use mathlib.Core.Path.{subst}
use cctv_timeline_viewer_cor.Base.{
  ◌==◌, Option-cases, any, if_cases, option_all, ℕ, ◌≡◌, refl, sym, ◌∙◌, inl, inr, Bool, true,
  false, Option, none, some, ◌∷◌, arith, option_some,
}
use cctv_timeline_viewer_cor.Recording.{Segment}
use cctv_timeline_viewer_cor.Media.Playback.{PlaybackPlan, playback_plan}
use cctv_timeline_viewer_cor.Player.Video.{Video, is_active}
use cctv_timeline_viewer_cor.Player.World.{World, Ledger, anchor}
use cctv_timeline_viewer_cor.Player.Source.{
  release, cancelled_source, cancel_hls_source, failed_video, fail_video, describe, prepare,
  sourced, source_in, update_player_cell,
}

-- A video that shows a failure: it takes no part in playback, and has neither source nor session.
abbrev pub Failed : Video → Type 0
Failed v = (v.failed ≡ true) × (is_active v ≡ false) × (v.has_source ≡ false) × (v.job ≡ none)

no_job : (v : Video) → (cancelled_source v).job ≡ none
no_job v = elim (Option-cases v.job) [ inl e ↦ rw e refl | inr (j, e) ↦ rw e refl ]

no_source : (v : Video) → (cancelled_source v).has_source ≡ false
no_source v = option_all (λ (u : Video). u.has_source ≡ false) v.job refl (λ j. refl)

failed_video-Failed : (v : Video) → Failed (failed_video v)
failed_video-Failed v = (refl, refl, no_source v, no_job v)

abbrev pub is_listed : Ledger → ℕ → Bool
is_listed l id = any (λ r. r == id) l.failed_recordings

released-sessions :
    (job : Option ℕ) (l : Ledger)
    → ((release job l).next_session ≡ l.next_session)
      × ((release job l).failed_recordings ≡ l.failed_recordings)
released-sessions none l = (refl, refl)
released-sessions (some j) l = (refl, refl)

abbrev Unloaded : Ledger → Ledger × Video → Type 0
Unloaded l r = Failed r.1 × (r.0.next_session ≡ l.next_session)

failed_cell : World → Ledger → Video → Segment → Ledger × Video
failed_cell w l v rec = (
  anchor w (record (release v.job l) { failed_recordings = rec.id ∷ l.failed_recordings }),
  failed_video v,
)

source_in-Unloaded :
    (w : World) (l : Ledger) (v : Video) (rec : Segment)
    → is_listed l rec.id ≡ true
    → Unloaded l (source_in w l v (some rec))
unfolding fail_video
source_in-Unloaded w l v rec h =
    let plan : PlaybackPlan = playback_plan w.profile (some w.speed) in
    let described : Video = describe w plan rec v in
    if_cases (Unloaded l) (is_listed l rec.id)
      {x = (
        anchor w (record (release v.job l) { failed_recordings = rec.id ∷ l.failed_recordings }),
        failed_video described,
      )}
      {y = sourced w plan l (prepare w plan described)}
      (λ e. (failed_video-Failed described, (released-sessions v.job l).0))
      (λ e. absurd (ground (arith, h, e)))

update_player_cell-Unloaded :
    (w : World) (l : Ledger) (v : Video) (rec : Segment)
    → is_listed l rec.id ≡ true
    → Unloaded l (update_player_cell w l v (some rec))
unfolding update_player_cell cancel_hls_source
update_player_cell-Unloaded w l v rec h =
    let (failed, sessions) =
      source_in-Unloaded w (release v.job l) (cancelled_source v) rec
        (subst (λ xs. any (λ r. r == rec.id) xs ≡ true) (sym (released-sessions v.job l).1) h) in
    (failed, sessions ∙ (released-sessions v.job l).0)

pub fail_video-listed :
    (w : World) (l : Ledger) (v : Video) (r : ℕ)
    → v.recording ≡ some r
    → (is_listed (fail_video w l v).0 r ≡ true) × Failed (fail_video w l v).1
unfolding fail_video
fail_video-listed w l v r e =
    option_some (λ (res : Ledger × Video). (is_listed res.0 r ≡ true) × Failed res.1) v.recording r
      _ _ e (ground arith, failed_video-Failed v)

-- A video whose recording fails takes no part in playback any more, and has neither source nor
-- session; and a cell that is to show this recording afterwards, at any time, is given none either,
-- and no session is asked for.
pub fail_video_lasts :
    (w : World) (l : Ledger) (v : Video) (r : ℕ)
    → v.recording ≡ some r
    → Failed (fail_video w l v).1
      × ((later : World) (cell : Video) (rec : Segment)
          → rec.id ≡ r
          → let shown = update_player_cell later (fail_video w l v).0 cell (some rec) in
            Failed shown.1 × (shown.0.next_session ≡ (fail_video w l v).0.next_session))
fail_video_lasts w l v r e =
    let (listed, failed) = fail_video-listed w l v r e in
    (
      failed,
      λ later cell rec same.
          update_player_cell-Unloaded later (fail_video w l v).0 cell rec
            (subst (λ id. is_listed (fail_video w l v).0 id ≡ true) (sym same) listed),
    )
