-- ===== src/Player/Clock/Tick/Guards.antt =====
-- What the tests of a tick ask of the videos: their buffers, their places, their distance, their ends.
use cctv_timeline_viewer_cor.Base.{
  ltb, leb, ltb-false, if◌then◌else◌, if_cases, ◌∈◌, ℕ, ◌+◌, ◌-◌, ◌≤◌, ◌≡◌, refl, ap, ◌⊎◌, inl, inr,
  Bool, true, false, not, ◌&&◌, ◌||◌, Option, none, some, List, [], ◌∷◌, min, arith,
}
use cctv_timeline_viewer_cor.Player.Video.{
  is_mp4, Video, have_metadata, has_recording, is_active, distance,
}
use cctv_timeline_viewer_cor.Player.World.{World, Ledger, time_number, video_target_time}
use cctv_timeline_viewer_cor.Player.Ready.{video_reached_end, video_has_playback_buffer, misaligned}
use cctv_timeline_viewer_cor.Player.Source.{restart_progressive_video, seek_video}
use cctv_timeline_viewer_cor.Player.Barrier.{realign, align_video, align_each}
use cctv_timeline_viewer_cor.Player.Barrier.Every.{Every}
use cctv_timeline_viewer_cor.Player.Sync.{
  Timed, least_time, greatest_time, synchronize_native_progress,
}
use cctv_timeline_viewer_cor.Player.Clock.{find_completed, wait_states, some_starved}

abbrev pub AllActive : (Video → Type 0) → List Video → Type 0
AllActive P videos = Every (λ v. is_active v ≡ true → P v) videos

abbrev pub HasBuffer : World → Video → Type 0
HasBuffer w v = (video_has_playback_buffer w v).0 ≡ true

-- A video has its buffer, or shows no waiting message during a seek against drift.
abbrev pub Ready : World → Video → Type 0
Ready w v =
    HasBuffer w v
    ⊎ (((video_has_playback_buffer w v).1.buffering ≡ false)
        × ((video_has_playback_buffer w v).1.drift_seek ≡ true))

ready_or_waits :
    (r b d o : Bool)
    → ((b && not r) || (not d && not r) || o) ≡ false
    → ((r ≡ true) ⊎ ((b ≡ false) × (d ≡ true))) × (o ≡ false)
ready_or_waits r b d o h = ground (arith, h)

pub wait_states-Ready :
    (w : World) (videos : List Video)
    → (wait_states w videos).0 ≡ false
    → AllActive (Ready w) videos
unfolding wait_states
wait_states-Ready w [] h = tt
wait_states-Ready w (v ∷ videos) h =
    let r : Bool × Video = video_has_playback_buffer w v in
    let shown : Video = record (r.1) { buffering = r.1.buffering && not r.0 } in
    let others : Bool × List Video = wait_states w videos in
    if_cases (λ (s : Bool × List Video). s.0 ≡ false → AllActive (Ready w) (v ∷ videos))
      (not (is_active v)) {x = (others.0, v ∷ others.1)}
      {y = (shown.buffering || (not shown.drift_seek && not r.0) || others.0, shown ∷ others.1)}
      (λ idle e. (λ a. absurd (ground (arith, idle, a)), wait_states-Ready w videos e))
      (λ busy e.
        let (one, rest) = ready_or_waits r.0 r.1.buffering r.1.drift_seek others.0 e in
        (λ a. one, wait_states-Ready w videos rest))
      h

pub some_starved-HasBuffer :
    (w : World) (videos : List Video)
    → (some_starved w videos).0 ≡ false
    → AllActive (HasBuffer w) videos
unfolding some_starved
some_starved-HasBuffer w [] h = tt
some_starved-HasBuffer w (v ∷ videos) h =
    let r : Bool × Video = video_has_playback_buffer w v in
    let others : Bool × List Video = some_starved w videos in
    let Promise : Bool × List Video → Type 0 =
      λ s. s.0 ≡ false → AllActive (HasBuffer w) (v ∷ videos) in
    if_cases Promise (not (is_active v)) {x = (others.0, v ∷ others.1)}
      {y = if not r.0 then (true, r.1 ∷ videos) else (others.0, r.1 ∷ others.1)}
      (λ idle e. (λ a. absurd (ground (arith, idle, a)), some_starved-HasBuffer w videos e))
      (λ busy.
        if_cases Promise (not r.0) {x = (true, r.1 ∷ videos)} {y = (others.0, r.1 ∷ others.1)}
          (λ starved e. absurd (ground (arith, e)))
          (λ fed e. (λ a. ground (arith, fed), some_starved-HasBuffer w videos e)))
      h

-- A video has nothing to align with, or it has loaded, does not seek, and stands within a tenth of a
-- second of the clock; a stream is let go on in its last half second.
abbrev pub Aligned : World → Video → Type 0
Aligned w v =
    (has_recording v ≡ false)
    ⊎ (w.current_time ≡ none)
    ⊎ ((have_metadata ≤ v.ready_state)
        × (v.seeking ≡ false)
        × ((distance v.current_time (video_target_time w v) ≤ 100)
            ⊎ ((is_mp4 v.transport ≡ true) × (v.duration ≤ video_target_time w v + 500))))

no_target :
    (b : Bool) (o : Option ℕ)
    → (not b || (elim o [ none ↦ true | some t ↦ false ])) ≡ true
    → (b ≡ false) ⊎ (o ≡ none)
no_target b none h = inr refl
no_target b (some t) h = inl (ground (arith, h))

align_video-Aligned :
    (w : World) (l : Ledger) (v : Video) → (align_video w l v).0.0 ≡ true → Aligned w v
unfolding align_video
align_video-Aligned w l v h =
    let Promise : (Bool × Bool) × Ledger × Video → Type 0 = λ r. r.0.0 ≡ true → Aligned w v in
    let again : Bool × Ledger × Video = restart_progressive_video w l v in
    let sought : Video = record ((seek_video w v).1) { buffering = true } in
    let near_end : Bool = leb v.duration (video_target_time w v + 500) && is_mp4 v.transport in
    let streamed : (Bool × Bool) × Ledger × Video =
      if is_mp4 v.transport
      then ((false, again.0), again.1, again.2)
      else ((false, false), l, sought) in
    let aligned : (Bool × Bool) × Ledger × Video = ((true, false), l, v) in
    let late : (Bool × Bool) × Ledger × Video = ((false, false), l, v) in
    let loaded : (Bool × Bool) × Ledger × Video =
      if misaligned w v then realign w l v else aligned in
    let placed : (Bool × Bool) × Ledger × Video =
      if ltb v.ready_state have_metadata || v.seeking then late else loaded in
    let absent : Bool =
      not (has_recording v) || (elim (w.current_time) [ none ↦ true | some t ↦ false ]) in
    if_cases Promise (not w.playing) {x = late} {y = if absent then aligned else placed}
      (λ e t. absurd (ground (arith, t)))
      (λ e.
        if_cases Promise absent {x = aligned} {y = placed}
          (λ none_there t. elim (no_target (has_recording v) w.current_time none_there) [
            | inl a ↦ inl a
            | inr a ↦ inr (inl a)
          ])
          (λ there.
            if_cases Promise (ltb v.ready_state have_metadata || v.seeking) {x = late} {y = loaded}
              (λ e t. absurd (ground (arith, t)))
              (λ calm.
                let ready : have_metadata ≤ v.ready_state = ground (arith, calm) in
                let still : v.seeking ≡ false = ground (arith, calm) in
                if_cases Promise (misaligned w v) {x = realign w l v} {y = aligned}
                  (λ off.
                    if_cases Promise near_end {x = aligned} {y = streamed}
                      (λ ends t.
                        inr (inr (ready, still, inr (ground (arith, ends), ground (arith, ends)))))
                      (λ f.
                        if_cases Promise (is_mp4 v.transport)
                          {x = ((false, again.0), again.1, again.2)}
                          {y = ((false, false), l, sought)} (λ m t. absurd (ground (arith, t)))
                          (λ m t. absurd (ground (arith, t)))))
                  (λ on t. inr (inr (ready, still, inl (ltb-false _ _ on)))))))
      h

both : (a b : Bool) → (a && b) ≡ true → (a ≡ true) × (b ≡ true)
both a b h = ground (arith, h)

pub align_each-Aligned :
    (w : World) (l : Ledger) (videos : List Video)
    → (align_each w l videos).0.0 ≡ true
    → AllActive (Aligned w) videos
unfolding align_each
align_each-Aligned w l [] h = tt
align_each-Aligned w l (v ∷ videos) h =
    let one : (Bool × Bool) × Ledger × Video =
      if is_active v then align_video w l v else ((true, false), l, v) in
    let (first, others) = both one.0.0 (align_each w one.1 videos).0.0 h in
    (
      if_cases
          (λ (r : (Bool × Bool) × Ledger × Video). r.0.0 ≡ true → is_active v ≡ true → Aligned w v)
          (is_active v) {x = align_video w l v} {y = ((true, false), l, v)}
          (λ a t b. align_video-Aligned w l v t) (λ f t b. absurd (ground (arith, f, b))) first,
      align_each-Aligned w one.1 videos others,
    )

-- An active video is at the end of its recording.
abbrev pub Ends : World → List Video → Type 0
Ends w videos =
    (v : Video) × (v ∈ videos) × (is_active v ≡ true) × ((video_reached_end w v).0 ≡ true)

abbrev pub Found : World → List Video → Option Video → Type 0
Found w videos none = Unit
Found w videos (some u) = Ends w videos

Found-cons :
    (w : World) (v : Video) (videos : List Video) (o : Option Video)
    → Found w videos o
    → Found w (v ∷ videos) o
Found-cons w v videos none h = tt
Found-cons w v videos (some u) (x, m, a, e) = (x, inr m, a, e)

pub find_completed-Found :
    (w : World) (videos : List Video) → Found w videos (find_completed w videos).0
unfolding find_completed
find_completed-Found w [] = tt
find_completed-Found w (v ∷ videos) =
    let reached : Bool × Video = video_reached_end w v in
    let others : Option Video × List Video = find_completed w videos in
    let Promise : Option Video × List Video → Type 0 = λ r. Found w (v ∷ videos) r.0 in
    let later = Found-cons w v videos others.0 (find_completed-Found w videos) in
    if_cases Promise (not (is_active v)) {x = (others.0, v ∷ others.1)}
      {y = if reached.0
        then (some reached.1, reached.1 ∷ videos)
        else (others.0, reached.1 ∷ others.1)}
      (λ idle. later)
      (λ busy.
        if_cases Promise reached.0 {x = (some reached.1, reached.1 ∷ videos)}
          {y = (others.0, reached.1 ∷ others.1)} (λ e. (v, inl refl, ground (arith, busy), e))
          (λ e. later))

-- Some leaders wait for the others, or no two times are further apart than the limit.
abbrev pub Near : World → ℕ → List Timed → Type 0
Near w limit timed =
    ((synchronize_native_progress w limit timed).0 ≡ true)
    ⊎ ((a b : Timed) → a ∈ timed → b ∈ timed → a.1 ≤ b.1 + limit)

greatest_time-∈ : (timed : List Timed) (x : Timed) → x ∈ timed → x.1 ≤ greatest_time timed
unfolding greatest_time
greatest_time-∈ [] x m = absurd m
greatest_time-∈ (y ∷ timed) x (inl e) = omega (arith, ap (λ (z : Timed). z.1) e)
greatest_time-∈ (y ∷ timed) x (inr m) = omega (arith, greatest_time-∈ timed x m)

some_least :
    (u : ℕ) (o : Option ℕ)
    → (s : ℕ) × ((elim o [ none ↦ some u | some t ↦ some (min u t) ]) ≡ some s)
some_least u none = (u, refl)
some_least u (some t) = (min u t, refl)

first_of-Below :
    (t u : ℕ) (o : Option ℕ)
    → (u ≤ t) ⊎ ((time_number o ≤ t) × ((s : ℕ) × (o ≡ some s)))
    → time_number (elim o [ none ↦ some u | some s ↦ some (min u s) ]) ≤ t
first_of-Below t u none (inl h) = h
first_of-Below t u none (inr (h, (s, e))) = absurd (ground (arith, e))
first_of-Below t u (some s) h = ground (arith, h)

least_time-∈ :
    (timed : List Timed) (x : Timed)
    → x ∈ timed
    → (time_number (least_time timed) ≤ x.1) × ((s : ℕ) × (least_time timed ≡ some s))
unfolding least_time
least_time-∈ [] x m = absurd m
least_time-∈ (y ∷ timed) x (inl e) = (
  first_of-Below x.1 y.1 (least_time timed) (inl (omega (arith, ap (λ (z : Timed). z.1) e))),
  some_least y.1 (least_time timed),
)
least_time-∈ (y ∷ timed) x (inr m) = (
  first_of-Below x.1 y.1 (least_time timed) (inr (least_time-∈ timed x m)),
  some_least y.1 (least_time timed),
)

pub spread-Near :
    (w : World) (limit : ℕ) (timed : List Timed)
    → ltb limit (greatest_time timed - time_number (least_time timed)) ≡ false
    → Near w limit timed
spread-Near w limit timed h = inr (λ a b m n. omega (
  arith,
  ltb-false limit (greatest_time timed - time_number (least_time timed)) h,
  greatest_time-∈ timed a m,
  (least_time-∈ timed b n).0,
))
