-- ===== src/Player/Clock/Tick/Holds.antt =====
-- The clock moves only where the videos are ready, aligned and near each other, or one is at its end.
use cctv_timeline_viewer_cor.Base.{
  ltb, if_all, if_cases, if◌then◌else◌, ℕ, ◌-◌, ◌⊎◌, inl, inr, map, ◌≡◌, refl, Bool, true, false,
  not, ◌||◌, Option, none, some, List, [], ◌∷◌, arith,
}
use cctv_timeline_viewer_cor.Player.Video.{Video}
use cctv_timeline_viewer_cor.Player.Barrier.{
  Player, finish_recovery, enter_buffering_barrier, align_videos,
}
use cctv_timeline_viewer_cor.Player.Barrier.Stands.{
  SamePage, same_page, time_of_SamePage, SamePage-trans, entered-SamePage, align_videos-SamePage,
}
use cctv_timeline_viewer_cor.Player.Sync.{Timed}
use cctv_timeline_viewer_cor.Player.World.{time_number}
use cctv_timeline_viewer_cor.Player.Ready.{playback_spread_limit}
use cctv_timeline_viewer_cor.Player.Sync.{least_time, greatest_time, synchronize_native_progress}
use cctv_timeline_viewer_cor.Player.Clock.Tick.Guards.{
  AllActive, HasBuffer, Ready, Aligned, Ends, Found, Near, wait_states-Ready,
  some_starved-HasBuffer, align_each-Aligned, find_completed-Found, spread-Near,
}
use cctv_timeline_viewer_cor.Player.Clock.{
  check_each, active_cameras, expire, overdue, find_completed, wait_states, some_starved, anchored,
  leave_barrier,
}
use cctv_timeline_viewer_cor.Player.Clock.Tick.{
  Phase, timed_videos, follow_videos, follow_wall, move_clock, finish_barrier, wait_or_go, warmed,
  end_or_wait, next_frame, clock_tick, stopped, buffering, alignment, drift,
}
use cctv_timeline_viewer_cor.Player.Clock.Stands.{check_each-SamePage, due-SamePage}

warmed-SamePage : (p : Player) → SamePage p (warmed p)
warmed-SamePage p =
    if_all (SamePage p) p.world.was_buffering (same_page p _ refl refl refl)
      (same_page p _ refl refl refl)

-- The player of a tick after its checks and the deadline of the recovery.
abbrev pub due_player : Player → Player
due_player p =
    let checked : Player = check_each (active_cameras p.videos) p in
    if overdue checked.world then expire checked else checked

-- The same after the search for videos at their ends, and warmed behind a barrier.
abbrev pub waiting_player : Player → Player
waiting_player p = warmed (record (due_player p) {
  videos = (find_completed (due_player p).world (due_player p).videos).1;
})

-- With the messages of the videos that are ready cleared, and then aligned, and let go.
abbrev pub shown_player : Player → Player
shown_player q = record q { videos = (wait_states q.world q.videos).1 }

abbrev pub aligned_player : Player → Player
aligned_player q = (align_videos (shown_player q)).1

abbrev pub let_go_player : Player → Player
let_go_player q =
    let aligned : Player = aligned_player q in
    leave_barrier (record aligned { videos = (some_starved aligned.world aligned.videos).1 })

-- The active videos of a player that have a time are near each other.
abbrev pub TimesNear : Player → Type 0
TimesNear p =
    let timed : List Timed = timed_videos p.videos in
    Near p.world (playback_spread_limit p.world (map {A = Timed} (λ x. x.0) timed)) timed

-- What has to hold before the clock goes on: every active video is ready; behind a barrier every one
-- is aligned and then has its buffer; and the times of the videos are near.
abbrev pub Waited : Player → Type 0
Waited q =
    AllActive (Ready q.world) q.videos
    × (((q.world.was_buffering ≡ false) × TimesNear (shown_player q))
        ⊎ (AllActive (Aligned q.world) (shown_player q).videos
            × AllActive (HasBuffer (aligned_player q).world) (aligned_player q).videos
            × TimesNear (let_go_player q)))

-- A result whose clock is that of a player, unless something holds.
abbrev Moves : Player → Type 0 → Phase × Player → Type 0
Moves p Q result = (result.1.world.current_time ≡ p.world.current_time) ⊎ Q

stays : (p q : Player) (Q : Type 0) (phase : Phase) → SamePage p q → Moves p Q (phase, q)
stays p q Q phase h = inl (time_of_SamePage p q h)

module _ (p : Player) (Q : Type 0) where
  follow_videos-Moves :
      (q : Player) (timed : List Timed)
      → SamePage p q
      → (Near q.world (playback_spread_limit q.world (map {A = Timed} (λ x. x.0) timed)) timed → Q)
      → Moves p Q (follow_videos q timed)
  follow_videos-Moves q timed h k =
      let limit : ℕ = playback_spread_limit q.world (map {A = Timed} (λ x. x.0) timed) in
      if_cases (Moves p Q) (synchronize_native_progress q.world limit timed).0
        (λ e. inr (k (inl e)))
        (λ e.
          if_cases (Moves p Q) (ltb limit (greatest_time timed - time_number (least_time timed)))
            (λ far.
              stays p _ Q drift
                (entered-SamePage p _ _ (SamePage-trans p q _ h (same_page q _ refl refl refl))))
            (λ close. inr (k (spread-Near q.world limit timed close))))

  timed-Moves :
      (q : Player) (timed : List Timed)
      → SamePage p q
      → (Near q.world (playback_spread_limit q.world (map {A = Timed} (λ x. x.0) timed)) timed → Q)
      → Moves p Q (elim timed [ [] ↦ follow_wall q | x ∷ others ↦ follow_videos q (x ∷ others) ])
  timed-Moves q [] h k = inr (k (inr (λ a b m n. absurd m)))
  timed-Moves q (x ∷ others) h k = follow_videos-Moves q (x ∷ others) h k

  move_clock-Moves : (q : Player) → SamePage p q → (TimesNear q → Q) → Moves p Q (move_clock q)
  unfolding move_clock
  move_clock-Moves q h k = timed-Moves q (timed_videos q.videos) h k

let_go-SamePage : (p q : Player) → SamePage p q → SamePage p (leave_barrier q)
unfolding leave_barrier finish_recovery
let_go-SamePage p q h = SamePage-trans p q _ h (same_page q _ refl refl refl)

align_videos-Aligned :
    (q : Player) → (align_videos q).0 ≡ true → AllActive (Aligned q.world) q.videos
unfolding align_videos
align_videos-Aligned q h = align_each-Aligned q.world q.ledger q.videos h

finish_barrier-Moves :
    (p q : Player)
    → SamePage p (shown_player q)
    → AllActive (Ready q.world) q.videos
    → Moves p (Waited q) (finish_barrier (shown_player q))
unfolding finish_barrier
finish_barrier-Moves p q h ready =
    let after : Player = shown_player q in
    let aligned : Player = aligned_player q in
    let starved : Bool × List Video = some_starved aligned.world aligned.videos in
    let kept : SamePage p aligned =
      SamePage-trans p after aligned h (align_videos-SamePage after) in
    let checked : Player = record aligned { videos = starved.1 } in
    let same_checked : SamePage p checked =
      SamePage-trans p aligned checked kept (same_page aligned checked refl refl refl) in
    if_cases (Moves p (Waited q)) (not (align_videos after).0) {x = (alignment, aligned)}
      {y = if starved.0 then (alignment, checked) else move_clock (leave_barrier checked)}
      (λ e. stays p aligned (Waited q) alignment kept)
      (λ e.
        if_cases (Moves p (Waited q)) starved.0 {x = (alignment, checked)}
          {y = move_clock (leave_barrier checked)}
          (λ f. stays p checked (Waited q) alignment same_checked)
          (λ f.
            move_clock-Moves p (Waited q) (leave_barrier checked)
              (let_go-SamePage p checked same_checked)
              (λ near. (
                ready,
                inr (
                  align_videos-Aligned after (ground (arith, e)),
                  some_starved-HasBuffer aligned.world aligned.videos f,
                  near,
                ),
              ))))

wait_or_go-Moves : (p q : Player) → SamePage p q → Moves p (Waited q) (wait_or_go q)
wait_or_go-Moves p q h =
    let after : Player = shown_player q in
    let kept : SamePage p after = SamePage-trans p q after h (same_page q _ refl refl refl) in
    let one : Player =
      if q.world.was_buffering then after else enter_buffering_barrier none after in
    let waits : SamePage p one =
      if_all (SamePage p) q.world.was_buffering kept (entered-SamePage p none after kept) in
    let Promise : Phase × Player → Type 0 = Moves p (Waited q) in
    if_cases Promise (wait_states q.world q.videos).0 {x = (buffering, anchored one)}
      {y = if q.world.was_buffering then finish_barrier after else move_clock after}
      (λ e.
        stays p (anchored one) (Waited q) buffering
          (SamePage-trans p one _ waits (same_page one _ refl refl refl)))
      (λ e.
        let ready : AllActive (Ready q.world) q.videos = wait_states-Ready q.world q.videos e in
        if_cases Promise q.world.was_buffering {x = finish_barrier after} {y = move_clock after}
          (λ barred. finish_barrier-Moves p q kept ready)
          (λ free. move_clock-Moves p (Waited q) after kept (λ near. (ready, inl (free, near)))))

end_or_wait-Moves :
    (p q : Player) (found : Option Video × List Video)
    → SamePage p q
    → Found q.world q.videos found.0
    → Moves p
        (Ends q.world q.videos ⊎ Waited (warmed (record q { videos = found.1 })))
        (end_or_wait q found)
end_or_wait-Moves p q (none, videos) h ends =
    let started : Player = record q { videos = videos } in
    elim (wait_or_go-Moves p (warmed started) (
      SamePage-trans p started _ (SamePage-trans p q started h (same_page q _ refl refl refl))
        (warmed-SamePage started))) [ inl e ↦ inl e | inr w ↦ inr (inr w) ]
end_or_wait-Moves p q (some v, videos) h ends = inr (inl ends)

-- What lets a tick move the clock.
abbrev pub MayMove : Player → Type 0
MayMove p =
    (p.world.playing ≡ true)
    × (p.world.on_timeline_tab ≡ true)
    × (Ends (due_player p).world (due_player p).videos ⊎ Waited (waiting_player p))

-- A tick leaves the clock where it was, unless playback runs on the timeline tab and, after the checks
-- of the tick, either an active video is at the end of its recording, or the wait is over. That is:
-- every active video has its buffer, or shows no message during a seek against drift; if the barrier
-- is up, every active video is within 0.1 s of the position of the clock, or is a stream in its last
-- half second, or has nothing to align with, and then has its buffer; and leaders wait, or the times
-- of the videos are within the limit of each other.
pub clock_tick-stands :
    (p : Player) → ((clock_tick p).1.world.current_time ≡ p.world.current_time) ⊎ MayMove p
unfolding clock_tick
clock_tick-stands p =
    let checked : Player = check_each (active_cameras p.videos) p in
    let due : Player = due_player p in
    let kept : SamePage p due =
      SamePage-trans p checked due (check_each-SamePage (active_cameras p.videos) p)
        (due-SamePage checked) in
    let found : Option Video × List Video = find_completed due.world due.videos in
    if_cases (Moves p (MayMove p)) (not p.world.playing || not p.world.on_timeline_tab)
      {x = (stopped, record p { ticking = false })} {y = next_frame (end_or_wait due found)}
      (λ e. inl refl)
      (λ e. elim (end_or_wait-Moves p due found kept (find_completed-Found due.world due.videos)) [
        | inl still ↦ inl still
        | inr may ↦ inr (ground (arith, e), ground (arith, e), may)
      ])
