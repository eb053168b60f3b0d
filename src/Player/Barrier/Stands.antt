-- ===== src/Player/Barrier/Stands.antt =====
-- What the operations of the barrier leave as it was: the clock, whether playback runs, and the time.
use cctv_timeline_viewer_cor.Base.{if_all, ℕ, ◌≡◌, refl, ◌∙◌, Option, none}
use cctv_timeline_viewer_cor.Player.Barrier.{
  Player, finish_recovery, enter_buffering_barrier, align_videos,
}

-- What of the page the videos cannot change.
pub data SamePage (p q : Player) : Type 0 where
  same :
      q.world.current_time ≡ p.world.current_time
      → q.world.playing ≡ p.world.playing
      → q.world.now ≡ p.world.now
      → SamePage p q

-- Of players whose worlds agree in these.
pub same_page :
    (p q : Player)
    → q.world.current_time ≡ p.world.current_time
    → q.world.playing ≡ p.world.playing
    → q.world.now ≡ p.world.now
    → SamePage p q
same_page p q a b c = same a b c

pub SamePage-trans : (p q r : Player) → SamePage p q → SamePage q r → SamePage p r
SamePage-trans p q r (same a b c) (same d e f) = same (d ∙ a) (e ∙ b) (f ∙ c)

pub time_of_SamePage : (p q : Player) → SamePage p q → q.world.current_time ≡ p.world.current_time
time_of_SamePage p q (same a b c) = a

pub enter_buffering_barrier-SamePage :
    (source : Option ℕ) (p : Player) → SamePage p (enter_buffering_barrier source p)
unfolding enter_buffering_barrier
enter_buffering_barrier-SamePage source p =
    if_all (SamePage p) _ (same_page p _ refl refl refl) (same_page p _ refl refl refl)

-- After another operation, too.
pub entered-SamePage :
    (p : Player) (source : Option ℕ) (q : Player)
    → SamePage p q
    → SamePage p (enter_buffering_barrier source q)
entered-SamePage p source q h = SamePage-trans p q _ h (enter_buffering_barrier-SamePage source q)

pub finish_recovery-SamePage : (p : Player) → SamePage p (finish_recovery p)
unfolding finish_recovery
finish_recovery-SamePage p = same_page p _ refl refl refl

pub align_videos-SamePage : (p : Player) → SamePage p (align_videos p).1
unfolding align_videos
align_videos-SamePage p =
    if_all (SamePage p) _ (entered-SamePage p none _ (same_page p _ refl refl refl))
      (same_page p _ refl refl refl)
