-- ===== src/Player/Barrier/Every.antt =====
-- Reasoning over the branches of a test and over the videos of the page.
use mathlib.Core.Path.{subst}
use cctv_timeline_viewer_cor.Base.{◌∈◌, sym, ap, inl, inr, List, [], ◌∷◌, map}
use cctv_timeline_viewer_cor.Player.Video.{Video}
use cctv_timeline_viewer_cor.Player.World.{World, Ledger}
use cctv_timeline_viewer_cor.Player.Barrier.{Operation, each}

abbrev pub Every : {A : Type 0} → (A → Type 0) → List A → Type 0
Every P [] = Unit
Every P (x ∷ xs) = P x × Every P xs

-- What an operation gives every video holds of all videos after it was done to each.
pub each-Every :
    (P : Video → Type 0) (op : Operation) (w : World)
    → ((l : Ledger) (v : Video) → P (op w l v).1)
    → (l : Ledger) (videos : List Video) → Every P (each op w l videos).1
unfolding each
each-Every P op w h l [] = tt
each-Every P op w h l (v ∷ videos) = (h l v, each-Every P op w h (op w l v).0 videos)

pub Every-∈ : {A : Type 0} (P : A → Type 0) (xs : List A) (x : A) → Every P xs → x ∈ xs → P x
Every-∈ P [] x h m = absurd m
Every-∈ P (y ∷ xs) x h (inl e) = subst P (sym e) h.0
Every-∈ P (y ∷ xs) x h (inr m) = Every-∈ P xs x h.1 m

pub Every-map :
    {A B : Type 0} (P : B → Type 0) (f : A → B)
    → ((a : A) → P (f a))
    → (xs : List A) → Every P (map {A = A} f xs)
Every-map P f h [] = tt
Every-map P f h (x ∷ xs) = (h x, Every-map P f h xs)

pub ∈-map : {A B : Type 0} (f : A → B) (xs : List A) (x : A) → x ∈ xs → f x ∈ map {A = A} f xs
∈-map f [] x m = absurd m
∈-map f (y ∷ xs) x (inl e) = inl (ap f e)
∈-map f (y ∷ xs) x (inr m) = inr (∈-map f xs x m)
