-- ===== src/Base/Branches.antt =====
-- Reasoning over the branches of a test.

use mathlib.Core.Path.{◌≡◌, refl, sym, subst}
use native.Mathlib.Omega.{arith}
use mathlib.Core.Bool.{Bool, true, false}
use mathlib.Core.Option.{Option, none, some, some-injective}
use cctv_timeline_viewer_cor.Base.Tests.{if◌then◌else◌}

-- A property of both results of a test holds of its result.
pub if_all : {A : Type 0} (P : A → Type 0) (b : Bool) {x y : A} → P x → P y → P (if b then x else y)
if_all P true p q = p
if_all P false p q = q

-- The same, with what the test says in each branch.
pub if_cases :
    {A : Type 0} (P : A → Type 0) (b : Bool) {x y : A}
    → (b ≡ true → P x)
    → (b ≡ false → P y)
    → P (if b then x else y)
if_cases P true p q = p refl
if_cases P false p q = q refl

pub option_all :
    {A B : Type 0} (P : B → Type 0) (o : Option A) {x : B} {f : A → B}
    → P x
    → ((a : A) → P (f a))
    → P (elim o [ none ↦ x | some a ↦ f a ])
option_all P none p q = p
option_all P (some a) p q = q a

-- Of an option that is known.
pub option_some :
    {A B : Type 0} (P : B → Type 0) (o : Option A) (a : A) (x : B) (f : A → B)
    → o ≡ some a
    → P (f a)
    → P (elim o [ none ↦ x | some b ↦ f b ])
option_some P none a x f e p = absurd (ground (arith, e))
option_some P (some b) a x f e p = subst (λ c. P (f c)) (sym (some-injective _ _ e)) p
