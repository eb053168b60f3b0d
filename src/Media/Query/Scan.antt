-- ===== src/Media/Query/Scan.antt =====
-- The scan over recordings out of order: it returns a recording that passes its test and has the
-- latest start, or nothing where none passes.
use mathlib.Core.Path.{subst}
use mathlib.Core.Option.{some-injective}
use cctv_timeline_viewer_cor.Base.{
  ℕ, zero, suc, ◌≤◌, ◌≡◌, refl, sym, Bool, true, false, ◌&&◌, List, [], ◌∷◌, Option, none, some,
  arith, get_elem?, Bool-cases, inl, inr, ◌⊎◌,
}
use cctv_timeline_viewer_cor.Recording.{Segment}
use cctv_timeline_viewer_cor.Media.Query.{scan_latest, starts_after}

-- A recording that passes the test and starts no earlier than any other that passes; or none passes.
abbrev pub Latest : (Segment → Bool) → List Segment → Option Segment → Type 0
Latest test segments none = (j : ℕ) (t : Segment) → get_elem? segments j ≡ some t → test t ≡ false
Latest test segments (some s) =
    (i : ℕ) × (get_elem? segments i ≡ some s)
    × (test s ≡ true)
    × ((j : ℕ) (t : Segment)
        → get_elem? segments j ≡ some t
        → test t ≡ true
        → t.start_ts ≤ s.start_ts)

module _ (test : Segment → Bool) where
  abbrev AtLeast : Option Segment → ℕ → Type 0
  AtLeast none n = ⊥
  AtLeast (some s) n = n ≤ s.start_ts

  record Scanned (latest : Option Segment) (segments : List Segment) (r : Option Segment)
      : Type 0 where
    found :
        (r ≡ latest)
        ⊎ ((i : ℕ) × (s : Segment) × (r ≡ some s)
            × (get_elem? segments i ≡ some s)
            × (test s ≡ true))
    keeps : (n : ℕ) → AtLeast latest n → AtLeast r n
    beats :
        (j : ℕ) (t : Segment) → get_elem? segments j ≡ some t → test t ≡ true → AtLeast r t.start_ts

  AtLeast-after :
      (s : Segment) (latest : Option Segment) (n : ℕ)
      → starts_after s latest ≡ true
      → AtLeast latest n
      → n ≤ s.start_ts
  AtLeast-after s none n h a = absurd a
  AtLeast-after s (some l) n h a = ground arith

  AtLeast-not_after :
      (s : Segment) (latest : Option Segment)
      → starts_after s latest ≡ false
      → AtLeast latest s.start_ts
  AtLeast-not_after s none h = absurd (ground arith)
  AtLeast-not_after s (some l) h = ground arith

  module _ (s : Segment) (rest : List Segment) (latest r : Option Segment) where
    -- what a later recording must reach, from what the first one and the others must
    beats_all :
        (test s ≡ true → AtLeast r s.start_ts)
        → ((j : ℕ) (t : Segment) → get_elem? rest j ≡ some t → test t ≡ true → AtLeast r t.start_ts)
        → (j : ℕ) (t : Segment) → get_elem? (s ∷ rest) j ≡ some t
        → test t ≡ true
        → AtLeast r t.start_ts
    beats_all first others zero t e p =
        let same : s ≡ t = some-injective _ _ e in
        subst (λ u. test u ≡ true → AtLeast r u.start_ts) same first p
    beats_all first others (suc j) t e p = others j t e p

    Scanned-better :
        (test s && starts_after s latest) ≡ true
        → Scanned (some s) rest r
        → Scanned latest (s ∷ rest) r
    Scanned-better h c = record {
      found = elim c.found [
        | inl e ↦ inr (0, s, e, refl, ground arith)
        | inr (i, t, e, f, p) ↦ inr (suc i, t, e, f, p)
      ];
      keeps = λ n a. c.keeps n (AtLeast-after s latest n (ground arith) a);
      beats = beats_all (λ p. c.keeps s.start_ts (omega arith)) c.beats;
    }

    Scanned-worse :
        (test s && starts_after s latest) ≡ false
        → Scanned latest rest r
        → Scanned latest (s ∷ rest) r
    Scanned-worse h c = record {
      found = elim c.found [ inl e ↦ inl e | inr (i, t, e, f, p) ↦ inr (suc i, t, e, f, p) ];
      keeps = c.keeps;
      beats =
          beats_all (λ p. c.keeps s.start_ts (AtLeast-not_after s latest (ground arith))) c.beats;
    }

  scan-Scanned :
      (latest : Option Segment) (segments : List Segment)
      → Scanned latest segments (scan_latest test latest segments)
  unfolding scan_latest
  scan-Scanned latest [] = record {
    found = inl refl;
    keeps = λ n h. h;
    beats = λ j t e p. absurd (ground arith);
  }
  scan-Scanned latest (s ∷ rest) = elim (Bool-cases (test s && starts_after s latest)) [
    | inl better ↦ rw better (Scanned-better s rest latest _ better (scan-Scanned (some s) rest))
    | inr worse ↦ rw worse (Scanned-worse s rest latest _ worse (scan-Scanned latest rest))
  ]

  Scanned-Latest :
      (segments : List Segment) (r : Option Segment)
      → Scanned none segments r
      → Latest test segments r
  Scanned-Latest segments none c =
      λ j t e. elim (Bool-cases (test t)) [ inl p ↦ absurd (c.beats j t e p) | inr f ↦ f ]
  Scanned-Latest segments (some s) c = elim c.found [
    | inl e ↦ absurd (ground arith)
    | inr (i, t, e, f, p) ↦
        let same : t ≡ s = some-injective _ _ (sym e) in
        subst
          (λ u.
            (i : ℕ) × (get_elem? segments i ≡ some u)
            × (test u ≡ true)
            × ((j : ℕ) (v : Segment)
                → get_elem? segments j ≡ some v
                → test v ≡ true
                → v.start_ts ≤ u.start_ts))
          same
          (i, f, p, λ j v g q. subst (λ u. v.start_ts ≤ u.start_ts) (sym same) (c.beats j v g q))
  ]

  pub scan_latest-Latest :
      (segments : List Segment) → Latest test segments (scan_latest test none segments)
  scan_latest-Latest segments = Scanned-Latest segments _ (scan-Scanned none segments)
