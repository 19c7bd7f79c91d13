-- ===== src/Capacity/Sustained.antt =====
-- What must have been observed before src/shared/capacity-profile.ts reports the interactive profile as
-- ready.
use dex_reach.Common.{
  ℕ, ◌+◌, ◌-◌, ◌≤◌, ◌≡◌, refl, sym, ◌∙◌, Bool, true, false, ◌&&◌, Option, none, some, List, [], ◌∷◌,
  leb, leb_le, inl, inr, Bool-cases, Option-cases, arith,
}
use mathlib.Core.Path.{subst}
use dex_reach.Capacity.{CapacityProfile, is_interactive}
use dex_reach.Capacity.Health.{
  HealthRecord, HealthSample, ProfileFiles, sustained_health_ms, max_sample_gap_ms,
  load_capacity_profile, set_capacity_profile, is_healthy, previous_health, since_after,
  next_health, healthy_for, record_capacity_health,
}

-- What happened to the files, the latest first.
pub data ProfileEvent : Type 0 where
  chose : ℕ → CapacityProfile → ProfileEvent
  observed : ℕ → HealthSample → ProfileEvent

abbrev pub files_after : List ProfileEvent → ProfileFiles
files_after [] = record { profile = none; health = none }
files_after (chose now p ∷ es) = set_capacity_profile now p (files_after es)
files_after (observed now s ∷ es) = (record_capacity_health now s (files_after es)).1

-- An unbroken run of healthy samples that ends the history: it began at the first time and was last
-- observed at the second, no two samples lay further apart than the gap, and no profile was chosen in
-- between.
pub data IsHealthySince : ℕ → ℕ → List ProfileEvent → Type 0 where
  begins :
      (t : ℕ) (s : HealthSample) (es : List ProfileEvent)
      → is_healthy s ≡ true
      → IsHealthySince t t (observed t s ∷ es)
  goes_on :
      (since last t : ℕ) (s : HealthSample) (es : List ProfileEvent)
      → IsHealthySince since last es
      → is_healthy s ≡ true
      → t ≤ last + max_sample_gap_ms
      → IsHealthySince since t (observed t s ∷ es)

health_of : List ProfileEvent → HealthRecord
health_of es = previous_health (files_after es)

none_not_some : {A B : Type 0} {a : A} → ◌≡◌ {A = Option A} none (some a) → B
none_not_some h = ground arith

same_some : {A : Type 0} {a b : A} → ◌≡◌ {A = Option A} (some a) (some b) → a ≡ b
same_some h = ground arith

since-kept :
    (now s : ℕ) (h : HealthRecord)
    → h.healthy_since ≡ some s
    → leb now (h.last_observed_at + max_sample_gap_ms) ≡ true
    → since_after now h ≡ s
unfolding since_after
since-kept now s h e f = rw (e, f)

since-late :
    (now s : ℕ) (h : HealthRecord)
    → h.healthy_since ≡ some s
    → leb now (h.last_observed_at + max_sample_gap_ms) ≡ false
    → since_after now h ≡ now
unfolding since_after
since-late now s h e f = rw (e, f)

since-none : (now : ℕ) (h : HealthRecord) → h.healthy_since ≡ none → since_after now h ≡ now
unfolding since_after
since-none now h e = rw e

next_health-healthy :
    (now : ℕ) (s : HealthSample) (h : HealthRecord)
    → is_healthy s ≡ true
    → (next_health now s h).healthy_since ≡ some (since_after now h)
unfolding next_health
next_health-healthy now s h e = rw e

next_health-ill :
    (now : ℕ) (s : HealthSample) (h : HealthRecord)
    → is_healthy s ≡ false
    → (next_health now s h).healthy_since ≡ none
unfolding next_health
next_health-ill now s h e = rw e

health_of-observed :
    (now : ℕ) (s : HealthSample) (es : List ProfileEvent)
    → health_of (observed now s ∷ es) ≡ next_health now s (health_of es)
unfolding record_capacity_health previous_health health_of
health_of-observed now s es = refl

observed-IsHealthySince :
    (now : ℕ) (s : HealthSample) (es : List ProfileEvent) {since : ℕ}
    → ((t : ℕ)
        → (health_of es).healthy_since ≡ some t
        → IsHealthySince t (health_of es).last_observed_at es)
    → (next_health now s (health_of es)).healthy_since ≡ some since
    → IsHealthySince since now (observed now s ∷ es)
observed-IsHealthySince now s es {since} before h = elim (Bool-cases (is_healthy s)) [
  | inr e ↦ none_not_some (sym (next_health-ill now s (health_of es) e) ∙ h)
  | inl e ↦
      let at = same_some (sym (next_health-healthy now s (health_of es) e) ∙ h) in
      let fresh = begins now s es e in
      elim (Option-cases (health_of es).healthy_since) [
        | inl f ↦
            subst (λ t. IsHealthySince t now (observed now s ∷ es))
              (sym (since-none now (health_of es) f) ∙ at) fresh
        | inr (t, f) ↦
            elim (Bool-cases (leb now ((health_of es).last_observed_at + max_sample_gap_ms))) [
              | inl g ↦
                  subst (λ z. IsHealthySince z now (observed now s ∷ es))
                    (sym (since-kept now t (health_of es) f g) ∙ at)
                    (goes_on t (health_of es).last_observed_at now s es (before t f) e
                      (leb_le _ _ g))
              | inr g ↦
                  subst (λ z. IsHealthySince z now (observed now s ∷ es))
                    (sym (since-late now t (health_of es) f g) ∙ at) fresh
            ]
      ]
]

-- The healthy time that the file records was observed.
recorded-IsHealthySince :
    (es : List ProfileEvent) {since : ℕ}
    → (health_of es).healthy_since ≡ some since
    → IsHealthySince since (health_of es).last_observed_at es
unfolding health_of previous_health set_capacity_profile next_health record_capacity_health
recorded-IsHealthySince [] h = none_not_some h
recorded-IsHealthySince (chose now p ∷ es) h = none_not_some h
recorded-IsHealthySince (observed now s ∷ es) h =
    observed-IsHealthySince now s es (λ t f. recorded-IsHealthySince es f) h

both : (a b : Bool) → (a && b) ≡ true → (a ≡ true) × (b ≡ true)
both a b h = ground arith

run_is_long :
    (ms since now : ℕ)
    → ms ≡ now - since
    → leb sustained_health_ms ms ≡ true
    → since + sustained_health_ms ≤ now
run_is_long ms since now e h = ground arith

healthy_for-none : (now : ℕ) (h : HealthRecord) → h.healthy_since ≡ none → healthy_for now h ≡ 0
unfolding healthy_for
healthy_for-none now h e = rw e

healthy_for-some :
    (now since : ℕ) (h : HealthRecord)
    → h.healthy_since ≡ some since
    → healthy_for now h ≡ now - since
unfolding healthy_for
healthy_for-some now since h e = rw e

not_long : {B : Type 0} (ms : ℕ) → ms ≡ 0 → leb sustained_health_ms ms ≡ true → B
not_long ms e h = ground arith

-- `recordCapacityHealth` reports the interactive profile as ready only if that profile is chosen and an
-- unbroken run of healthy samples, this one included, began at least 60 seconds ago, no two of them more
-- than 90 seconds apart and no profile chosen since.
pub ready-IsHealthySince :
    (now : ℕ) (s : HealthSample) (es : List ProfileEvent)
    → (record_capacity_health now s (files_after es)).0.interactive_ready ≡ true
    → (is_interactive (load_capacity_profile (files_after es)) ≡ true)
      × ((since : ℕ) × (since + sustained_health_ms ≤ now)
          × IsHealthySince since now (observed now s ∷ es))
unfolding record_capacity_health health_of
ready-IsHealthySince now s es h =
    let next = next_health now s (health_of es) in
    let (chosen, long) = both _ _ h in
    elim (Option-cases next.healthy_since) [
      | inl e ↦ not_long _ (healthy_for-none now next e) long
      | inr (since, e) ↦ (
        chosen,
        (
          since,
          run_is_long _ since now (healthy_for-some now since next e) long,
          observed-IsHealthySince now s es (λ t f. recorded-IsHealthySince es f) e,
        ),
      )
    ]
