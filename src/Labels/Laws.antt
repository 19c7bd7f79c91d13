-- ===== src/Labels/Laws.antt =====
-- Laws of the label validation of src/shared/work-coordinator.ts.
use dex_reach.Common.{
  ◌≤◌, ◌<◌, ◌≡◌, refl, ap, ◌∙◌, Bool, true, false, some, [], ◌∷◌, length, all, is_empty, Bool-cases,
  if◌then◌else◌, arith, inl, inr,
}
use dex_reach.Common.Outcome.{ok}
use dex_reach.Labels.{
  Text, is_space, trim_start, trim_end, trim, is_safe_label, looks_like_secret_material,
  check_label, sanitize_label,
}

abbrev starts_clean : Text → Bool
starts_clean [] = true
starts_clean (c ∷ cs) = if is_space c then false else true

trim_start-clean : (t : Text) → starts_clean (trim_start t) ≡ true
unfolding trim_start
trim_start-clean [] = refl
trim_start-clean (c ∷ cs) = ground (arith, trim_start-clean cs)

trim_start-of_clean : (t : Text) → starts_clean t ≡ true → trim_start t ≡ t
unfolding trim_start
trim_start-of_clean [] h = refl
trim_start-of_clean (c ∷ cs) h = ground arith

trim_end-clean : (t : Text) → starts_clean t ≡ true → starts_clean (trim_end t) ≡ true
unfolding trim_end
trim_end-clean [] h = refl
trim_end-clean (c ∷ cs) h = ground arith

trim_end-trim_end : (t : Text) → trim_end (trim_end t) ≡ trim_end t
unfolding trim_end
trim_end-trim_end [] = refl
trim_end-trim_end (c ∷ cs) = ground (arith, trim_end-trim_end cs)

-- Trimming a trimmed text changes nothing.
pub trim-trim : (t : Text) → trim (trim t) ≡ trim t
unfolding trim
trim-trim t =
    ap trim_end (trim_start-of_clean _ (trim_end-clean _ (trim_start-clean t)))
    ∙ trim_end-trim_end (trim_start t)

check_label-ok :
    (t u : Text)
    → check_label t ≡ ok (some u)
    → (u ≡ t)
      × (length t ≤ 64)
      × (all is_safe_label t ≡ true)
      × (looks_like_secret_material t ≡ false)
unfolding check_label
check_label-ok t u h = ground arith

-- A label that is accepted is the trimmed input, of one to 64 safe characters, and holds no token that
-- looks like credential material; accepted once, it is accepted again unchanged.
pub sanitize_label-accepts :
    (value t : Text)
    → sanitize_label (some value) ≡ ok (some t)
    → (t ≡ trim value)
      × (0 < length t)
      × (length t ≤ 64)
      × (all is_safe_label t ≡ true)
      × (looks_like_secret_material t ≡ false)
      × (sanitize_label (some t) ≡ ok (some t))
unfolding sanitize_label
sanitize_label-accepts value t h = elim (Bool-cases (is_empty (trim value))) [
  | inl e ↦ ground arith
  | inr e ↦
      let checked : check_label (trim value) ≡ ok (some t) = ground arith in
      let (same, short, safe, plain) = check_label-ok (trim value) t checked in
      (
        same,
        ground arith,
        ground arith,
        ground arith,
        ground arith,
        ground (arith, ap trim same, trim-trim value),
      )
]
