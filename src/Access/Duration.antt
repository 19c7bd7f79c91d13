-- ===== src/Access/Duration.antt =====
-- `parseDuration` and `classifyClient` of src/shared/access.ts. A client's name is of ASCII letters where its
-- case counts.

use native.Mathlib.Nat.{suc-mul}
use dex_reach.Common.{
  ℕ, zero, suc, ◌+◌, ◌*◌, ◌-◌, ◌≤◌, ◌≡◌, inl, inr, Bool, false, not, ◌||◌, Option, none, some, [],
  ◌∷◌, leb, eqb, Bool-cases, arith, if◌then◌else◌,
}
use dex_reach.Common.Outcome.{Result, ok, err, and_then, and_then-ok, err_not_ok}
use dex_reach.Labels.{Text, codes, is_digit, trim, trim_start}
use dex_reach.Clients.{ClientKind, chatgpt, claude, smoke, other}
use dex_reach.Catalog.Cost.{lower, lower_all}
use dex_reach.Catalog.Required.{starts_with}

pub data DurationError : Type 0 where
  invalid_duration duration_out_of_range : DurationError

-- `(\d+)`: the number and the rest.
unfoldable pub read_digits : Text → ℕ → ℕ × Text
read_digits [] n = (n, [])
read_digits (c ∷ cs) n =
    let next = read_digits cs (n * 10 + (c - b'0')) in if is_digit c then next else (n, c ∷ cs)

abbrev pub starts_digit : Text → Bool
starts_digit [] = false
starts_digit (c ∷ cs) = is_digit c

-- The milliseconds of a unit.
unfoldable pub unit_factor : ℕ → Result DurationError ℕ
unit_factor c =
    if eqb c b's'
    then ok 1000
    else (if eqb c b'm'
        then ok 60000
        else (if eqb c b'h'
            then ok 3600000
            else (if eqb c b'd' then ok 86400000 else err invalid_duration)))

abbrev pub unit_of : Text → Result DurationError ℕ
unit_of [] = err invalid_duration
unit_of (c ∷ []) = unit_factor (lower c)
unit_of (c ∷ d ∷ cs) = err invalid_duration

-- `\s*([smhd])$`, without case
unfoldable pub read_unit : Text → Result DurationError ℕ
read_unit t = unit_of (trim_start t)

unfoldable pub in_bounds : ℕ → Result DurationError ℕ
in_bounds ms = if eqb ms 0 || not (leb ms (7 * 86400000)) then err duration_out_of_range else ok ms

unfoldable pub parse_duration : Text → Result DurationError ℕ
parse_duration text =
    let t = trim text in
    let (value, rest) = read_digits t 0 in
    if starts_digit t
    then and_then (read_unit rest) (λ factor. in_bounds (value * factor))
    else err invalid_duration

abbrev pub contains : Text → Text → Bool
contains p [] = starts_with p []
contains p (c ∷ cs) = starts_with p (c ∷ cs) || contains p cs

abbrev pub name_or_empty : Option Text → Text
name_or_empty none = []
name_or_empty (some n) = n

unfoldable pub classify_client : Option Text → ClientKind
classify_client name =
    let t = lower_all (name_or_empty name) in
    if contains (codes "chatgpt") t || contains (codes "openai") t
    then chatgpt
    else (if contains (codes "claude") t || contains (codes "anthropic") t
        then claude
        else (if contains (codes "smoke") t then smoke else other))

unit_factor_le : (c : ℕ) {f : ℕ} → unit_factor c ≡ ok f → 1000 ≤ f
unfolding unit_factor
unit_factor_le c h = ground arith

unit_of_le : (t : Text) {f : ℕ} → unit_of t ≡ ok f → 1000 ≤ f
unit_of_le [] h = err_not_ok h
unit_of_le (c ∷ []) h = unit_factor_le (lower c) h
unit_of_le (c ∷ d ∷ cs) h = err_not_ok h

in_bounds-ok :
    (ms : ℕ) {out : ℕ} → in_bounds ms ≡ ok out → (out ≡ ms) × (1 ≤ out) × (out ≤ 604800000)
unfolding in_bounds
in_bounds-ok ms h = (ground arith, ground arith, ground arith)

mul_le : (v f : ℕ) → 1000 ≤ f → 1 ≤ v * f → 1000 ≤ v * f
mul_le zero f h k = omega arith
mul_le (suc v) f h k = omega (arith, suc-mul v f)

-- What is accepted is between a second and seven days.
pub parse_duration-bounds :
    (text : Text) {ms : ℕ} → parse_duration text ≡ ok ms → (1000 ≤ ms) × (ms ≤ 604800000)
unfolding parse_duration read_unit
parse_duration-bounds text {ms} h =
    let t = trim text in
    let value = (read_digits t 0).0 in
    elim (Bool-cases (starts_digit t)) [
      | inl e ↦
          let (factor, u, b) =
            and_then-ok (read_unit (read_digits t 0).1) _ (rw (parse_duration, e) at h) in
          let (same, least, most) = in_bounds-ok (value * factor) b in
          let long = mul_le value factor (unit_of_le _ u) (ground arith) in (ground arith, most)
      | inr e ↦ let k = rw (parse_duration, e) at h in err_not_ok k
    ]
