-- ===== src/Labels.antt =====
-- src/shared/work-coordinator.ts, the input validation: labels, task identifiers, release proofs.
--
-- A text that the source walks is a list of UTF-16 code units; `codes` gives that of an ASCII
-- literal. The patterns are the source's regular expressions, written out.
pub mod Laws
use Prim.Native.Char.{code}
use Prim.Native.String.{String}
use dex_reach.Common.{
  ℕ, ◌≡◌, Bool, true, false, not, ◌&&◌, ◌||◌, Option, none, some, List, [], ◌∷◌, length, all, any,
  is_empty, leb, ltb, eqb, if◌then◌else◌,
}
use dex_reach.Common.Outcome.{Result, ok, err}

abbrev pub Text : Type 0
Text = List ℕ

abbrev pub codes : String → Text
codes String.[] = []
codes (String.◌∷◌ c s) = code c ∷ codes s

abbrev pub in_range : ℕ → ℕ → ℕ → Bool
in_range lo hi c = leb lo c && leb c hi

unfoldable pub is_lower : ℕ → Bool
is_lower c = in_range b'a' b'z' c

unfoldable pub is_upper : ℕ → Bool
is_upper c = in_range b'A' b'Z' c

unfoldable pub is_digit : ℕ → Bool
is_digit c = in_range b'0' b'9' c

unfoldable pub is_alnum : ℕ → Bool
unfolding is_lower is_upper is_digit
is_alnum c = is_lower c || (is_upper c || is_digit c)

-- `[0-9a-f]`
unfoldable pub is_hex : ℕ → Bool
unfolding is_digit
is_hex c = is_digit c || in_range b'a' b'f' c

-- The characters that `String.prototype.trim` removes.
unfoldable pub is_space : ℕ → Bool
is_space c =
    in_range 9 13 c
    || (eqb c 32
        || (eqb c 160
            || (eqb c 5760
                || (in_range 8192 8202 c
                    || (in_range 8232 8233 c
                        || (eqb c 8239 || (eqb c 8287 || (eqb c 12288 || eqb c 65279))))))))

unfoldable pub trim_start : Text → Text
trim_start [] = []
trim_start (c ∷ cs) = if is_space c then trim_start cs else c ∷ cs

unfoldable pub trim_end : Text → Text
trim_end [] = []
trim_end (c ∷ cs) = let rest = trim_end cs in if is_empty rest && is_space c then [] else c ∷ rest

unfoldable pub trim : Text → Text
unfolding trim_start trim_end
trim t = trim_end (trim_start t)

pub data LabelError : Type 0 where
  label_too_long label_unsafe label_secret : LabelError

abbrev pub max_label_length : ℕ
max_label_length = 64

-- `/^[A-Za-z0-9._\-/ ]+$/`, of one character.
unfoldable pub is_safe_label : ℕ → Bool
unfolding is_alnum
is_safe_label c =
    is_alnum c || (eqb c b'.' || (eqb c b'_' || (eqb c b'-' || (eqb c b'/' || eqb c b' '))))

abbrev push : ℕ → List Text → List Text
push c [] = (c ∷ []) ∷ []
push c (t ∷ ts) = (c ∷ t) ∷ ts

-- `value.split(/[^A-Za-z0-9]+/)`, with an empty part more between two separators in a row, which
-- the length test below passes over.
unfoldable pub split_tokens : Text → List Text
split_tokens [] = [] ∷ []
split_tokens (c ∷ cs) = if is_alnum c then push c (split_tokens cs) else [] ∷ split_tokens cs

-- A run of twenty or more that mixes lower case, upper case and digits.
unfoldable pub is_secret_token : Text → Bool
is_secret_token t = leb 20 (length t) && (any is_lower t && (any is_upper t && any is_digit t))

unfoldable pub looks_like_secret_material : Text → Bool
unfolding split_tokens is_secret_token
looks_like_secret_material value = any is_secret_token (split_tokens value)

-- The tests on a label that is trimmed and not empty.
unfoldable pub check_label : Text → Result LabelError (Option Text)
check_label t =
    if ltb max_label_length (length t)
    then err label_too_long
    else if not (all is_safe_label t)
    then err label_unsafe
    else if looks_like_secret_material t
    then err label_secret
    else ok (some t)

unfoldable pub sanitize_label : Option Text → Result LabelError (Option Text)
unfolding check_label
sanitize_label none = ok none
sanitize_label (some value) =
    let trimmed = trim value in if is_empty trimmed then ok none else check_label trimmed

abbrev strip : Text → Text → Option Text
strip [] t = some t
strip (c ∷ cs) [] = none
strip (c ∷ cs) (d ∷ ds) = let rest = strip cs ds in if eqb c d then rest else none

-- Matches `[0-9a-f]{lo,hi}` and then `k`, the rest of the pattern; `n` digits are read.
abbrev hex_run : ℕ → ℕ → ℕ → (Text → Bool) → Text → Bool
hex_run lo hi n k [] = in_range lo hi n && k []
hex_run lo hi n k (c ∷ cs) =
    let more = hex_run lo hi (Prim.Native.Nat.suc n) k cs in
    if is_hex c then more else in_range lo hi n && k (c ∷ cs)

abbrev after_mark : (Text → Bool) → Text → Bool
after_mark k [] = false
after_mark k (c ∷ cs) = eqb c b'_' && k cs

-- `/^rtsk_[0-9a-f]{11,13}_[0-9a-f]{16,32}$/`
unfoldable pub is_task_id : Text → Bool
is_task_id t = elim (strip (codes "rtsk_") t) [
  | none ↦ false
  | some rest ↦ hex_run 11 13 0 (after_mark (hex_run 16 32 0 is_empty)) rest
]

-- `/^[0-9a-f]{64}$/`
unfoldable pub is_digest : Text → Bool
is_digest t = eqb (length t) 64 && all is_hex t
