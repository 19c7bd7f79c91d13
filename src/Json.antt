-- ===== src/Json.antt =====
-- Parsed JSON, as `JSON.parse` gives it and `JSON.stringify` takes it: the trees, without their text.
--
-- The files that the program writes hold no negative numbers and no fractions, and neither do the
-- trees here. Of two members with one name the later counts.
use Prim.Native.String.{String}
use dex_reach.Common.{ℕ, Bool, Option, none, some, ◌==◌, text_eq, if◌then◌else◌}

mutual
  pub data Json : Type 0 where
    null : Json
    boolean : Bool → Json
    number : ℕ → Json
    string : String → Json
    array : Items → Json
    object : Members → Json

  pub data Items : Type 0 where
    last : Items
    item : Json → Items → Items

  pub data Members : Type 0 where
    end : Members
    member : String → Json → Members → Members

-- `value[key]`, with `none` for undefined.
unfoldable pub field : String → Members → Option Json
field k end = none
field k (member j v ms) = elim (field k ms) [
  | some w ↦ some w
  | none ↦ if j == k then some v else none
]

-- The members of a value whose `typeof` is 'object' and which is not null: an array has none that is read.
unfoldable pub members_of : Json → Option Members
members_of (object ms) = some ms
members_of (array is) = some end
members_of null = none
members_of (boolean b) = none
members_of (number n) = none
members_of (string s) = none

-- A file with JSON in it: missing, unreadable or not JSON, or a tree.
pub data JsonFile : Type 0 where
  missing unreadable : JsonFile
  holds : Json → JsonFile
