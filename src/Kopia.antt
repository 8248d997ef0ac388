-- ===== src/Kopia.antt =====
-- The snapshots of a kopia repository: src/kopia.rs, and `normalize_windows_path` of src/util.rs. The glob
-- matcher and the JSON parser are third-party code and stand as arguments. A map of tags is a list of
-- pairs.
pub mod Latest
pub mod Secret
pub mod Output
use Prim.Native.Char.{Char, code}
use Prim.Native.String
use Prim.Native.String.{String, [], ◌∷◌}
use postgres_restore_operato.Prelude.{
  ℕ, Bool, true, false, not, ◌&&◌, ◌||◌, Option, none, some, List, ltb, leb, eqb, ◌==◌,
  if◌then◌else◌, unwrap_or, is_some, all, filter,
}
use mathlib.Core.List
use postgres_restore_operato.Types.{SnapshotFilter}

pub record Snapshot : Type 0 where
  pub id : String
  pub description : String
  pub host : String
  pub path : String
  pub tags : List (String × String)
  pub start_time : String
  pub total_size : Option ℕ

unfoldable pub total_size_bytes : Snapshot → ℕ
total_size_bytes snap = unwrap_or snap.total_size 0

-- `tags.get(key)`.
unfoldable pub get_tag : String → List (String × String) → Option String
get_tag key List.[] = none
get_tag key (List.◌∷◌ (k, v) tags) =
    let rest = get_tag key tags in if k == key then some v else rest

abbrev has_value : Option String → String → Bool
has_value none v = false
has_value (some w) v = w == v

-- A tag is there under its own key or under the key with the prefix that kopia adds.
tagged : Snapshot → String × String → Bool
unfolding get_tag
tagged snap (k, v) =
    has_value (get_tag k snap.tags) v || has_value (get_tag (String.◌++◌ "tag:" k) snap.tags) v

abbrev is_letter : ℕ → Bool
is_letter c = (leb 65 c && leb c 90) || (leb 97 c && leb c 122)

unfoldable pub forward_slashes : String → String
forward_slashes [] = []
forward_slashes (c ∷ s) =
    let rest = forward_slashes s in if eqb (code c) 92 then "/" ∷ rest else c ∷ rest

drive_letter : String → String
drive_letter [] = []
drive_letter (d ∷ []) = d ∷ []
drive_letter (d ∷ c ∷ s) = if is_letter (code d) && eqb (code c) 58 then "/" ∷ d ∷ s else d ∷ c ∷ s

unfoldable pub normalize_windows_path : String → String
unfolding drive_letter
normalize_windows_path path = drive_letter (forward_slashes path)

-- A pattern that is not set lets everything through.
abbrev glob_allows : (String → String → Bool) → Option String → String → Bool
glob_allows glob_matches none value = true
glob_allows glob_matches (some pattern) value = glob_matches pattern value

unfoldable pub matches_filter : (String → String → Bool) → SnapshotFilter → Snapshot → Bool
unfolding tagged
matches_filter glob_matches f snap =
    all (tagged snap) (unwrap_or f.tags List.[])
    && glob_allows glob_matches f.host_pattern snap.host
    && glob_allows glob_matches f.description_pattern snap.description
    && glob_allows glob_matches f.path_pattern (normalize_windows_path snap.path)

unfoldable pub filter_snapshots :
    (String → String → Bool) → List Snapshot → Option SnapshotFilter → List Snapshot
filter_snapshots glob_matches snapshots none = snapshots
filter_snapshots glob_matches snapshots (some f) = filter (matches_filter glob_matches f) snapshots

-- The order of texts, by their characters.
unfoldable pub before_or_same : String → String → Bool
before_or_same [] t = true
before_or_same (c ∷ s) [] = false
before_or_same (c ∷ s) (d ∷ t) =
    let rest = before_or_same s t in
    if ltb (code c) (code d) then true else eqb (code c) (code d) && rest

-- `Iterator::max_by`: of snapshots that compare the same, the last.
unfoldable pub later : Snapshot → Snapshot → Snapshot
later best snap = if before_or_same best.start_time snap.start_time then snap else best

unfoldable pub latest_from : Snapshot → List Snapshot → Snapshot
latest_from best List.[] = best
latest_from best (List.◌∷◌ snap snaps) = latest_from (later best snap) snaps

unfoldable pub latest_snapshot : List Snapshot → Option Snapshot
latest_snapshot List.[] = none
latest_snapshot (List.◌∷◌ snap snaps) = some (latest_from snap snaps)

-- From the first opening bracket on, and up to the last closing one.
unfoldable pub from_open : String → Option String
from_open [] = none
from_open (c ∷ s) = let rest = from_open s in if eqb (code c) 91 then some (c ∷ s) else rest

abbrev pub extend : Char → Option String → Option String
extend c none = if eqb (code c) 93 then some (c ∷ []) else none
extend c (some s) = some (c ∷ s)

unfoldable pub to_close : String → Option String
to_close [] = none
to_close (c ∷ s) = extend c (to_close s)

unfoldable pub array_text : Option String → String
array_text none = "[]"
array_text (some s) = unwrap_or (to_close s) "[]"

unfoldable pub parse_snapshot_list_output : {A : Type 0} → (String → A) → String → A
unfolding array_text
parse_snapshot_list_output from_str raw = from_str (array_text (from_open raw))
