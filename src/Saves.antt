-- ===== src/Saves.antt =====
-- gowui/spaces.py: one save of a space and the release of an idle one. Whether a write succeeds is an
-- argument, since the storage is another party's.
pub mod Stored
use gowui.Base.{
  ℕ, zero, suc, ◌-◌, Bool, true, false, not, ◌&&◌, List, [], ◌∷◌, Option, none, some, leb,
  if◌then◌else◌, Text, equal,
}

-- What a space last loaded or saved.
pub record Baseline : Type 0 where
  pub saved_text : Text
  pub saved_preferences_text : Text

-- What the storage holds for the space, as JSON texts.
pub record Storage : Type 0 where
  pub snapshot_text : Text
  pub preferences_text : Text

-- `storage.save` and `storage.save_preferences`: a write that raises leaves what was stored.
abbrev pub write_snapshot : Text → Bool → Storage → Storage
write_snapshot text true st = record st { snapshot_text = text }
write_snapshot text false st = st

abbrev pub write_preferences : Text → Bool → Storage → Storage
write_preferences text true st = record st { preferences_text = text }
write_preferences text false st = st

-- Whether nothing is left to store, and the baseline and the storage after the pass.
pub record Saved : Type 0 where
  pub stored : Bool
  pub baseline : Baseline
  pub storage : Storage

abbrev pub saved : Bool → Baseline → Storage → Saved
saved stored b st = record { stored = stored; baseline = b; storage = st }

unfoldable pub save_snapshot : Text → Bool → Baseline → Storage → Saved
save_snapshot text written b st =
    if equal text b.saved_text
    then saved true b st
    else if written
    then saved true (record b { saved_text = text }) (write_snapshot text true st)
    else saved false b (write_snapshot text false st)

unfoldable pub save_kept : Option Text → Bool → Baseline → Storage → Saved
save_kept none written b st = saved true b st
save_kept (some kept) written b st =
    if equal kept b.saved_preferences_text
    then saved true b st
    else if written
    then saved true (record b { saved_preferences_text = kept }) (write_preferences kept true st)
    else saved false b (write_preferences kept false st)

-- `_save_now`: the texts of the snapshot and of the preferences, and which writes succeed.
unfoldable pub save_now : Text → Option Text → Bool → Bool → Baseline → Storage → Saved
save_now text kept wrote_snapshot wrote_kept b st =
    let first = save_snapshot text wrote_snapshot b st in
    let second = save_kept kept wrote_kept first.baseline first.storage in
    saved (first.stored && second.stored) second.baseline second.storage

-- `_idle`: no tab, and none for so long.
abbrev pub is_idle : ℕ → ℕ → ℕ → ℕ → Bool
is_idle tabs now idle_since seconds = leb tabs 0 && leb seconds (now - idle_since)

-- `release_idle` of one space, under its lock: `none` when it is dropped.
unfoldable pub release :
    Bool → Text → Option Text → Bool → Bool → Baseline → Storage → Option Baseline × Storage
release idle text kept wrote_snapshot wrote_kept b st =
    if not idle
    then (some b, st)
    else (let r = save_now text kept wrote_snapshot wrote_kept b st in
        (if r.stored then none else some r.baseline, r.storage))
