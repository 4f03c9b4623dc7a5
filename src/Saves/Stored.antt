-- ===== src/Saves/Stored.antt =====
-- What a save that answers `True`, and a release, mean for the storage.
use gowui.Base.{◌≡◌, Bool, true, ◌&&◌, Option, none, some, Text}
use gowui.Saves.{Baseline, Storage, Saved}

-- The baseline says what the storage holds.
pub record IsInStep (b : Baseline) (st : Storage) : Type 0 where
  pub same_snapshot : b.saved_text ≡ st.snapshot_text
  pub same_preferences : b.saved_preferences_text ≡ st.preferences_text

-- What the storage holds is the space's snapshot, and its preferences where they are kept.
pub record Holds (text : Text) (kept : Option Text) (st : Storage) : Type 0 where
  pub snapshot : st.snapshot_text ≡ text
  pub preferences : (t : Text) → kept ≡ some t → st.preferences_text ≡ t

-- The outcome of a pass.
pub record IsPass (text : Text) (kept : Option Text) (w v : Bool) (st : Storage) (r : Saved)
    : Type 0 where
  pub in_step : IsInStep r.baseline r.storage
  pub stored : r.stored ≡ true → Holds text kept r.storage
  pub certain : (w && v) ≡ true → r.stored ≡ true
  pub untouched : kept ≡ none → r.storage.preferences_text ≡ st.preferences_text

record AfterSnapshot (text : Text) (w : Bool) (st : Storage) (r : Saved) : Type 0 where
  in_step : IsInStep r.baseline r.storage
  stored : r.stored ≡ true → r.storage.snapshot_text ≡ text
  certain : w ≡ true → r.stored ≡ true
  untouched : r.storage.preferences_text ≡ st.preferences_text

record AfterKept (kept : Option Text) (v : Bool) (st : Storage) (r : Saved) : Type 0 where
  in_step : IsInStep r.baseline r.storage
  stored : r.stored ≡ true → (t : Text) → kept ≡ some t → r.storage.preferences_text ≡ t
  certain : v ≡ true → r.stored ≡ true
  untouched : kept ≡ none → r.storage.preferences_text ≡ st.preferences_text
  snapshot : r.storage.snapshot_text ≡ st.snapshot_text
