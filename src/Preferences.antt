-- ===== src/Preferences.antt =====
-- gowui/session.py: an identity's preferences, the names and presets that they may hold, and the
-- message that changes them.
pub mod Trim
pub mod Names
pub mod Sent
pub mod Kept
use gowui.Base.{
  ℕ, zero, suc, ◌+◌, ◌≡◌, Bool, true, false, not, ◌&&◌, ◌||◌, List, [], ◌∷◌, ◌++◌, map, Option,
  none, some, if◌then◌else◌, ltb, leb, ◌==◌, length, take, Text, codes, equal, within, is_space, ℤ,
  pos, one_of, Result, ok, err, is_some, or_raise, raise_if, ◌>>=◌, ◌>>◌, ◌*◌, lookup, text_eq,
}
use mathlib.Core.List.{reverse}
use gowui.Game.{Float}
use gowui.Values.{Json, null, text, integer, Object, object_of, get, has_key, elements}
use gowui.Human.{TupleProblem, tuple_problem}

abbrev pub max_presets : ℕ
max_presets = 64

abbrev pub max_preset_name : ℕ
max_preset_name = 40

abbrev pub max_lang_name : ℕ
max_lang_name = 16

abbrev pub max_preferences_bytes : ℕ
max_preferences_bytes = 64 * 1024

-- A character of `TRIM_CHARS`.
unfoldable pub is_trimmed : ℕ → Bool
is_trimmed c = is_space c || c == 0xfeff

unfoldable pub trim_left : Text → Text
trim_left [] = []
trim_left (c ∷ cs) = if is_trimmed c then trim_left cs else c ∷ cs

-- `_trim`.
unfoldable pub trim : Text → Text
trim s = reverse (trim_left (reverse (trim_left s)))

-- A character that `BAD_NAME_CHAR` finds.
unfoldable pub is_bad_char : ℕ → Bool
is_bad_char c =
    within 0 0x1f c
    || (within 0x7f 0x9f c || (within 0xd800 0xdfff c || (is_space c && not (c == b' '))))

unfoldable pub has_bad_char : Text → Bool
has_bad_char [] = false
has_bad_char (c ∷ cs) = is_bad_char c || has_bad_char cs

unfoldable pub has_blank : Text → Bool
has_blank [] = false
has_blank (c ∷ cs) = c == b' ' || has_blank cs

-- `_name_ok`, of a text.
unfoldable pub name_ok : ℕ → Bool → Text → Bool
name_ok limit spaces t =
    leb 1 (length t)
    && leb (length t) limit
    && (spaces || not (has_blank t))
    && not (has_bad_char t)

abbrev pub text_of : Json → Option Text
text_of (text t) = some t
text_of _ = none

abbrev lang_text_ok : Option Text → Bool
lang_text_ok none = false
lang_text_ok (some t) = name_ok max_lang_name false t

-- `_lang_ok`.
unfoldable pub lang_ok : Json → Bool
lang_ok v = lang_text_ok (text_of v)

-- What `_preset_problem` says.
pub data PresetProblem : Type 0 where
  not_a_preset no_name long_name bad_name : PresetProblem
  bad_tuple : TupleProblem → PresetProblem

-- A preset as it is stored.
pub record Preset : Type 0 where
  pub name : Text
  pub tuple : Json

pub record Prefs : Type 0 where
  pub lang : Option Text
  pub presets : List Preset

-- The keys of an entry are `name` and `tuple`.
abbrev pub only_preset_keys : Object → Bool
only_preset_keys [] = true
only_preset_keys ((k, v) ∷ d) =
    (equal k (codes "name") || equal k (codes "tuple")) && only_preset_keys d

abbrev pub has_preset_keys : Object → Bool
has_preset_keys d = has_key (codes "name") d && (has_key (codes "tuple") d && only_preset_keys d)

abbrev pub preset_visits : Json
preset_visits = integer (pos 2)

-- One round of the loop of `clean_preferences`: a name that was seen is dropped.
abbrev pub keep_preset : List Text → Result PresetProblem Preset → Option Preset
keep_preset seen (err p) = none
keep_preset seen (ok p) = if one_of p.name seen then none else some p

abbrev object_or : Option Object → Object
object_or none = []
object_or (some d) = d

abbrev array_or : Json → List Json
array_or (Json.array vs) = elements vs
array_or _ = []

abbrev lang_or : Json → Option Text
lang_or v = if lang_ok v then text_of v else none

-- Why `_msg_preferences` refuses.
pub data PreferencesError : Type 0 where
  not_kept too_large bad_lang not_a_list too_many same_name : PreferencesError
  bad_preset : PresetProblem → PreferencesError

abbrev stored_or : Result PresetProblem Preset → Result PreferencesError Preset
stored_or (ok p) = ok p
stored_or (err p) = err (bad_preset p)

-- Whether a name stands twice.
unfoldable pub repeats : List Preset → Bool
repeats [] = false
repeats (p ∷ ps) = one_of p.name (map (λ (q : Preset). q.name) ps) || repeats ps

abbrev list_of : Json → Option (List Json)
list_of (Json.array vs) = some (elements vs)
list_of _ = none

abbrev new_lang : Option Json → Option Text → Result PreferencesError (Option Text)
new_lang none lang = ok lang
new_lang (some null) lang = ok none
new_lang (some v) lang = if lang_ok v then ok (text_of v) else err bad_lang

module _ (int_float : ℤ → Option Float) where
  abbrev tuple_checked : Text → Json → Result PresetProblem Preset
  tuple_checked name tuple = elim (tuple_problem int_float tuple preset_visits) [
    | none ↦ ok (record { name = name; tuple = tuple })
    | some p ↦ err (bad_tuple p)
  ]

  abbrev named_checked : Text → Json → Result PresetProblem Preset
  named_checked name tuple =
      if length name == 0
      then err no_name
      else if ltb max_preset_name (length name)
      then err long_name
      else if name_ok max_preset_name true name
      then tuple_checked name tuple
      else err bad_name

  abbrev keyed_checked : Object → Result PresetProblem Preset
  keyed_checked d = elim (text_of (get (codes "name") d)) [
    | none ↦ err no_name
    | some t ↦ named_checked (trim t) (get (codes "tuple") d)
  ]

  abbrev object_checked : Option Object → Result PresetProblem Preset
  object_checked none = err not_a_preset
  object_checked (some d) = if has_preset_keys d then keyed_checked d else err not_a_preset

  -- `_preset_problem` with `_stored_preset`: the first problem, or the preset as it is stored.
  unfoldable pub checked_preset : Json → Result PresetProblem Preset
  checked_preset entry = object_checked (object_of entry)

  unfoldable pub clean_presets : List Text → List Json → List Preset
  clean_presets seen [] = []
  clean_presets seen (e ∷ es) = elim (keep_preset seen (checked_preset e)) [
    | none ↦ clean_presets seen es
    | some p ↦ p ∷ clean_presets (p.name ∷ seen) es
  ]

  -- `clean_preferences`.
  unfoldable pub clean_preferences : Json → Prefs
  clean_preferences value =
      let source = object_or (object_of value) in
      record {
        lang = lang_or (get (codes "lang") source);
        presets = clean_presets [] (take max_presets (array_or (get (codes "presets") source)));
      }

  unfoldable pub store_presets : List Json → Result PreferencesError (List Preset)
  store_presets [] = ok []
  store_presets (e ∷ es) = do p ← stored_or (checked_preset e); ps ← store_presets es; ok (p ∷ ps)

  abbrev new_presets : Option Json → List Preset → Result PreferencesError (List Preset)
  new_presets none ps = ok ps
  new_presets (some v) ps = do
    es ← or_raise (list_of v) not_a_list
    raise_if (ltb max_presets (length es)) too_many
    stored ← store_presets es
    raise_if (repeats stored) same_name
    ok stored

  -- `_msg_preferences`: `size` is the length of the message as JSON text.
  unfoldable pub set_preferences : Object → ℕ → Option Prefs → Result PreferencesError Prefs
  set_preferences message size none = err not_kept
  set_preferences message size (some p) = do
    raise_if (ltb max_preferences_bytes size) too_large
    lang ← new_lang (lookup (codes "lang") message) p.lang
    presets ← new_presets (lookup (codes "presets") message) p.presets
    ok (record { lang = lang; presets = presets })
