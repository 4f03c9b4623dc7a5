-- ===== src/Tests/Settings.antt =====
-- Preferences with two presets of one name, and tuples that break the rules.
use gowui.Base.{
  ◌≡◌, refl, [], ◌∷◌, Option, none, some, Text, codes, ℤ, pos, ok, arith, equal, lookup, one_of,
  is_space,
}
use gowui.Game.{Float}
use gowui.Values.{
  Json, integer, text, array, object, nil, cons, end, field, entries, elements, get, has_key,
  lt_float, is_finite_number,
}
use gowui.Human.{
  tuple_problem, floor_above_peak, unknown_of, not_number_of, bounds_problem, above, has,
  together_problem,
}
use gowui.Preferences.{
  Prefs, set_preferences, clean_preferences, clean_presets, checked_preset, trim, trim_left,
  is_trimmed, name_ok, has_bad_char, has_blank, is_bad_char, lang_ok, repeats,
}
use gowui.Preferences.Sent.{prefs_fields}
use gowui.Preferences.Kept.{
  IsKept, clean_preferences-set_preferences, set_preferences-clean_preferences,
}

abbrev as_float : ℤ → Option Float
as_float n = some (Float.num n (pos 0))

abbrev hot : Json
hot = object (field (codes "temperature") (integer (pos 2)) end)

abbrev wide : Json
wide = object (field (codes "distance_floor") (integer (pos 2)) end)

wide_refused : tuple_problem as_float wide (integer (pos 2)) ≡ some floor_above_peak
unfolding tuple_problem unknown_of not_number_of bounds_problem above has together_problem entries
    get has_key lookup equal one_of lt_float is_finite_number
wide_refused = refl

abbrev named : Text → Json → Json
named name tuple = object (field (codes "name") (text name) (field (codes "tuple") tuple end))

abbrev row : Json
row = object (
    field (codes "presets")
      (array (
        cons (named (codes " hot ") hot)
          (cons (named (codes "hot") hot) (cons (named (codes "wide") wide) nil))))
      end)

abbrev empty_prefs : Prefs
empty_prefs = record { lang = none; presets = [] }

row_cleaned :
    clean_preferences as_float row
    ≡ record { lang = none; presets = record { name = codes "hot"; tuple = hot } ∷ [] }
unfolding clean_preferences clean_presets checked_preset trim trim_left is_trimmed name_ok
    has_bad_char is_bad_char has_blank lang_ok elements tuple_problem unknown_of not_number_of
    bounds_problem above has together_problem entries get has_key lookup equal one_of lt_float
    is_finite_number is_space
row_cleaned = refl

clean_preferences-set_preferences_example :
    let p = clean_preferences as_float row in
    (set_preferences as_float (entries (prefs_fields p)) 90 (some empty_prefs) ≡ ok p)
    × (clean_preferences as_float (object (prefs_fields p)) ≡ p)
clean_preferences-set_preferences_example =
    clean_preferences-set_preferences as_float row empty_prefs 90 (omega arith)

abbrev french : Prefs
french = record { lang = some (codes "fr"); presets = [] }

french_set :
    set_preferences as_float ((codes "lang", text (codes "fr")) ∷ []) 14 (some empty_prefs)
    ≡ ok french
unfolding set_preferences lookup equal lang_ok name_ok has_bad_char is_bad_char has_blank is_space
french_set = refl

empty-IsKept : IsKept as_float empty_prefs
unfolding repeats
empty-IsKept = record {
  lang_fits = λ t e. absurd (cc);
  few = omega arith;
  distinct = refl;
  stored = tt;
}

set_preferences-clean_preferences_example :
    IsKept as_float french × (clean_preferences as_float (object (prefs_fields french)) ≡ french)
set_preferences-clean_preferences_example =
    set_preferences-clean_preferences as_float ((codes "lang", text (codes "fr")) ∷ []) 14
      empty_prefs french empty-IsKept french_set
