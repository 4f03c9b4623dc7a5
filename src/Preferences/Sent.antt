-- ===== src/Preferences/Sent.antt =====
-- Preferences as JSON, and what is read of it.
use gowui.Base.{
  ℕ, zero, suc, ◌≤◌, ◌≡◌, refl, ap, subst, Bool, true, false, List, [], ◌∷◌, map, Option, none,
  some, if◌then◌else◌, length, take, Text, codes, Result, ok, err, ok-injective, raise_if, arith,
}
use gowui.Values.{Json, null, text, object, array, Fields, end, field, elements, to_items}
use gowui.Preferences.{
  Preset, Prefs, PresetProblem, bad_lang, max_presets, lang_ok, lang_or, text_of, stored_or,
  new_lang,
}

-- A preset, and preferences, as they are stored and sent.
unfoldable pub preset_json : Preset → Json
preset_json p = object (field (codes "name") (text p.name) (field (codes "tuple") p.tuple end))

abbrev pub lang_json : Option Text → Json
lang_json none = null
lang_json (some t) = text t

unfoldable pub prefs_fields : Prefs → Fields
prefs_fields p =
    field (codes "lang") (lang_json p.lang)
      (field (codes "presets") (array (to_items (map preset_json p.presets))) end)

pub elements-to_items : (vs : List Json) → elements (to_items vs) ≡ vs
unfolding elements to_items
elements-to_items [] = refl
elements-to_items (v ∷ vs) = ap (◌∷◌ v) (elements-to_items vs)

pub lang_or-fits : (v : Json) (t : Text) → lang_or v ≡ some t → lang_ok (text t) ≡ true
unfolding lang_ok
lang_or-fits (text u) t h = ground (arith, h)
lang_or-fits null t h = absurd (ground (arith, h))
lang_or-fits (Json.boolean b) t h = absurd (ground (arith, h))
lang_or-fits (Json.integer n) t h = absurd (ground (arith, h))
lang_or-fits (Json.real f) t h = absurd (ground (arith, h))
lang_or-fits (array vs) t h = absurd (ground (arith, h))
lang_or-fits (object fs) t h = absurd (ground (arith, h))

pub stored_or-ok : (r : Result PresetProblem Preset) (p : Preset) → stored_or r ≡ ok p → r ≡ ok p
stored_or-ok (ok q) p h = cc
stored_or-ok (err e) p h = absurd (cc)

pub lang_or-lang :
    (l : Option Text)
    → ((t : Text) → l ≡ some t → lang_ok (text t) ≡ true)
    → lang_or (lang_json l) ≡ l
unfolding lang_ok
lang_or-lang none h = refl
lang_or-lang (some t) h = rw (h t refl) refl

pub length-map : (ps : List Preset) → length (map preset_json ps) ≡ length ps
length-map [] = refl
length-map (p ∷ ps) = ap suc (length-map ps)

pub few_json :
    (p : Prefs) → length p.presets ≤ max_presets → length (map preset_json p.presets) ≤ max_presets
few_json p h = omega (arith, length-map p.presets)

pub take_few : {A : Type 0} (n : ℕ) (xs : List A) → length xs ≤ n → take n xs ≡ xs
take_few zero [] h = refl
take_few zero (x ∷ xs) h = absurd (omega arith)
take_few (suc n) [] h = refl
take_few (suc n) (x ∷ xs) h = ap (◌∷◌ x) (take_few n xs (omega arith))

pub new_lang-lang :
    (l old : Option Text)
    → ((t : Text) → l ≡ some t → lang_ok (text t) ≡ true)
    → new_lang (some (lang_json l)) old ≡ ok l
unfolding lang_ok
new_lang-lang none old h = refl
new_lang-lang (some t) old h = rw (h t refl) refl

abbrev pub LangFits : Option Text → Type 0
LangFits l = (t : Text) → l ≡ some t → lang_ok (text t) ≡ true

pub value-LangFits :
    (v : Json) (l : Option Text)
    → (if lang_ok v then ok (text_of v) else err bad_lang) ≡ ok l
    → LangFits l
unfolding lang_ok
value-LangFits (text u) l h t e = ground (arith, h, e)
value-LangFits null l h t e = absurd (cc)
value-LangFits (Json.boolean b) l h t e = absurd (cc)
value-LangFits (Json.integer n) l h t e = absurd (cc)
value-LangFits (Json.real f) l h t e = absurd (cc)
value-LangFits (array vs) l h t e = absurd (cc)
value-LangFits (object fs) l h t e = absurd (cc)

pub new_lang-LangFits :
    (v : Option Json) (old l : Option Text) → LangFits old → new_lang v old ≡ ok l → LangFits l
new_lang-LangFits none old l f h = subst LangFits (ok-injective h) f
new_lang-LangFits (some null) old l f h = λ t e. absurd (cc)
new_lang-LangFits (some (text u)) old l f h = value-LangFits (text u) l h
new_lang-LangFits (some (Json.boolean b)) old l f h = value-LangFits (Json.boolean b) l h
new_lang-LangFits (some (Json.integer n)) old l f h = value-LangFits (Json.integer n) l h
new_lang-LangFits (some (Json.real g)) old l f h = value-LangFits (Json.real g) l h
new_lang-LangFits (some (array vs)) old l f h = value-LangFits (array vs) l h
new_lang-LangFits (some (object fs)) old l f h = value-LangFits (object fs) l h

pub raised-false : {E : Type 0} (test : Bool) (e : E) → raise_if test e ≡ ok tt → test ≡ false
raised-false true e h = absurd (cc)
raised-false false e h = refl
