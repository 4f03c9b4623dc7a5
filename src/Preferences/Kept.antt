-- ===== src/Preferences/Kept.antt =====
-- What the program keeps of preferences reads back as it was, and a message that carries it is accepted.
use gowui.Base.{
  ℕ, suc, ◌≤◌, ◌≡◌, refl, ap, ◌∙◌, subst, true, false, Bool-cases, List, [], ◌∷◌, map, Option, none,
  some, ltb, length, length-take, take, Text, codes, equal, ℤ, one_of, Result, ok, err,
  ok-injective, Option-cases, bind-eq-ok, or_raise, raise_if, lookup, text_eq, inl, inr, arith, All,
}
use gowui.Game.{Float}
use gowui.Values.{Json, text, object, Object, entries, object_of, get, has_key}
use gowui.Preferences.{
  Preset, Prefs, PresetProblem, max_presets, max_preferences_bytes, lang_ok, trim, checked_preset,
  object_checked, named_checked, text_of, has_preset_keys, no_name, clean_presets,
  clean_preferences, keep_preset, store_presets, repeats, set_preferences, array_or, object_or,
  stored_or, new_lang, new_presets, list_of, not_a_list, too_many, same_name, too_large,
}
use gowui.Preferences.Trim.{trim-trim}
use gowui.Preferences.Names.{AllNew, AllNew-repeats, repeats-AllNew, Unseen-none}
use gowui.Preferences.Sent.{
  preset_json, prefs_fields, elements-to_items, lang_or-fits, stored_or-ok, lang_or-lang, few_json,
  take_few, new_lang-lang, new_lang-LangFits, raised-false,
}

module _ (int_float : ℤ → Option Float) where
  abbrev pub IsStored : Preset → Type 0
  IsStored p = checked_preset int_float (preset_json p) ≡ ok p

  -- Preferences that keep the rules.
  pub record IsKept (p : Prefs) : Type 0 where
    pub lang_fits : (t : Text) → p.lang ≡ some t → lang_ok (text t) ≡ true
    pub few : length p.presets ≤ max_presets
    pub distinct : repeats p.presets ≡ false
    pub stored : All IsStored p.presets

  preset_json-checked :
      (p : Preset)
      → checked_preset int_float (preset_json p) ≡ named_checked int_float (trim p.name) p.tuple
  unfolding checked_preset preset_json entries get has_key lookup equal one_of
  preset_json-checked p = refl

  named_checked-name :
      (t : Text) (v : Json) (p : Preset)
      → named_checked int_float t v ≡ ok p
      → (p.name ≡ t) × (p.tuple ≡ v)
  named_checked-name t v p h = ground (arith, h)

  keyed_checked-named :
      (p : Preset) (o : Option Text) (v : Json)
      → (elim o as (λ o. Result PresetProblem Preset) [
        | none ↦ err no_name
        | some t ↦ named_checked int_float (trim t) v
      ])
        ≡ ok p
      → (t : Text) × (named_checked int_float (trim t) v ≡ ok p)
  keyed_checked-named p none v h = absurd (cc)
  keyed_checked-named p (some t) v h = (t, h)

  object_checked-named :
      (p : Preset) (o : Option Object)
      → object_checked int_float o ≡ ok p
      → (t : Text) × (v : Json) × (named_checked int_float (trim t) v ≡ ok p)
  object_checked-named p none h = absurd (cc)
  object_checked-named p (some d) h = elim (Bool-cases (has_preset_keys d)) [
    | inl a ↦
        let (t, e) =
          keyed_checked-named p (text_of (get (codes "name") d)) (get (codes "tuple") d)
            (rw a at h) in
        (t, get (codes "tuple") d, e)
    | inr b ↦ absurd (ground (arith, h, b))
  ]

  checked_preset-IsStored : (e : Json) (p : Preset) → checked_preset int_float e ≡ ok p → IsStored p
  unfolding checked_preset
  checked_preset-IsStored e p h =
      let (t, v, n) = object_checked-named p (object_of e) h in
      let (name, tuple) = named_checked-name (trim t) v p n in
      preset_json-checked p
      ∙ ap (λ m. named_checked int_float (trim m) p.tuple) name
      ∙ ap (λ m. named_checked int_float m p.tuple) (trim-trim t)
      ∙ ap (named_checked int_float (trim t)) tuple
      ∙ n

module _ (int_float : ℤ → Option Float) where
  kept_once :
      (seen : List Text) (r : Result PresetProblem Preset) (p : Preset)
      → keep_preset seen r ≡ some p
      → (r ≡ ok p) × (one_of p.name seen ≡ false)
  kept_once seen (ok q) p h = ground (arith, h)
  kept_once seen (err e) p h = absurd (cc)

  abbrev go_on : List Text → List Json → Option Preset → List Preset
  go_on seen es o = elim o as (λ o. List Preset) [
    | none ↦ clean_presets int_float seen es
    | some p ↦ p ∷ clean_presets int_float (p.name ∷ seen) es
  ]

  clean_presets-cons :
      (seen : List Text) (e : Json) (es : List Json) (o : Option Preset)
      → keep_preset seen (checked_preset int_float e) ≡ o
      → clean_presets int_float seen (e ∷ es) ≡ go_on seen es o
  unfolding clean_presets
  clean_presets-cons seen e es o h = ap (go_on seen es) h

  -- What the loop keeps, of any list.
  clean_presets-kept :
      (seen : List Text) (es : List Json)
      → let ps = clean_presets int_float seen es in
        All (IsStored int_float) ps × (AllNew seen ps × (length ps ≤ length es))
  unfolding clean_presets
  clean_presets-kept seen [] = (tt, (tt, omega arith))
  clean_presets-kept seen (e ∷ es) =
      elim (Option-cases (keep_preset seen (checked_preset int_float e))) [
        | inl n ↦
            let (a, (b, l)) = clean_presets-kept seen es in
            rw (clean_presets-cons seen e es none n) ((a, (b, omega arith)))
        | inr (p, y) ↦
            let (made, fresh) = kept_once seen (checked_preset int_float e) p y in
            let (a, (b, l)) = clean_presets-kept (p.name ∷ seen) es in
            rw (clean_presets-cons seen e es (some p) y)
              (((checked_preset-IsStored int_float e p made, a), ((fresh, b), omega arith)))
      ]

  -- The loop keeps all of what it once kept.
  clean_presets-again :
      (seen : List Text) (ps : List Preset)
      → All (IsStored int_float) ps
      → AllNew seen ps
      → clean_presets int_float seen (map preset_json ps) ≡ ps
  unfolding clean_presets
  clean_presets-again seen [] s a = refl
  clean_presets-again seen (p ∷ ps) (made, s) (fresh, a) =
      let keeps : keep_preset seen (checked_preset int_float (preset_json p)) ≡ some p =
        ap (keep_preset seen) made ∙ (rw fresh refl) in
      clean_presets-cons seen (preset_json p) (map preset_json ps) (some p) keeps
      ∙ ap (◌∷◌ p) (clean_presets-again (p.name ∷ seen) ps s a)

  store_presets-again :
      (ps : List Preset)
      → All (IsStored int_float) ps
      → store_presets int_float (map preset_json ps) ≡ ok ps
  unfolding store_presets
  store_presets-again [] s = refl
  store_presets-again (p ∷ ps) (made, s) = rw (made, store_presets-again ps s) refl

  store_presets-kept :
      (es : List Json) (ps : List Preset)
      → store_presets int_float es ≡ ok ps
      → All (IsStored int_float) ps × (length ps ≡ length es)
  unfolding store_presets
  store_presets-kept [] ps h = rw⁻¹ (ok-injective h) ((tt, refl))
  store_presets-kept (e ∷ es) ps h =
      let (p, made, rest) = bind-eq-ok (stored_or (checked_preset int_float e)) _ h in
      let (qs, more, last) = bind-eq-ok (store_presets int_float es) _ rest in
      let (a, l) = store_presets-kept es qs more in
      rw⁻¹ (ok-injective last)
        (((checked_preset-IsStored int_float e p (stored_or-ok _ p made), a), ap suc l))

  -- What the rules keep of any value.
  clean_preferences-IsKept : (v : Json) → IsKept int_float (clean_preferences int_float v)
  unfolding clean_preferences
  clean_preferences-IsKept v =
      let source = object_or (object_of v) in
      let es = take max_presets (array_or (get (codes "presets") source)) in
      let (s, (a, l)) = clean_presets-kept [] es in
      record {
        lang_fits = lang_or-fits (get (codes "lang") source);
        few = omega (arith, l, length-take max_presets (array_or (get (codes "presets") source)));
        distinct = AllNew-repeats [] (clean_presets int_float [] es) a;
        stored = s;
      }

  -- Kept preferences are read back as they are.
  IsKept-clean :
      (p : Prefs) → IsKept int_float p → clean_preferences int_float (object (prefs_fields p)) ≡ p
  unfolding clean_preferences prefs_fields entries get lookup equal
  IsKept-clean p k =
      rw
        (
          elements-to_items (map preset_json p.presets),
          take_few max_presets (map preset_json p.presets) (few_json p k.few),
          clean_presets-again [] p.presets k.stored
              (repeats-AllNew [] p.presets (Unseen-none p.presets) k.distinct),
        )
        (ap (λ l. record { lang = l; presets = p.presets }) (lang_or-lang p.lang k.lang_fits))

  IsKept-accepted :
      (p old : Prefs) (size : ℕ)
      → size ≤ max_preferences_bytes
      → IsKept int_float p
      → set_preferences int_float (entries (prefs_fields p)) size (some old) ≡ ok p
  unfolding set_preferences prefs_fields entries get lookup equal
  IsKept-accepted p old size b k =
      rw
        (
          within_size,
          elements-to_items (map preset_json p.presets),
          within_few,
          store_presets-again p.presets k.stored,
          k.distinct,
          new_lang-lang p.lang old.lang k.lang_fits,
        )
        refl
    where
      within_size : ltb max_preferences_bytes size ≡ false
      within_size = ground arith

      within_few : ltb max_presets (length (map preset_json p.presets)) ≡ false
      within_few = ground (arith, few_json p k.few)

  abbrev PresetsFit : List Preset → Type 0
  PresetsFit ps = (length ps ≤ max_presets) × ((repeats ps ≡ false) × All (IsStored int_float) ps)

  new_presets-PresetsFit :
      (v : Option Json) (old ps : List Preset)
      → PresetsFit old
      → new_presets int_float v old ≡ ok ps
      → PresetsFit ps
  new_presets-PresetsFit none old ps f h = subst PresetsFit (ok-injective h) f
  new_presets-PresetsFit (some v) old ps f h =
      let (es, listed, h1) = bind-eq-ok (or_raise (list_of v) not_a_list) _ h in
      let (u, few, h2) = bind-eq-ok (raise_if (ltb max_presets (length es)) too_many) _ h1 in
      let (qs, made, h3) = bind-eq-ok (store_presets int_float es) _ h2 in
      let (u, once, h4) = bind-eq-ok (raise_if (repeats qs) same_name) _ h3 in
      let (s, l) = store_presets-kept es qs made in
      subst PresetsFit (ok-injective h4) (
        (
          ground (arith, l, raised-false (ltb max_presets (length es)) too_many few),
          (raised-false (repeats qs) same_name once, s),
        ))

  set_preferences-IsKept :
      (message : Object) (size : ℕ) (old new : Prefs)
      → IsKept int_float old
      → set_preferences int_float message size (some old) ≡ ok new
      → IsKept int_float new
  unfolding set_preferences
  set_preferences-IsKept message size old new k h =
      let (u, small, h1) = bind-eq-ok (raise_if (ltb max_preferences_bytes size) too_large) _ h in
      let (l, lang, h2) = bind-eq-ok (new_lang (lookup (codes "lang") message) old.lang) _ h1 in
      let (ps, presets, h3) =
        bind-eq-ok (new_presets int_float (lookup (codes "presets") message) old.presets) _ h2 in
      let f = new_lang-LangFits (lookup (codes "lang") message) old.lang l k.lang_fits lang in
      let (few, (distinct, stored)) =
        new_presets-PresetsFit (lookup (codes "presets") message) old.presets ps
          (k.few, (k.distinct, k.stored)) presets in
      subst (IsKept int_float) (ok-injective h3)
        (record { lang_fits = f; few = few; distinct = distinct; stored = stored })

  -- Preferences read from any stored value are accepted whole by the message that sends them back,
  -- whatever was kept before, if the message is within the size that is allowed; it stores them
  -- unchanged, and what it stores is read back unchanged.
  pub clean_preferences-set_preferences :
      (v : Json) (old : Prefs) (size : ℕ)
      → size ≤ max_preferences_bytes
      → let p = clean_preferences int_float v in
        (set_preferences int_float (entries (prefs_fields p)) size (some old) ≡ ok p)
        × (clean_preferences int_float (object (prefs_fields p)) ≡ p)
  clean_preferences-set_preferences v old size b =
      let k = clean_preferences-IsKept v in
      (
        IsKept-accepted (clean_preferences int_float v) old size b k,
        IsKept-clean (clean_preferences int_float v) k,
      )

  -- What a message makes of preferences that were read from storage, or that such messages made of
  -- them, is read from storage again as the message left it.
  pub set_preferences-clean_preferences :
      (message : Object) (size : ℕ) (old new : Prefs)
      → IsKept int_float old
      → set_preferences int_float message size (some old) ≡ ok new
      → IsKept int_float new × (clean_preferences int_float (object (prefs_fields new)) ≡ new)
  set_preferences-clean_preferences message size old new k h =
      let kept = set_preferences-IsKept message size old new k h in (kept, IsKept-clean new kept)
