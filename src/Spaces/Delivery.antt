-- ===== src/Spaces/Delivery.antt =====
-- A broadcast against the queues of the attached tabs.
use gowui.Base.{
  ℕ, ◌≡◌, ◌≢◌, refl, sym, ap, ◌∙◌, subst, Bool, true, false, List, [], ◌∷◌, ◌++◌, append_assoc,
  Option, none, some, if◌then◌else◌, Text, ==_self, ==_ne,
}
use gowui.Spaces.{
  Frame, TabQueue, Tab, Hub, put, tab_of, set_tab, remove_tab, remove, is_empty, removed, delivered,
  after_put, history_text, deliver, deliver_all, tab_ids, broadcast,
}

-- The tabs after each has been given the frame on its own: those whose queue refuses it are gone.
abbrev kept : ℕ → Tab → Bool × TabQueue → List (ℕ × Tab) → List (ℕ × Tab)
kept id t (true, q) rest = (id, record t { queue = q }) ∷ rest
kept id t (false, q) rest = rest

unfoldable pub served : Frame → Option Text → List (ℕ × Tab) → List (ℕ × Tab)
served f answer [] = []
served f answer ((id, t) ∷ ts) =
    kept id t (put (f.0) (f.1) (some answer) t.queue) (served f answer ts)

-- No tab of the list stands under the number.
unfoldable pub IsAbsent : ℕ → List (ℕ × Tab) → Type 0
IsAbsent id [] = Unit {0}
IsAbsent id (t ∷ ts) = (t.0 ≢ id) × IsAbsent id ts

unfoldable pub IsDistinct : List (ℕ × Tab) → Type 0
IsDistinct [] = Unit {0}
IsDistinct (t ∷ ts) = IsAbsent (t.0) ts × IsDistinct ts

-- No tab of the first list stands under a number of the second.
unfoldable IsApart : List (ℕ × Tab) → List (ℕ × Tab) → Type 0
IsApart ds [] = Unit {0}
IsApart ds (t ∷ ts) = IsAbsent (t.0) ds × IsApart ds ts

module _ (id : ℕ) (t : Tab) (rest : List (ℕ × Tab)) where
  tab_of-middle : (ds : List (ℕ × Tab)) → IsAbsent id ds → tab_of id (ds ++ (id, t) ∷ rest) ≡ some t
  unfolding tab_of IsAbsent
  tab_of-middle [] h = rw (==_self id) refl
  tab_of-middle ((j, u) ∷ ds) (n, h) = rw (==_ne j id n) (tab_of-middle ds h)

  set_tab-middle :
      (new : Tab) (ds : List (ℕ × Tab))
      → IsAbsent id ds
      → set_tab id new (ds ++ (id, t) ∷ rest) ≡ ds ++ (id, new) ∷ rest
  unfolding set_tab IsAbsent
  set_tab-middle new [] h = rw (==_self id) refl
  set_tab-middle new ((j, u) ∷ ds) (n, h) =
      rw (==_ne j id n) (ap (λ (xs : List (ℕ × Tab)). (j, u) ∷ xs) (set_tab-middle new ds h))

  remove_tab-middle :
      (ds : List (ℕ × Tab)) → IsAbsent id ds → remove_tab id (ds ++ (id, t) ∷ rest) ≡ ds ++ rest
  unfolding remove_tab IsAbsent
  remove_tab-middle [] h = rw (==_self id) refl
  remove_tab-middle ((j, u) ∷ ds) (n, h) =
      rw (==_ne j id n) (ap (λ (xs : List (ℕ × Tab)). (j, u) ∷ xs) (remove_tab-middle ds h))

IsAbsent-snoc :
    (id j : ℕ) (u : Tab) (ds : List (ℕ × Tab))
    → IsAbsent id ds
    → j ≢ id
    → IsAbsent id (ds ++ (j, u) ∷ [])
unfolding IsAbsent
IsAbsent-snoc id j u [] h n = (n, tt)
IsAbsent-snoc id j u (d ∷ ds) (m, h) n = (m, IsAbsent-snoc id j u ds h n)

IsApart-snoc :
    (j : ℕ) (u : Tab) (ds ts : List (ℕ × Tab))
    → IsApart ds ts
    → IsAbsent j ts
    → IsApart (ds ++ (j, u) ∷ []) ts
unfolding IsApart IsAbsent
IsApart-snoc j u ds [] h a = tt
IsApart-snoc j u ds (t ∷ ts) (x, h) (n, a) =
    (IsAbsent-snoc (t.0) j u ds x (λ e. n (sym e)), IsApart-snoc j u ds ts h a)

remove-some :
    (now id : ℕ) (t : Tab) (h : Hub)
    → tab_of id h.tabs ≡ some t
    → remove now id h ≡ record h {
      tabs = remove_tab id h.tabs;
      idle_since = if is_empty (remove_tab id h.tabs) then now else h.idle_since;
    }
unfolding remove
remove-some now id t h e = ap (removed now id h) e

deliver-some :
    (now id : ℕ) (f : Frame) (t : Tab) (h : Hub)
    → tab_of id h.tabs ≡ some t
    → deliver now id f h ≡ after_put now id h t (put (f.0) (f.1) (some (history_text h)) t.queue)
unfolding deliver
deliver-some now id f t h e = ap (delivered now id f h) e

-- Which tabs a delivery leaves, when the tab stands between `ds` and `rest`.
deliver-tabs :
    (now id : ℕ) (f : Frame) (t : Tab) (ds rest : List (ℕ × Tab)) (h : Hub)
    → h.tabs ≡ ds ++ (id, t) ∷ rest
    → IsAbsent id ds
    → ((deliver now id f h).tabs
        ≡ ds ++ kept id t (put (f.0) (f.1) (some (history_text h)) t.queue) rest)
      × ((deliver now id f h).history ≡ h.history)
deliver-tabs now id f t ds rest h e a =
    let here : tab_of id h.tabs ≡ some t = ap (tab_of id) e ∙ tab_of-middle id t rest ds a in
    rw (deliver-some now id f t h here)
      (settled (put (f.0) (f.1) (some (history_text h)) t.queue) here)
  where
    settled :
        (r : Bool × TabQueue)
        → tab_of id h.tabs ≡ some t
        → ((after_put now id h t r).tabs ≡ ds ++ kept id t r rest)
          × ((after_put now id h t r).history ≡ h.history)
    settled (true, q) here = (
      ap (set_tab id (record t { queue = q })) e
          ∙ set_tab-middle id t rest (record t { queue = q }) ds a,
      refl,
    )
    settled (false, q) here =
        let e' = remove-some now id t h here in
        (
          ap (λ (k : Hub). k.tabs) e' ∙ ap (remove_tab id) e ∙ remove_tab-middle id t rest ds a,
          ap (λ (k : Hub). k.history) e',
        )

deliver_all-tabs :
    (now : ℕ) (f : Frame) (ts ds : List (ℕ × Tab)) (h : Hub)
    → h.tabs ≡ ds ++ ts
    → IsDistinct ts
    → IsApart ds ts
    → (deliver_all now (tab_ids ts) f h).tabs ≡ ds ++ served f (history_text h) ts
unfolding deliver_all tab_ids served IsDistinct IsApart
deliver_all-tabs now f [] ds h e d a = e
deliver_all-tabs now f ((id, t) ∷ ts) ds h e (n, d) (x, a) =
    let (tabs, same) = deliver-tabs now id f t ds ts h e x in
    let answer : history_text (deliver now id f h) ≡ history_text h =
      ap (λ (o : Option (Option Text)). elim o as (λ o. Option Text) [ none ↦ none | some r ↦ r ])
        same in
    taken (put (f.0) (f.1) (some (history_text h)) t.queue) tabs answer
      (λ es. deliver_all-tabs now f ts es (deliver now id f h))
  where
    taken :
        (r : Bool × TabQueue)
        → (deliver now id f h).tabs ≡ ds ++ kept id t r ts
        → history_text (deliver now id f h) ≡ history_text h
        → ((es : List (ℕ × Tab))
            → (deliver now id f h).tabs ≡ es ++ ts
            → IsDistinct ts
            → IsApart es ts
            → (deliver_all now (tab_ids ts) f (deliver now id f h)).tabs
              ≡ es ++ served f (history_text (deliver now id f h)) ts)
        → (deliver_all now (tab_ids ts) f (deliver now id f h)).tabs
          ≡ ds ++ kept id t r (served f (history_text h) ts)
    taken (false, q) tabs answer rest =
        subst
          (λ (o : Option Text).
            (deliver_all now (tab_ids ts) f (deliver now id f h)).tabs ≡ ds ++ served f o ts)
          answer (rest ds tabs d a)
    taken (true, q) tabs answer rest =
        let new = record t { queue = q } in
        let ds' : List (ℕ × Tab) = ds ++ (id, new) ∷ [] in
        let tabs' : (deliver now id f h).tabs ≡ ds' ++ ts =
          tabs ∙ sym (append_assoc ds ((id, new) ∷ []) ts) in
        subst
          (λ (o : Option Text).
            (deliver_all now (tab_ids ts) f (deliver now id f h)).tabs
            ≡ ds ++ (id, new) ∷ served f o ts)
          answer
          (rest ds' tabs' d (IsApart-snoc id new ds ts a n)
            ∙ append_assoc ds ((id, new) ∷ []) (served f _ ts))

IsApart-nil : (ts : List (ℕ × Tab)) → IsApart [] ts
unfolding IsApart IsAbsent
IsApart-nil [] = tt
IsApart-nil (t ∷ ts) = (tt, IsApart-nil ts)

-- A broadcast gives its frame to the queue of every attached tab, in one hub the same as if each
-- were alone, keeps the tabs whose queue takes it, in their order, and drops those whose queue
-- refuses it.
pub broadcast-served :
    (now : ℕ) (f : Frame) (h : Hub)
    → IsDistinct h.tabs
    → (broadcast now f h).tabs ≡ served f (history_text h) h.tabs
unfolding broadcast
broadcast-served now f h d = deliver_all-tabs now f h.tabs [] h refl d (IsApart-nil h.tabs)
