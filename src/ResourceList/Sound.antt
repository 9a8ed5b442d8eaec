-- ===== src/ResourceList/Sound.antt =====
-- web/src/composables/useResourceList.ts: what holds of the list while a load is in flight and while none is.
use kube_console.Shared.{
  ℕ, ◌+◌, ◌<◌, ◌≡◌, refl, ap, ◌∙◌, Bool, true, false, not, ◌&&◌, ◌||◌, List, [], ◌∷◌, Option, none,
  some, String, arith, str_eq, ◌==◌, if◌then◌else◌, is_none, Bool-cases, inl, inr,
}
use kube_console.ResourceList.Rows.{
  Row, Collection, set_rows, upsert_rows, newer, Event, bookmark, changed, deleted, handle_event,
}
use kube_console.ResourceList.Loads.{
  Purpose, refreshing, paging, searching, Selection, Listing, begin_load, builds_url,
  conclude_refresh, refresh, next_page, begin_search, purpose_of, without,
}

-- The collection on screen is whole, it is not a page or a search, it loaded with no error, it has a
-- version to watch from, and the toolbar says that it is live.
unfoldable pub is_complete : Listing → Bool
is_complete s =
    not s.paged
    && str_eq s.continue_token ""
    && is_none s.error
    && not (str_eq s.collection.resource_version "")
    && not s.watch_degraded

-- What holds with the walk of the current generation in flight, or with none.
abbrev pub Flies : Option Purpose → Listing → Type 0
Flies none s = (not s.watching || is_complete s) ≡ true
Flies (some refreshing) s = (s.watching ≡ false) × (s.paged ≡ false)
Flies (some paging) s = s.watching ≡ false
Flies (some searching) s = s.watching ≡ false

pub record IsSound (s : Listing) : Type 0 where
  pub no_later_walk : (g : ℕ) → s.load_gen < g → purpose_of g s.walks ≡ none
  pub current : Flies (purpose_of s.load_gen s.walks) s

pub purpose_of-without :
    (g h : ℕ) (ws : List (ℕ × Purpose))
    → purpose_of h (without g ws) ≡ (if g == h then none else purpose_of h ws)
unfolding purpose_of without
purpose_of-without g h [] = ground arith
purpose_of-without g h ((k, p) ∷ ws) = ground (arith, purpose_of-without g h ws)

newer-ne : (rv : Option String) (v : String) → str_eq v "" ≡ false → str_eq (newer rv v) "" ≡ false
unfolding newer
newer-ne none v e = e
newer-ne (some w) v e = ground (arith, e)

upsert_rows-version :
    (rows : List Row) (removed : Bool) (c : Collection)
    → (upsert_rows rows removed c).resource_version ≡ c.resource_version
unfolding upsert_rows set_rows
upsert_rows-version [] removed c = refl
upsert_rows-version (r ∷ rs) true c = refl
upsert_rows-version (r ∷ rs) false c = refl

pub handle_event-version :
    (e : Event) (c : Collection)
    → str_eq c.resource_version "" ≡ false
    → str_eq (handle_event e c).resource_version "" ≡ false
unfolding handle_event
handle_event-version (bookmark rv) c h = newer-ne rv c.resource_version h
handle_event-version (changed rv rows) c h =
    ap (λ v. str_eq v "") (upsert_rows-version rows false _) ∙ newer-ne rv c.resource_version h
handle_event-version (deleted rv rows) c h =
    ap (λ v. str_eq v "") (upsert_rows-version rows true _) ∙ newer-ne rv c.resource_version h

-- A new walk, of the purpose that the state allows.
abbrev Allows : Purpose → Listing → Type 0
Allows p s = Flies (some p) s

begin_load-IsSound :
    (p : Purpose) (selection : Option Selection) (s : Listing)
    → ((g : ℕ) → s.load_gen < g → purpose_of g s.walks ≡ none)
    → s.watching ≡ false
    → Allows p s
    → IsSound (begin_load p selection s)
unfolding begin_load purpose_of
begin_load-IsSound p none s later off a = record {
  no_later_walk = λ g lt. later g (omega arith);
  current = rw (later (s.load_gen + 1) (omega arith)) (ground (arith, off));
}
begin_load-IsSound p (some selection) s later off a = record {
  no_later_walk = λ g lt. ground (arith, later g (omega arith));
  current =
      (let here : (s.load_gen + 1 == s.load_gen + 1) ≡ true = ground arith in simp here (kept p a));
}
  where
    kept : (p : Purpose) → Allows p s → Flies (some p) (begin_load p (some selection) s)
    kept refreshing a = a
    kept paging a = a
    kept searching a = a

pub conclude_refresh_sound :
    (has_ref : Bool) (s : Listing)
    → s.watching ≡ false
    → s.paged ≡ false
    → Flies none (conclude_refresh has_ref s)
unfolding conclude_refresh builds_url is_complete
conclude_refresh_sound has_ref s off unpaged = ground (arith, off, unpaged)

pub conclude_refresh-walks :
    (has_ref : Bool) (s : Listing)
    → ((conclude_refresh has_ref s).walks ≡ s.walks)
      × ((conclude_refresh has_ref s).load_gen ≡ s.load_gen)
unfolding conclude_refresh
conclude_refresh-walks has_ref s =
    elim (Bool-cases (
      is_none s.error
      && not (str_eq s.collection.resource_version "")
      && str_eq s.continue_token "")) [ inl t ↦ simp t (refl, refl) | inr f ↦ simp f (refl, refl) ]

-- A state with no walk of its generation in flight.
pub idle-IsSound :
    (t : Listing) (gen : ℕ) (ws : List (ℕ × Purpose))
    → (t.walks ≡ ws) × (t.load_gen ≡ gen)
    → ((g : ℕ) → gen < g → purpose_of g ws ≡ none)
    → purpose_of gen ws ≡ none
    → Flies none t
    → IsSound t
idle-IsSound t gen ws (ew, eg) later here fl = record {
  no_later_walk = λ g lt. ap (purpose_of g) ew ∙ later g (omega (arith, eg, lt));
  current =
      (let e : purpose_of t.load_gen t.walks ≡ none =
          ap (λ n. purpose_of n t.walks) eg ∙ ap (purpose_of gen) ew ∙ here in
        flies_at (purpose_of t.load_gen t.walks) e);
}
  where
    flies_at : (o : Option Purpose) → o ≡ none → Flies o t
    flies_at none e = fl
    flies_at (some p) e = cc

pub refresh-IsSound :
    (selection : Option Selection) (s : Listing) → IsSound s → IsSound (refresh selection s)
unfolding refresh begin_load
refresh-IsSound none s v =
    let reset = record s {
      paged = false;
      search_query = none;
      search_truncated = false;
      watching = false;
    } in
    let begun = begin_load refreshing none reset in
    idle-IsSound (conclude_refresh false begun) (s.load_gen + 1) s.walks
      (conclude_refresh-walks false begun) (λ g lt. v.no_later_walk g (omega arith))
      (v.no_later_walk (s.load_gen + 1) (omega arith))
      (conclude_refresh_sound false begun refl refl)
refresh-IsSound (some selection) s v =
    begin_load-IsSound refreshing (some selection)
      (record s { paged = false; search_query = none; search_truncated = false; watching = false })
      v.no_later_walk refl (refl, refl)

pub next_page-IsSound :
    (selection : Option Selection) (s : Listing) → IsSound s → IsSound (next_page selection s)
unfolding next_page
next_page-IsSound selection s v = elim (Bool-cases (str_eq s.continue_token "")) [
  | inl t ↦ simp t v
  | inr f ↦ simp f (
      begin_load-IsSound paging selection
        (record s { paged = true; watch_degraded = true; watching = false }) v.no_later_walk refl
        refl)
]

pub begin_search-IsSound :
    (query : String) (s : Listing) → IsSound s → IsSound (begin_search query s)
unfolding begin_search purpose_of
begin_search-IsSound query s v = record {
  no_later_walk = λ g lt. ground (arith, v.no_later_walk g (omega arith));
  current = (let here : (s.load_gen + 1 == s.load_gen + 1) ≡ true = ground arith in simp here refl);
}
