-- ===== src/ResourceList/Complete.antt =====
-- web/src/composables/useResourceList.ts: the watch runs over a complete collection only.
use kube_console.Shared.{
  ℕ, ◌≡◌, ◌≢◌, refl, ap, ◌∙◌, ◌++◌, ◌⊎◌, Bool, true, false, not, ◌||◌, List, [], ◌∷◌, Option, none,
  some, String, arith, str_eq, eq_iff, if◌then◌else◌, is_none, Bool-cases, inl, inr,
}
use kube_console.ResourceList.Rows.{Event, handle_event, handle_events}
use kube_console.Gateway.Walk.{ok, Walk}
use kube_console.ResourceList.Origin.{sent, listed_by, step-Goes}
use kube_console.ResourceList.Loads.{
  Purpose, refreshing, paging, searching, Selection, Listing, refresh, is_view_complete,
  search_all_by_name, purpose_of, context_changes, Action, refreshes, pages, searches, settles,
  watch_sends, watch_is_stale, watch_reconnects, switches, builds_url, step, run, unloaded,
}
use kube_console.ResourceList.Sound.{
  Flies, IsSound, is_complete, handle_event-version, refresh-IsSound, next_page-IsSound,
  begin_search-IsSound,
}
use kube_console.ResourceList.Settled.{settle_walk-IsSound}

sends-IsSound :
    (e : Event) (b : Bool) (s : Listing)
    → s.watching ≡ b
    → IsSound s
    → IsSound (if b then record s { collection = handle_event e s.collection } else s)
unfolding is_complete
sends-IsSound e false s t v = v
sends-IsSound e true s t v = record {
  no_later_walk = v.no_later_walk;
  current = live (purpose_of s.load_gen s.walks) v.current;
}
  where
    live :
        (o : Option Purpose)
        → Flies o s
        → Flies o (record s { collection = handle_event e s.collection })
    live none fl = ground (arith, t, fl, handle_event-version e s.collection)
    live (some refreshing) fl = cc
    live (some paging) fl = cc
    live (some searching) fl = cc

reconnects-IsSound :
    (has_ref b : Bool) (s : Listing)
    → s.watching ≡ b
    → IsSound s
    → IsSound (if b then record s { watching = builds_url has_ref s } else s)
unfolding is_complete
reconnects-IsSound has_ref false s t v = v
reconnects-IsSound has_ref true s t v = record {
  no_later_walk = v.no_later_walk;
  current = ends (purpose_of s.load_gen s.walks) v.current;
}
  where
    ends : (o : Option Purpose) → Flies o s → Flies o (record s { watching = builds_url has_ref s })
    ends none fl = elim (Bool-cases (builds_url has_ref s)) [
      | inl e ↦ simp e (kept (is_complete s) fl)
      | inr e ↦ simp e refl
    ]
      where
        kept : (b : Bool) → (not s.watching || b) ≡ true → b ≡ true
        kept b h = ground (arith, t, h)
    ends (some refreshing) fl = cc
    ends (some paging) fl = cc
    ends (some searching) fl = cc

stopped-IsSound : (s : Listing) → IsSound s → IsSound (record s { watching = false })
stopped-IsSound s v = record {
  no_later_walk = v.no_later_walk;
  current = still (purpose_of s.load_gen s.walks) v.current;
}
  where
    still : (o : Option Purpose) → Flies o s → Flies o (record s { watching = false })
    still none fl = refl
    still (some refreshing) fl = (refl, fl.1)
    still (some paging) fl = refl
    still (some searching) fl = refl

-- The events that the watch brings in some actions.
unfoldable pub events_of : List Action → List Event
events_of [] = []
events_of (a ∷ actions) = sent a (events_of actions)

module _ (trim lower : String → String) where
  search-IsSound :
      (query : String) (selection : Option Selection) (s : Listing)
      → IsSound s
      → IsSound (search_all_by_name trim lower query selection s)
  unfolding search_all_by_name
  search-IsSound query selection s v = elim (Bool-cases (str_eq (lower (trim query)) "")) [
    | inl t ↦ simp t (refresh-IsSound selection s v)
    | inr f ↦ elim (Bool-cases (is_view_complete s)) [
      | inl t ↦ simp (f, t) v
      | inr g ↦ elim (Bool-cases (is_none selection)) [
        | inl t ↦ simp (f, g, t) v
        | inr h ↦ simp (f, g, h) (begin_search-IsSound (trim query) s v)
      ]
    ]
  ]

  stale-IsSound :
      (b : Bool) (selection : Option Selection) (s : Listing)
      → IsSound s
      → IsSound (if b then refresh selection (record s { watching = false }) else s)
  stale-IsSound true selection s v =
      refresh-IsSound selection (record s { watching = false }) (stopped-IsSound s v)
  stale-IsSound false selection s v = v

  switched-IsSound :
      (b : Bool) (selection : Option Selection) (s : Listing)
      → IsSound s
      → IsSound (context_changes b selection s)
  unfolding context_changes
  switched-IsSound true selection s v =
      refresh-IsSound selection (record s { watching = false }) (stopped-IsSound s v)
  switched-IsSound false selection s v = stopped-IsSound s v

  step-IsSound : (a : Action) (s : Listing) → IsSound s → IsSound (step trim lower a s)
  unfolding step
  step-IsSound (refreshes selection) s v = refresh-IsSound selection s v
  step-IsSound (pages selection) s v = next_page-IsSound selection s v
  step-IsSound (searches query selection) s v = search-IsSound query selection s v
  step-IsSound (settles g has_ref r) s v =
      settle_walk-IsSound g (purpose_of g s.walks) has_ref r s refl v
  step-IsSound (watch_sends e) s v = sends-IsSound e s.watching s refl v
  step-IsSound (watch_is_stale selection) s v = stale-IsSound s.watching selection s v
  step-IsSound (watch_reconnects has_ref) s v = reconnects-IsSound has_ref s.watching s refl v
  step-IsSound (switches authenticated selection) s v = switched-IsSound authenticated selection s v

  run-IsSound :
      (actions : List Action) (s : Listing) → IsSound s → IsSound (run trim lower actions s)
  unfolding run
  run-IsSound [] s v = v
  run-IsSound (a ∷ actions) s v = run-IsSound actions (step trim lower a s) (step-IsSound a s v)

  unloaded-IsSound : IsSound unloaded
  unfolding purpose_of
  unloaded-IsSound = record { no_later_walk = λ g lt. refl; current = refl }

  -- The watch ran all along.
  abbrev Watched : Listing → List Action → Listing → Type 0
  Watched s actions t =
      (s.watching ≡ true)
      × (t.loading ≡ s.loading)
      × (t.collection ≡ handle_events (events_of actions) s.collection)

  -- What is on screen after the actions is what a refresh has listed, and the events since then.
  abbrev pub IsFrom : Listing → List Action → Listing → Type 0
  IsFrom s actions t =
      (first : List Action) × (g : ℕ) × (has_ref : Bool) × (w : Walk) × (after : List Action)
      × (actions ≡ first ++ settles g has_ref (ok w) ∷ after)
      × (purpose_of g (run trim lower first s).walks ≡ some refreshing)
      × ((run trim lower first s).load_gen ≡ g)
      × (w.cont ≡ "")
      × (t.loading ≡ false)
      × (t.collection ≡ handle_events (events_of after) (listed_by w))

  -- From a sound state: the watch ran all along, or the last refresh that settled as the current one
  -- started it.
  run-Goes :
      (actions : List Action) (s : Listing)
      → IsSound s
      → (run trim lower actions s).watching ≡ true
      → Watched s actions (run trim lower actions s) ⊎ IsFrom s actions (run trim lower actions s)
  unfolding run events_of handle_events
  run-Goes [] s v on = inl (on, refl, refl)
  run-Goes (a ∷ actions) s v on =
      elim (run-Goes actions (step trim lower a s) (step-IsSound a s v) on) [
        | inl (began, loads, shows) ↦ elim (step-Goes trim lower a s v began) [
          | inl (ran, still, brings) ↦ inl (ran, loads ∙ still, shows ∙ brings (events_of actions))
          | inr (g, has_ref, w, is, own, current, token, idle, lists) ↦ inr (
            [],
            g,
            has_ref,
            w,
            actions,
            ap (λ b. b ∷ actions) is,
            own,
            current,
            token,
            loads ∙ idle,
            shows ∙ ap (handle_events (events_of actions)) lists,
          )
        ]
        | inr (first, g, has_ref, w, after, is, own, current, token, idle, shows) ↦
            inr (
              a ∷ first,
              g,
              has_ref,
              w,
              after,
              ap (λ l. a ∷ l) is,
              own,
              current,
              token,
              idle,
              shows,
            )
      ]

  -- Whatever refreshes, pages, searches, watch events, reconnects and context switches come, and in
  -- whatever order their walks settle: while the watch runs, the list on screen came from a refresh
  -- that was the current load when its walk returned, with no token left, and that walk's rows and
  -- version, followed by the events of the watch since then, are the collection on screen. The list
  -- is then no page and no search, is not loading, shows no error, has a version to watch from, and
  -- is not shown as degraded.
  pub watch_needs_whole_collection :
      (actions : List Action)
      → (run trim lower actions unloaded).watching ≡ true
      → let s = run trim lower actions unloaded in
        IsFrom unloaded actions s
        × (s.paged ≡ false)
        × (s.continue_token ≡ "")
        × (s.error ≡ none)
        × (s.collection.resource_version ≢ "")
        × (s.watch_degraded ≡ false)
  unfolding is_complete
  watch_needs_whole_collection actions w =
      let s = run trim lower actions unloaded in
      let v = run-IsSound actions unloaded unloaded-IsSound in
      let (unpaged, token, clean, version, live) =
        whole s (purpose_of s.load_gen s.walks) w v.current in
      (
        elim (run-Goes actions unloaded unloaded-IsSound w) [
          | inl (ran, loads, shows) ↦ cc
          | inr from ↦ from
        ],
        unpaged,
        token,
        clean,
        version,
        live,
      )
    where
      whole :
          (s : Listing) (o : Option Purpose)
          → s.watching ≡ true
          → Flies o s
          → (s.paged ≡ false)
            × (s.continue_token ≡ "")
            × (s.error ≡ none)
            × (s.collection.resource_version ≢ "")
            × (s.watch_degraded ≡ false)
      whole s none w fl =
          ground (arith, w, fl, eq_iff s.continue_token "", eq_iff s.collection.resource_version "")
      whole s (some refreshing) w fl = cc
      whole s (some paging) w fl = cc
      whole s (some searching) w fl = cc
