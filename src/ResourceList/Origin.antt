-- ===== src/ResourceList/Origin.antt =====
-- web/src/composables/useResourceList.ts: what a step leaves of a watched list, and which step starts a watch.
use kube_console.Shared.{
  ℕ, ◌≡◌, refl, ap, ◌∙◌, Bool, true, false, not, ◌&&◌, List, [], ◌∷◌, Option, none, some, String,
  arith, str_eq, eq_iff, ◌==◌, if◌then◌else◌, is_none, Bool-cases, ◌⊎◌, inl, inr,
}
use kube_console.ResourceList.Rows.{Collection, set_rows, Event, handle_event, handle_events}
use kube_console.Gateway.Walk.{Result, ok, err, Walk}
use kube_console.ResourceList.Loads.{
  Purpose, refreshing, paging, searching, Selection, Listing, Thrown, begin_load, builds_url,
  conclude_refresh, refresh, next_page, begin_search, is_view_complete, search_all_by_name,
  finish_load, finish_search, finish, purpose_of, without, settle_walk, context_changes, Action,
  refreshes, pages, searches, settles, watch_sends, watch_is_stale, watch_reconnects, switches,
  step,
}
use kube_console.ResourceList.Sound.{Flies, IsSound}

-- The collection that a walk has listed.
unfoldable pub listed_by : Walk → Collection
listed_by w =
    set_rows w.rows (record { rows = []; index_by_key = []; resource_version = w.resource_version })

-- The events that an action brings, in front of later ones.
unfoldable pub sent : Action → List Event → List Event
sent (watch_sends e) es = e ∷ es
sent _ es = es

-- The action is the walk of the current refresh, which settles with a whole collection.
abbrev pub Begins : Action → Listing → Listing → Type 0
Begins a s t =
    (g : ℕ) × (has_ref : Bool) × (w : Walk) × (a ≡ settles g has_ref (ok w))
    × (purpose_of g s.walks ≡ some refreshing)
    × (s.load_gen ≡ g)
    × (w.cont ≡ "")
    × (t.loading ≡ false)
    × (t.collection ≡ listed_by w)

-- The watch ran before the action, which brings no more than its events.
abbrev pub Goes : Action → Listing → Listing → Type 0
Goes a s t =
    (s.watching ≡ true)
    × (t.loading ≡ s.loading)
    × ((es : List Event) → handle_events es t.collection ≡ handle_events (sent a es) s.collection)

refresh-off : (selection : Option Selection) (s : Listing) → (refresh selection s).watching ≡ false
unfolding refresh begin_load conclude_refresh builds_url
refresh-off none s = ground arith
refresh-off (some selection) s = refl

begin_load-off :
    (p : Purpose) (selection : Option Selection) (s : Listing)
    → (begin_load p selection s).watching ≡ s.watching
unfolding begin_load
begin_load-off p none s = refl
begin_load-off p (some selection) s = refl

next_page-Goes :
    (selection : Option Selection) (s : Listing)
    → (next_page selection s).watching ≡ true
    → Goes (pages selection) s (next_page selection s)
unfolding next_page sent
next_page-Goes selection s on = elim (Bool-cases (str_eq s.continue_token "")) [
  | inl t ↦ simp t (simp t at on, refl, λ es. refl)
  | inr f ↦
      let off =
        begin_load-off paging selection
          (record s { paged = true; watch_degraded = true; watching = false }) in
      absurd (ground (arith, off, simp f at on))
]

module _ (trim lower : String → String) where
  search-Goes :
      (query : String) (selection : Option Selection) (s : Listing)
      → (search_all_by_name trim lower query selection s).watching ≡ true
      → Goes (searches query selection) s (search_all_by_name trim lower query selection s)
  unfolding search_all_by_name sent begin_search
  search-Goes query selection s on = elim (Bool-cases (str_eq (lower (trim query)) "")) [
    | inl t ↦ absurd (ground (arith, refresh-off selection s, simp t at on))
    | inr f ↦ elim (Bool-cases (is_view_complete s)) [
      | inl t ↦ simp (f, t) (simp (f, t) at on, refl, λ es. refl)
      | inr g ↦ elim (Bool-cases (is_none selection)) [
        | inl t ↦ simp (f, g, t) (simp (f, g, t) at on, refl, λ es. refl)
        | inr h ↦ absurd (ground (arith, simp (f, g, h) at on))
      ]
    ]
  ]

concluded-token :
    (has_ref : Bool) (s : Listing)
    → s.watching ≡ false
    → (conclude_refresh has_ref s).watching ≡ true
    → (s.continue_token ≡ "")
      × ((conclude_refresh has_ref s).collection ≡ s.collection)
      × ((conclude_refresh has_ref s).loading ≡ s.loading)
      × (s.error ≡ none)
unfolding conclude_refresh
concluded-token has_ref s off on =
    elim (Bool-cases (
      is_none s.error
      && not (str_eq s.collection.resource_version "")
      && str_eq s.continue_token "")) [
        | inl t ↦
            simp t (ground (arith, t, eq_iff s.continue_token ""), refl, refl, ground (arith, t))
        | inr f ↦ absurd (ground (arith, off, simp f at on))
      ]

-- The walk of the current load settles.
finish-Begins :
    (p : Purpose) (g : ℕ) (has_ref : Bool) (r : Result Thrown Walk) (s rest : Listing)
    → purpose_of g s.walks ≡ some p
    → s.load_gen ≡ g
    → rest.watching ≡ false
    → (finish p has_ref r rest).watching ≡ true
    → Begins (settles g has_ref r) s (finish p has_ref r rest)
unfolding finish finish_load finish_search listed_by set_rows
finish-Begins refreshing g has_ref (ok w) s rest own is off on =
    let (token, same, loads, clean) = concluded-token has_ref (finish_load (ok w) rest) off on in
    (g, has_ref, w, refl, own, is, token, loads, same)
finish-Begins refreshing g has_ref (err e) s rest own is off on =
    let (token, same, loads, clean) = concluded-token has_ref (finish_load (err e) rest) off on in
    absurd (ground (arith, clean))
finish-Begins paging g has_ref (ok w) s rest own is off on = cc
finish-Begins paging g has_ref (err e) s rest own is off on = cc
finish-Begins searching g has_ref (ok w) s rest own is off on = cc
finish-Begins searching g has_ref (err e) s rest own is off on = cc

in_flight-off :
    (p : Purpose) (o : Option Purpose) (s : Listing) → o ≡ some p → Flies o s → s.watching ≡ false
in_flight-off p none s e fl = cc
in_flight-off p (some refreshing) s e fl = fl.0
in_flight-off p (some paging) s e fl = fl
in_flight-off p (some searching) s e fl = fl

settled :
    (g : ℕ) (o : Option Purpose) (has_ref : Bool) (r : Result Thrown Walk) (s : Listing)
    → purpose_of g s.walks ≡ o
    → IsSound s
    → (settle_walk g o has_ref r s).watching ≡ true
    → Goes (settles g has_ref r) s (settle_walk g o has_ref r s)
      ⊎ Begins (settles g has_ref r) s (settle_walk g o has_ref r s)
unfolding settle_walk sent
settled g none has_ref r s e v on = inl (on, refl, λ es. refl)
settled g (some p) has_ref r s e v on = elim (Bool-cases (g == s.load_gen)) [
  | inl t ↦
      let same : s.load_gen ≡ g = ground (arith, t) in
      let rest = record s { walks = without g s.walks } in
      let off =
        in_flight-off p (purpose_of s.load_gen s.walks) s (ap (λ n. purpose_of n s.walks) same ∙ e)
          v.current in
      simp t (inr (finish-Begins p g has_ref r s rest e same off (simp t at on)))
  | inr f ↦ simp f (inl (simp f at on, refl, λ es. refl))
]

sends-Goes :
    (e : Event) (b : Bool) (s : Listing)
    → s.watching ≡ b
    → (if b then record s { collection = handle_event e s.collection } else s).watching ≡ true
    → Goes
        (watch_sends e)
        s
        (if b then record s { collection = handle_event e s.collection } else s)
unfolding sent handle_events
sends-Goes e true s t on = (t, refl, λ es. refl)
sends-Goes e false s t on = cc

reconnects-Goes :
    (has_ref b : Bool) (s : Listing)
    → s.watching ≡ b
    → (if b then record s { watching = builds_url has_ref s } else s).watching ≡ true
    → Goes
        (watch_reconnects has_ref)
        s
        (if b then record s { watching = builds_url has_ref s } else s)
unfolding sent
reconnects-Goes has_ref true s t on = (t, refl, λ es. refl)
reconnects-Goes has_ref false s t on = cc

stale-off :
    (b : Bool) (selection : Option Selection) (s : Listing)
    → s.watching ≡ b
    → (if b then refresh selection (record s { watching = false }) else s).watching ≡ false
stale-off true selection s t = refresh-off selection (record s { watching = false })
stale-off false selection s t = t

switched-off :
    (b : Bool) (selection : Option Selection) (s : Listing)
    → (context_changes b selection s).watching ≡ false
unfolding context_changes
switched-off true selection s = refresh-off selection (record s { watching = false })
switched-off false selection s = refl

-- After a step with the watch running, either it ran before and the step brings its events only, or the
-- step is the end of the current refresh, over a whole collection.
pub step-Goes :
    (trim lower : String → String) (a : Action) (s : Listing)
    → IsSound s
    → (step trim lower a s).watching ≡ true
    → Goes a s (step trim lower a s) ⊎ Begins a s (step trim lower a s)
unfolding step
step-Goes trim lower (refreshes selection) s v on =
    absurd (ground (arith, on, refresh-off selection s))
step-Goes trim lower (pages selection) s v on = inl (next_page-Goes selection s on)
step-Goes trim lower (searches query selection) s v on =
    inl (search-Goes trim lower query selection s on)
step-Goes trim lower (settles g has_ref r) s v on =
    settled g (purpose_of g s.walks) has_ref r s refl v on
step-Goes trim lower (watch_sends e) s v on = inl (sends-Goes e s.watching s refl on)
step-Goes trim lower (watch_is_stale selection) s v on =
    absurd (ground (arith, on, stale-off s.watching selection s refl))
step-Goes trim lower (watch_reconnects has_ref) s v on =
    inl (reconnects-Goes has_ref s.watching s refl on)
step-Goes trim lower (switches authenticated selection) s v on =
    absurd (ground (arith, on, switched-off authenticated selection s))
