-- ===== src/Polling/Counts.antt =====
-- web/src/composables/usePollingLoop.ts: counting the polls in flight, the gates and the timer.
use kube_console.Shared.{
  ℕ, ◌+◌, ◌-◌, ◌≤◌, ◌<◌, ◌≡◌, refl, Bool, true, false, List, [], ◌∷◌, Option, none, some, arith,
  leb, ◌==◌, if◌then◌else◌,
}
use kube_console.Polling.Loop.{Timer, Loop, pending, set_pending, delete_pending, has_one, leave}

pub pending-set_pending :
    (g n h : ℕ) (d : List (ℕ × ℕ))
    → pending h (set_pending g n d) ≡ (if g == h then n else pending h d)
unfolding pending set_pending
pending-set_pending g n h [] = ground arith
pending-set_pending g n h ((k, m) ∷ d) = ground (arith, pending-set_pending g n h d)

pub pending-delete_pending :
    (g h : ℕ) (d : List (ℕ × ℕ))
    → pending h (delete_pending g d) ≡ (if g == h then 0 else pending h d)
unfolding pending delete_pending
pending-delete_pending g h [] = ground arith
pending-delete_pending g h ((k, m) ∷ d) = ground (arith, pending-delete_pending g h d)

-- How many polls of a generation have not settled.
unfoldable pub count : ℕ → List ℕ → ℕ
count g [] = 0
count g (h ∷ hs) = let later = count g hs in if h == g then later + 1 else later

pub count-leave :
    (g h : ℕ) (hs : List ℕ) → count h (leave g hs) ≡ (if g == h then count h hs - 1 else count h hs)
unfolding count leave
count-leave g h [] = ground arith
count-leave g h (k ∷ hs) = ground (arith, count-leave g h hs)

pub has_one-count : (g : ℕ) (hs : List ℕ) → has_one g hs ≡ true → 0 < count g hs
unfolding count has_one
has_one-count g [] e = ground arith
has_one-count g (k ∷ hs) e = ground (arith, has_one-count g hs)

-- A timer counts as one poll to come, if it is of the generation.
unfoldable pub armed : ℕ → Option Timer → ℕ
armed g none = 0
armed g (some t) = if t.armed_for == g then 1 else 0

unfoldable pub one_if : Bool → ℕ
one_if true = 1
one_if false = 0

abbrev pub IsOwn : ℕ → Option Timer → Type 0
IsOwn g none = Unit
IsOwn g (some t) = t.armed_for ≡ g

pub record IsChained (s : Loop) : Type 0 where
  -- the map counts the polls in flight
  pub counted : (g : ℕ) → pending g s.in_flight ≡ count g s.ticks
  -- no poll and no gate is of a generation to come
  pub no_later_tick : (g : ℕ) → s.gen < g → count g s.ticks ≡ 0
  pub no_later_gate : (g : ℕ) → s.gen < g → count g s.gates ≡ 0
  pub own : IsOwn s.gen s.timer
  -- one poll to come, in a loop that is live
  pub chained : count s.gen s.ticks + armed s.gen s.timer ≡ one_if s.live
  -- a gate that has not settled goes with a loop that is not live yet
  pub gated : count s.gen s.gates + one_if s.live ≤ 1

pub run_tick-counted :
    (g : ℕ) (f : List (ℕ × ℕ)) (ticks : List ℕ)
    → ((h : ℕ) → pending h f ≡ count h ticks)
    → (h : ℕ) → pending h (set_pending g (pending g f + 1) f) ≡ count h (g ∷ ticks)
unfolding count
run_tick-counted g f ticks c h =
    ground (arith, pending-set_pending g (pending g f + 1) h f, c g, c h)

pub settle_tick-counted :
    (g : ℕ) (f : List (ℕ × ℕ)) (ticks : List ℕ)
    → ((h : ℕ) → pending h f ≡ count h ticks)
    → (h : ℕ)
    → pending h
        (if leb (pending g f - 1) 0 then delete_pending g f else set_pending g (pending g f - 1) f)
      ≡ count h (leave g ticks)
settle_tick-counted g f ticks c h = ground (
  arith,
  pending-set_pending g (pending g f - 1) h f,
  pending-delete_pending g h f,
  count-leave g h ticks,
  c g,
  c h,
)

pub count_other :
    (g h : ℕ) (ticks : List ℕ) → (g == h) ≡ false → count h (g ∷ ticks) ≡ count h ticks
unfolding count
count_other g h ticks e = simp e refl

pub count_self : (g : ℕ) (ticks : List ℕ) → count g (g ∷ ticks) ≡ count g ticks + 1
unfolding count
count_self g ticks = ground arith

pub count_later :
    (g gen : ℕ) (ticks : List ℕ)
    → g ≤ gen
    → ((h : ℕ) → gen < h → count h ticks ≡ 0)
    → (h : ℕ) → gen < h
    → count h (g ∷ ticks) ≡ 0
unfolding count
count_later g gen ticks le c h lt = ground (arith, c h lt)

pub leave_later :
    (g gen : ℕ) (ticks : List ℕ)
    → ((h : ℕ) → gen < h → count h ticks ≡ 0)
    → (h : ℕ) → gen < h
    → count h (leave g ticks) ≡ 0
leave_later g gen ticks c h lt = ground (arith, count-leave g h ticks, c h lt)
