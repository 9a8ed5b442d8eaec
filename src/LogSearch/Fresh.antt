-- ===== src/LogSearch/Fresh.antt =====
-- web/src/composables/useLogSearch.ts: the hits on screen are those of the whole log, in every state
-- that the user, the debounce timer and the stream can bring about.
use kube_console.Shared.{
  ℕ, ◌+◌, ◌-◌, ◌≤◌, ◌<◌, ◌≡◌, ◌≢◌, refl, sym, ◌∙◌, String, Bool, true, false, not, ◌||◌, List, [],
  ◌++◌, map, Option, none, some, arith, ltb, ◌==◌, str_eq, length, drop, Bool-cases, inl, inr,
  eq_iff, length-append, length-map, length-drop,
}
use kube_console.Shared.Text.{Text, is_blank}
use kube_console.LogSearch.Scan.{
  count_below, scan_lines, shift_and_scan, shift_and_scan-eq-scan_lines,
}
use kube_console.LogSearch.State.{
  Log, Search, compile_query, same_query, same_array, shift_active, init, rescan, shift, update,
  refresh, set_debounced, type_query, settle, next_active, jump, move, clear,
}

same_query_iff :
    (p q : Option String) → (same_query p q ≡ true → p ≡ q) × (p ≡ q → same_query p q ≡ true)
unfolding same_query
same_query_iff none none = ground arith
same_query_iff none (some r) = ground arith
same_query_iff (some q) none = ground arith
same_query_iff (some q) (some r) = ground (arith, eq_iff q r)

ltb-le : (a n : ℕ) → ltb a n ≡ false → n ≤ a
ltb-le a n h = ground arith

same_of_skip :
    (other : Bool) (l : Option ℕ) (a b : ℕ)
    → (other || not (same_array l b)) ≡ false
    → l ≡ some a
    → a ≡ b
same_of_skip other l a b f e = ground arith

next_active-lt : (forwards : Bool) (n : ℕ) (o : Option ℕ) → 0 < n → next_active forwards n o < n
unfolding next_active
next_active-lt true n none h = h
next_active-lt false n none h = omega arith
next_active-lt true n (some a) h = omega arith
next_active-lt false n (some a) h = omega arith

-- How the stream changes its log: a fresh array, or lines appended at the end of the same array and
-- as many dropped from its head as the counter says.
pub data Change (a b : Log) : Type 0 where
  restarted : a.array ≢ b.array → Change a b
  grown :
      (added : List Text)
      → a.array ≡ b.array
      → b.lines ≡ drop (b.dropped - a.dropped) (a.lines ++ added)
      → Change a b

-- A selection that points at a hit.
abbrev pub IsWithin : Option ℕ → ℕ → Type 0
IsWithin none n = Unit
IsWithin (some a) n = a < n

-- The bookkeeping is that of the log, where there is a query.
abbrev pub IsSynced : Option String → Log → Option ℕ → ℕ → ℕ → Type 0
IsSynced none log last_lines last_len last_dropped = Unit
IsSynced (some q) log last_lines last_len last_dropped =
    (last_lines ≡ some log.array) × (last_len ≡ length log.lines) × (last_dropped ≡ log.dropped)

module _ (test : String → Text → Bool) where
  -- All hits of the query, by a scan of the whole log.
  abbrev pub hits : Option String → Log → List ℕ
  hits none log = []
  hits (some q) log = scan_lines (test q) log.lines 0

  pub record IsFresh (log : Log) (s : Search) : Type 0 where
    pub found : s.matches ≡ hits (compile_query s.debounced) log
    pub within : IsWithin s.active (length s.matches)
    pub known : s.last_query ≡ compile_query s.debounced
    pub synced : IsSynced (compile_query s.debounced) log s.last_lines s.last_len s.last_dropped

  shift-IsWithin :
      (previous : List ℕ) (delta last_len : ℕ) (lines : List Text) (q : String) (active : Option ℕ)
      → IsWithin active (length previous)
      → IsWithin
          (shift_active (count_below delta previous) active)
          (length (shift_and_scan (test q) previous delta last_len lines))
  unfolding shift_and_scan
  shift-IsWithin previous delta last_len lines q none h = tt
  shift-IsWithin previous delta last_len lines q (some a) h =
      let removed = count_below delta previous in
      let tail = scan_lines (test q) lines (last_len - delta) in
      let kept = map (λ (i : ℕ). i - delta) (drop removed previous) in
      let size : length (kept ++ tail) ≡ length previous - removed + length tail = omega (
        arith,
        length-append kept tail,
        length-map (λ (i : ℕ). i - delta) (drop removed previous),
        length-drop removed previous,
      ) in
      elim (Bool-cases (ltb a removed)) [
        | inl t ↦ simp t tt
        | inr f ↦ simp f (rw size (omega (arith, ltb-le a removed f)))
      ]

  -- Whether the watch scans the whole log.
  abbrev scans_all : String → Log → Search → Bool
  scans_all q log s =
      not (same_query (some q) s.last_query) || not (same_array s.last_lines log.array)

  update-IsWithin :
      (o : Option String) (log : Log) (s : Search)
      → IsWithin s.active (length s.matches)
      → IsWithin (update test o log s).active (length (update test o log s).matches)
  unfolding update rescan shift
  update-IsWithin none log s h = tt
  update-IsWithin (some q) log s h = elim (Bool-cases (scans_all q log s)) [
    | inl t ↦ simp t tt
    | inr f ↦ simp f (shift-IsWithin s.matches _ s.last_len log.lines q s.active h)
  ]

  update-new :
      (o : Option String) (log : Log) (s : Search)
      → s.last_query ≢ o
      → (update test o log s).matches ≡ hits o log
  unfolding update rescan
  update-new none log s h = refl
  update-new (some q) log s h =
      let t : same_query (some q) s.last_query ≡ false =
        elim (Bool-cases (same_query (some q) s.last_query)) [
          | inl e ↦ absurd (h (sym ((same_query_iff (some q) s.last_query).0 e)))
          | inr e ↦ e
        ] in
      simp t refl

  shift-found :
      (q : String) (a b : Log) (s : Search)
      → s.matches ≡ hits (some q) a
      → s.last_len ≡ length a.lines
      → s.last_dropped ≡ a.dropped
      → a.array ≡ b.array
      → Change a b
      → (shift test q b s).matches ≡ hits (some q) b
  unfolding shift
  shift-found q a b s m len dropped same (restarted other) = absurd (other same)
  shift-found q a b s m len dropped same (grown added _ e) =
      simp (m, len, dropped, e) (shift_and_scan-eq-scan_lines (test q) a.lines added _)

  update-known :
      (o : Option String) (a b : Log) (s : Search)
      → s.matches ≡ hits o a
      → IsSynced o a s.last_lines s.last_len s.last_dropped
      → Change a b
      → (update test o b s).matches ≡ hits o b
  unfolding update rescan
  update-known none a b s m y c = refl
  update-known (some q) a b s m (array, len, dropped) c = elim (Bool-cases (scans_all q b s)) [
    | inl t ↦ simp t refl
    | inr f ↦
        simp f (
          shift-found q a b s m len dropped (same_of_skip _ s.last_lines a.array b.array f array) c)
  ]

  -- A refresh brings `last_query` and the rest in step with the log.
  refresh-IsSynced :
      (o : Option String) (log : Log)
      → IsSynced o log (some log.array) (length log.lines) log.dropped
  refresh-IsSynced none log = tt
  refresh-IsSynced (some q) log = (refl, refl, refl)

  update-debounced :
      (o : Option String) (log : Log) (s : Search) → (update test o log s).debounced ≡ s.debounced
  unfolding update rescan shift
  update-debounced none log s = refl
  update-debounced (some q) log s = elim (Bool-cases (scans_all q log s)) [
    | inl t ↦ simp t refl
    | inr f ↦ simp f refl
  ]

  refresh-IsFresh_of :
      (log : Log) (s : Search)
      → IsWithin s.active (length s.matches)
      → (update test (compile_query s.debounced) log s).matches
        ≡ hits (compile_query s.debounced) log
      → IsFresh log (refresh test log s)
  unfolding refresh
  refresh-IsFresh_of log s within found =
      let o = compile_query s.debounced in
      let same = update-debounced o log s in
      record {
        found = rw same found;
        within = update-IsWithin o log s within;
        known = rw same refl;
        synced = rw same (refresh-IsSynced o log);
      }

  -- The stream changes its log.
  refresh-IsFresh :
      (a b : Log) (s : Search) → IsFresh a s → Change a b → IsFresh b (refresh test b s)
  refresh-IsFresh a b s v c =
      refresh-IsFresh_of b s v.within (update-known _ a b s v.found v.synced c)

  changed :
      (value : String) (s : Search)
      → s.last_query ≡ compile_query s.debounced
      → same_query (compile_query value) (compile_query s.debounced) ≡ false
      → s.last_query ≡ compile_query value
      → ⊥
  changed value s known f e =
      cc ((same_query_iff (compile_query value) (compile_query s.debounced)).1 (sym e ∙ known))

  set_debounced-IsFresh :
      (log : Log) (value : String) (s : Search)
      → IsFresh log s
      → IsFresh log (set_debounced test log value s)
  unfolding set_debounced
  set_debounced-IsFresh log value s v =
      elim (Bool-cases (same_query (compile_query value) (compile_query s.debounced))) [
        | inl t ↦
            (let e = (same_query_iff (compile_query value) (compile_query s.debounced)).0 t in
              simp t (record {
                found = rw e v.found;
                within = v.within;
                known = rw e v.known;
                synced = rw e v.synced;
              }))
        | inr f ↦ simp f (
            refresh-IsFresh_of log (record s { debounced = value }) v.within
              (update-new _ log _ (λ e. changed value s v.known f e)))
      ]

  settle-IsFresh : (log : Log) (s : Search) → IsFresh log s → IsFresh log (settle test log s)
  unfolding settle
  settle-IsFresh log s v = elim (Bool-cases s.timer) [
    | inl t ↦ simp t (
        set_debounced-IsFresh log s.query (record s { timer = false })
          (record { found = v.found; within = v.within; known = v.known; synced = v.synced }))
    | inr f ↦ simp f v
  ]

  jump-IsFresh :
      (forwards : Bool) (log : Log) (s : Search) → IsFresh log s → IsFresh log (jump forwards s)
  unfolding jump
  jump-IsFresh forwards log s v = elim (Bool-cases (length s.matches == 0)) [
    | inl t ↦ simp t v
    | inr f ↦ simp f (record {
      found = v.found;
      within = next_active-lt forwards (length s.matches) s.active (ground arith);
      known = v.known;
      synced = v.synced;
    })
  ]

  type_query-IsFresh :
      (value : String) (log : Log) (s : Search) → IsFresh log s → IsFresh log (type_query value s)
  unfolding type_query
  type_query-IsFresh value log s v = elim (Bool-cases (str_eq value s.query)) [
    | inl t ↦ simp t v
    | inr f ↦
        simp f (record { found = v.found; within = v.within; known = v.known; synced = v.synced })
  ]

  clear-IsFresh : (log : Log) (s : Search) → IsFresh log s → IsFresh log (clear s)
  unfolding clear
  clear-IsFresh log s v =
      let w = type_query-IsFresh "" log s v in
      record { found = w.found; within = tt; known = w.known; synced = w.synced }

  -- What the user, the debounce timer and the stream can bring about, from the start.
  pub data Reach : Log → Search → Type 0 where
    opened : (log : Log) → Reach log init
    typed : {log : Log} {s : Search} (value : String) → Reach log s → Reach log (type_query value s)
    settled : {log : Log} {s : Search} → Reach log s → Reach log (settle test log s)
    moved :
        {log : Log} {s : Search} (forwards : Bool)
        → Reach log s
        → Reach log (move test forwards log s)
    cleared : {log : Log} {s : Search} → Reach log s → Reach log (clear s)
    streamed : {a b : Log} {s : Search} → Change a b → Reach a s → Reach b (refresh test b s)

  init-IsFresh : (log : Log) → IsFresh log init
  unfolding init compile_query is_blank
  init-IsFresh log = record { found = refl; within = tt; known = refl; synced = tt }

  Reach-IsFresh : {log : Log} {s : Search} → Reach log s → IsFresh log s
  unfolding move
  Reach-IsFresh (opened log) = init-IsFresh log
  Reach-IsFresh (typed {log = log} {s = s} value r) =
      type_query-IsFresh value log s (Reach-IsFresh r)
  Reach-IsFresh (settled {log = log} {s = s} r) = settle-IsFresh log s (Reach-IsFresh r)
  Reach-IsFresh (moved {log = log} {s = s} forwards r) =
      jump-IsFresh forwards log (settle test log s) (settle-IsFresh log s (Reach-IsFresh r))
  Reach-IsFresh (cleared {log = log} {s = s} r) = clear-IsFresh log s (Reach-IsFresh r)
  Reach-IsFresh (streamed {a = a} {b = b} {s = s} c r) = refresh-IsFresh a b s (Reach-IsFresh r) c

  -- In every state that can be reached the hits are those that a scan of the whole log for the query
  -- finds, and the cursor, if there is one, stands on one of them.
  pub hits_are_fresh :
      (log : Log) (s : Search)
      → Reach log s
      → (s.matches ≡ hits (compile_query s.debounced) log) × IsWithin s.active (length s.matches)
  hits_are_fresh log s r = let v = Reach-IsFresh r in (v.found, v.within)
