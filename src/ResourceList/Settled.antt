-- ===== src/ResourceList/Settled.antt =====
-- web/src/composables/useResourceList.ts: a walk that settles, current or superseded.
use kube_console.Shared.{
  ℕ, ◌<◌, ◌≡◌, refl, sym, ap, ◌∙◌, Bool, Option, none, some, arith, ◌==◌, Bool-cases, inl, inr,
}
use kube_console.Gateway.Walk.{Result, ok, err, Walk}
use kube_console.ResourceList.Loads.{
  Purpose, refreshing, paging, searching, Listing, Thrown, finish_load, finish_search, finish,
  purpose_of, without, settle_walk,
}
use kube_console.ResourceList.Sound.{
  Flies, IsSound, is_complete, purpose_of-without, conclude_refresh_sound, conclude_refresh-walks,
  idle-IsSound,
}

-- What a walk of the current generation leaves, whatever its purpose.
finish-Flies :
    (p : Purpose) (has_ref : Bool) (r : Result Thrown Walk) (s : Listing)
    → Flies (some p) s
    → Flies none (finish p has_ref r s)
unfolding finish finish_load finish_search
finish-Flies refreshing has_ref (ok w) s (off, unpaged) =
    conclude_refresh_sound has_ref (finish_load (ok w) s) off unpaged
finish-Flies refreshing has_ref (err e) s (off, unpaged) =
    conclude_refresh_sound has_ref (finish_load (err e) s) off unpaged
finish-Flies paging has_ref (ok w) s off = ground (arith, off)
finish-Flies paging has_ref (err e) s off = ground (arith, off)
finish-Flies searching has_ref (ok w) s off = ground (arith, off)
finish-Flies searching has_ref (err e) s off = ground (arith, off)

finish-walks :
    (p : Purpose) (has_ref : Bool) (r : Result Thrown Walk) (s : Listing)
    → ((finish p has_ref r s).walks ≡ s.walks) × ((finish p has_ref r s).load_gen ≡ s.load_gen)
unfolding finish finish_load finish_search
finish-walks refreshing has_ref (ok w) s = conclude_refresh-walks has_ref (finish_load (ok w) s)
finish-walks refreshing has_ref (err e) s = conclude_refresh-walks has_ref (finish_load (err e) s)
finish-walks paging has_ref (ok w) s = (refl, refl)
finish-walks paging has_ref (err e) s = (refl, refl)
finish-walks searching has_ref (ok w) s = (refl, refl)
finish-walks searching has_ref (err e) s = (refl, refl)

without_later :
    (g h : ℕ) (s : Listing) → IsSound s → s.load_gen < h → purpose_of h (without g s.walks) ≡ none
without_later g h s v lt = ground (arith, purpose_of-without g h s.walks, v.no_later_walk h)

pub settle_walk-IsSound :
    (g : ℕ) (o : Option Purpose) (has_ref : Bool) (r : Result Thrown Walk) (s : Listing)
    → purpose_of g s.walks ≡ o
    → IsSound s
    → IsSound (settle_walk g o has_ref r s)
unfolding settle_walk is_complete
settle_walk-IsSound g none has_ref r s e v = v
settle_walk-IsSound g (some p) has_ref r s e v = elim (Bool-cases (g == s.load_gen)) [
  | inl t ↦
      let same : g ≡ s.load_gen = ground (arith, t) in
      let rest = record s { walks = without g s.walks } in
      simp t (
        idle-IsSound (finish p has_ref r rest) s.load_gen (without g s.walks)
          (finish-walks p has_ref r rest) (λ h lt. without_later g h s v lt)
          (purpose_of-without g s.load_gen s.walks ∙ simp t refl)
          (finish-Flies p has_ref r rest
            (of_current p (sym (ap (λ n. purpose_of n s.walks) same) ∙ e))))
  | inr f ↦
      let other : purpose_of s.load_gen (without g s.walks) ≡ purpose_of s.load_gen s.walks =
        purpose_of-without g s.load_gen s.walks ∙ simp f refl in
      simp f (record {
        no_later_walk = λ h lt. without_later g h s v lt;
        current = rw other (moved (purpose_of s.load_gen s.walks) v.current);
      })
]
  where
    moved : (o : Option Purpose) → Flies o s → Flies o (record s { walks = without g s.walks })
    moved none fl = fl
    moved (some refreshing) fl = fl
    moved (some paging) fl = fl
    moved (some searching) fl = fl

    of_current :
        (p : Purpose)
        → purpose_of s.load_gen s.walks ≡ some p
        → Flies (some p) (record s { walks = without g s.walks })
    of_current p here = moved (some p) (rw here at v.current)
