-- ===== src/Coordinator/Events/Order.antt =====
-- Laws of the event history of src/shared/work-coordinator.ts: order, bounds and paging.
use mathlib.Core.Path.{subst, subst⁻¹}
use native.Mathlib.Decide.{dec_lt}
use dex_reach.Common.{
  ℕ, zero, suc, ◌+◌, ◌-◌, ◌≤◌, ◌<◌, ◌≡◌, ◌≢◌, refl, sym, ap, ◌∙◌, some, List, [], ◌∷◌, ◌++◌, length,
  take, drop, select, length-append, length-drop, ltb, ltb_lt, min, max, Bool-cases, arith, ◌⊎◌,
  inl, inr,
}
use dex_reach.Coordinator.{insert_sorted, sort_by}
use dex_reach.Coordinator.Events.{
  WorkEvent, EventInput, cursor_le, stored_work_events, last_cursor, valid_work_event,
  record_work_event, take_last, read_work_events, history_limit, event_page_limit,
}

-- Cursors above `n`, each above the one before.
abbrev pub Above : ℕ → List WorkEvent → Type 0
Above n [] = Unit
Above n (e ∷ es) = (n < e.cursor) × Above e.cursor es

abbrev pub IsOrdered : List WorkEvent → Type 0
IsOrdered es = Above 0 es

Above-weaken : (m n : ℕ) (es : List WorkEvent) → m ≤ n → Above n es → Above m es
Above-weaken m n [] h a = tt
Above-weaken m n (e ∷ es) h a = (omega arith, a.1)

insert_sorted-front :
    (e : WorkEvent) (es : List WorkEvent)
    → Above e.cursor es
    → insert_sorted cursor_le e es ≡ e ∷ es
unfolding insert_sorted
insert_sorted-front e [] a = refl
insert_sorted-front e (f ∷ es) a = ground arith

sort_by-Above : (n : ℕ) (es : List WorkEvent) → Above n es → sort_by cursor_le es ≡ es
unfolding sort_by
sort_by-Above n [] a = refl
sort_by-Above n (e ∷ es) a = rw (sort_by-Above e.cursor es a.1) (insert_sorted-front e es a.1)

pub stored-IsOrdered : (es : List WorkEvent) → IsOrdered es → stored_work_events es ≡ es
unfolding stored_work_events
stored-IsOrdered es a = sort_by-Above 0 es a

abbrev end_cursor : ℕ → List WorkEvent → ℕ
end_cursor n [] = n
end_cursor n (e ∷ es) = end_cursor e.cursor es

end_cursor-last :
    (n : ℕ) (e : WorkEvent) (es : List WorkEvent) → end_cursor n (e ∷ es) ≡ last_cursor (e ∷ es)
end_cursor-last n e [] = refl
end_cursor-last n e (f ∷ es) = end_cursor-last e.cursor f es

last_cursor-end : (es : List WorkEvent) → last_cursor es ≡ end_cursor 0 es
last_cursor-end [] = refl
last_cursor-end (e ∷ es) = sym (end_cursor-last 0 e es)

Above-snoc :
    (n : ℕ) (es : List WorkEvent) (e : WorkEvent)
    → Above n es
    → end_cursor n es < e.cursor
    → Above n (es ++ e ∷ [])
Above-snoc n [] e a h = (h, tt)
Above-snoc n (f ∷ es) e a h = (a.0, Above-snoc f.cursor es e a.1 h)

end_cursor-snoc :
    (n : ℕ) (es : List WorkEvent) (e : WorkEvent) → end_cursor n (es ++ e ∷ []) ≡ e.cursor
end_cursor-snoc n [] e = refl
end_cursor-snoc n (f ∷ es) e = end_cursor-snoc f.cursor es e

Above-drop : (k n : ℕ) (es : List WorkEvent) → Above n es → Above n (drop k es)
Above-drop zero n es a = a
Above-drop (suc k) n [] a = a
Above-drop (suc k) n (e ∷ es) a = Above-drop k n es (Above-weaken n e.cursor es (omega arith) a.1)

end_cursor-drop :
    (k n : ℕ) (es : List WorkEvent) → k < length es → end_cursor n (drop k es) ≡ end_cursor n es
end_cursor-drop zero n es h = refl
end_cursor-drop (suc k) n [] h = absurd (omega arith)
end_cursor-drop (suc k) n (e ∷ []) h = absurd (omega arith)
end_cursor-drop (suc k) n (e ∷ f ∷ es) h = end_cursor-drop k n (f ∷ es) (omega arith)

valid_work_event-cursor :
    (i : EventInput) (c at : ℕ) {e : WorkEvent} → valid_work_event i c at ≡ some e → e.cursor ≡ c
unfolding valid_work_event
valid_work_event-cursor i c at h = ground arith

record-cases :
    (i : EventInput) (at : ℕ) (h h' : List WorkEvent) (e : WorkEvent)
    → record_work_event i at h ≡ some (h', e)
    → (valid_work_event i (last_cursor (stored_work_events h) + 1) at ≡ some e)
      × (h' ≡ take_last history_limit (stored_work_events h ++ e ∷ []))
unfolding record_work_event
record-cases i at h h' e r = (ground arith, ground arith)

kept_or_full :
    (h : List WorkEvent) (e : WorkEvent) {h' : List WorkEvent}
    → h' ≡ drop (length (h ++ e ∷ []) - 200) (h ++ e ∷ [])
    → length h ≤ 200
    → (h' ≡ h ++ e ∷ []) ⊎ (length h ≡ 200)
kept_or_full h e next short = elim (dec_lt (length h) 200) [
  | yes room ↦
      let none_out : length (h ++ e ∷ []) - 200 ≡ 0 = omega (arith, length-append h (e ∷ [])) in
      inl (next ∙ ap (λ k. drop k (h ++ e ∷ [])) none_out)
  | no full ↦ inr (omega arith)
]

-- Recording an event in an ordered history of at most 200 events gives it the next cursor and puts it
-- last; the new history is ordered, holds at most 200 events, and drops none while there is room.
pub record_work_event-IsOrdered :
    (i : EventInput) (at : ℕ) (h h' : List WorkEvent) (e : WorkEvent)
    → IsOrdered h
    → length h ≤ 200
    → record_work_event i at h ≡ some (h', e)
    → IsOrdered h'
      × (length h' ≤ 200)
      × (e.cursor ≡ last_cursor h + 1)
      × (last_cursor h' ≡ e.cursor)
      × ((h' ≡ h ++ e ∷ []) ⊎ (length h ≡ 200))
record_work_event-IsOrdered i at h h' e o short r =
    let (valid, same) = record-cases i at h h' e r in
    let stored = stored-IsOrdered h o in
    let cursor : e.cursor ≡ last_cursor h + 1 =
      valid_work_event-cursor i _ at valid ∙ ap (λ s. last_cursor s + 1) stored in
    let next : h' ≡ drop (length (h ++ e ∷ []) - 200) (h ++ e ∷ []) =
      same ∙ ap (λ s. take_last history_limit (s ++ e ∷ [])) stored in
    let size = length-append h (e ∷ []) in
    let ordered = Above-snoc 0 h e o (omega (arith, last_cursor-end h)) in
    (
      subst⁻¹ IsOrdered next (Above-drop (length (h ++ e ∷ []) - 200) 0 (h ++ e ∷ []) ordered),
      rw next (omega (arith, length-drop (length (h ++ e ∷ []) - 200) (h ++ e ∷ []))),
      cursor,
      ap last_cursor next
          ∙ last_cursor-end (drop (length (h ++ e ∷ []) - 200) (h ++ e ∷ []))
          ∙ end_cursor-drop (length (h ++ e ∷ []) - 200) 0 (h ++ e ∷ []) (omega arith)
          ∙ end_cursor-snoc 0 h e,
      kept_or_full h e next short,
    )

abbrev pub after_cursor : ℕ → List WorkEvent → List WorkEvent
after_cursor a es = select (λ (e : WorkEvent). ltb a e.cursor) es

after_cursor-all : (a : ℕ) (es : List WorkEvent) → Above a es → after_cursor a es ≡ es
after_cursor-all a [] h = refl
after_cursor-all a (e ∷ es) h =
    ground (arith, after_cursor-all a es (Above-weaken a e.cursor es (omega arith) h.1))

Above-after_cursor : (a n : ℕ) (es : List WorkEvent) → Above n es → Above a (after_cursor a es)
Above-after_cursor a n [] h = tt
Above-after_cursor a n (e ∷ es) h = elim (Bool-cases (ltb a e.cursor)) [
  | inl t ↦
      let above = ltb_lt a e.cursor t in
      rw t (
        omega (arith, above),
        rw (after_cursor-all a es (Above-weaken a e.cursor es (omega (arith, above)) h.1)) h.1,
      )
  | inr f ↦ rw f (Above-after_cursor a e.cursor es h.1)
]

after_cursor-twice :
    (a c : ℕ) (es : List WorkEvent) → a ≤ c → after_cursor c (after_cursor a es) ≡ after_cursor c es
after_cursor-twice a c [] h = refl
after_cursor-twice a c (e ∷ es) h = ground (arith, after_cursor-twice a c es h)

le-end_cursor : (a : ℕ) (n : ℕ) (es : List WorkEvent) → Above a es → a ≤ end_cursor a (take n es)
le-end_cursor a zero es h = omega arith
le-end_cursor a (suc n) [] h = omega arith
le-end_cursor a (suc n) (e ∷ es) h = omega (arith, le-end_cursor e.cursor n es h.1)

after_cursor-take :
    (a n : ℕ) (es : List WorkEvent)
    → Above a es
    → after_cursor (end_cursor a (take n es)) es ≡ drop n es
after_cursor-take a zero es h = after_cursor-all a es h
after_cursor-take a (suc n) [] h = refl
after_cursor-take a (suc n) (e ∷ es) h =
    ground (arith, le-end_cursor e.cursor n es h.1, after_cursor-take e.cursor n es h.1)

abbrev pub page_size : ℕ → ℕ
page_size limit = max 1 (min limit event_page_limit)

events-lem :
    (a limit : ℕ) (h : List WorkEvent)
    → IsOrdered h
    → (read_work_events a limit h).events ≡ take (page_size limit) (after_cursor a h)
unfolding read_work_events
events-lem a limit h o = rw (stored-IsOrdered h o)

last-page : (a : ℕ) (xs : List WorkEvent) → xs ≢ [] → end_cursor a xs ≡ last_cursor xs
last-page a [] ne = absurd (ne refl)
last-page a (x ∷ xs) ne = end_cursor-last a x xs

-- Asking again after the last event of a page gives the page that follows it: over an ordered history
-- no event is skipped and none is given twice.
pub read_work_events-next :
    (a limit limit' : ℕ) (h : List WorkEvent)
    → IsOrdered h
    → (read_work_events a limit h).events ≢ []
    → ((read_work_events a limit h).events ≡ take (page_size limit) (after_cursor a h))
      × ((read_work_events (last_cursor (read_work_events a limit h).events) limit' h).events
          ≡ take (page_size limit') (drop (page_size limit) (after_cursor a h)))
read_work_events-next a limit limit' h o ne =
    let page = events-lem a limit h o in
    let eligible = after_cursor a h in
    let above = Above-after_cursor a 0 h o in
    let last : end_cursor a (take (page_size limit) eligible)
        ≡ last_cursor (read_work_events a limit h).events =
      last-page a (take (page_size limit) eligible) (subst (λ x. x ≢ []) page ne)
      ∙ ap last_cursor (sym page) in
    (
      page,
      events-lem (last_cursor (read_work_events a limit h).events) limit' h o
          ∙ ap (take (page_size limit')) (
              sym (
                after_cursor-twice a (last_cursor (read_work_events a limit h).events) h
                  (subst (λ c. a ≤ c) last (le-end_cursor a (page_size limit) eligible above)))
              ∙ ap (λ c. after_cursor c eligible) (sym last)
              ∙ after_cursor-take a (page_size limit) eligible above),
    )
