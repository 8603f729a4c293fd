-- ===== src/Pulse/Window.antt =====
-- The statuses that a health check remembers, and the health that they give.
use gorb.Prelude.{
  ℕ, ◌-◌, ◌≤◌, ◌<◌, ◌^◌, ◌≡◌, ◌≢◌, refl, sym, ap, ◌∙◌, List, [], ◌∷◌, ◌++◌, arith, ltb, length,
  drop, last, All, map, length-append, length-drop, drop-append, drop-length, drop_one-drop,
  append_nil, append_one, suc, Bool-cases, inl, inr,
}
use gorb.Pulse.Floats.{Floats, IsIeee}
use gorb.Pulse.Status.{StatusType, up, removed}
use gorb.Pulse.Metrics.{Metrics, record_size, push_status, sum_results, health_of, update}

push_status-short :
    (recorded : List StatusType) (status : StatusType)
    → length recorded < record_size
    → push_status recorded status ≡ recorded ++ status ∷ []
unfolding push_status
push_status-short recorded status h = ground (arith, length-append recorded (status ∷ []))

push_status-full :
    (recorded : List StatusType) (status : StatusType)
    → length recorded ≡ record_size
    → push_status recorded status ≡ drop 1 (recorded ++ status ∷ [])
unfolding push_status
push_status-full recorded status h = ground (arith, length-append recorded (status ∷ []))

-- The record of a history that is one status longer.
push_status-last :
    (h : List StatusType) (status : StatusType)
    → push_status (last record_size h) status ≡ last record_size (h ++ status ∷ [])
push_status-last h status = elim (Bool-cases (ltb (length h) record_size)) [
  | inl short ↦
      let none_old : length h - record_size ≡ 0 = ground arith in
      let none_new : length (h ++ status ∷ []) - record_size ≡ 0 =
        ground (arith, length-append h (status ∷ [])) in
      rw (none_old, none_new) (push_status-short h status (ground arith))
  | inr full ↦
      let longer : length (h ++ status ∷ []) - record_size ≡ suc (length h - record_size) =
        ground (arith, length-append h (status ∷ [])) in
      push_status-full (last record_size h) status
        (ground (arith, length-drop (length h - record_size) h))
      ∙ ap (drop 1) (sym (drop-append (length h - record_size) h (status ∷ []) (ground arith)))
      ∙ drop_one-drop (length h - record_size) (h ++ status ∷ [])
      ∙ sym (rw longer)
]

length-statuses : (es : List (StatusType × ℕ)) → length (map (λ e. e.0) es) ≡ length es
length-statuses [] = refl
length-statuses (e ∷ es) = omega (arith, length-statuses es)

All-ups :
    (es : List (StatusType × ℕ))
    → All (λ e. e.0 ≡ up) es
    → All (λ status. status ≡ up) (map (λ e. e.0) es)
All-ups [] h = tt
All-ups (e ∷ es) (x, h) = (x, All-ups es h)

last-full :
    (h : List StatusType) (es : List (StatusType × ℕ))
    → length es ≡ record_size
    → last record_size (h ++ map (λ e. e.0) es) ≡ map (λ e. e.0) es
last-full h es full =
    let old : length (h ++ map (λ e. e.0) es) - record_size ≡ length h =
      ground (arith, length-append h (map (λ e. e.0) es), length-statuses es) in
    rw old (drop-length h (map (λ e. e.0) es))

module _ {A : Type 0} ⦃f : Floats A⦄ where
  -- The results of checks with their times, in their order.
  unfoldable pub update_all : Metrics A → List (StatusType × ℕ) → Metrics A
  unfolding update
  update_all m [] = m
  update_all m ((status, now) ∷ es) = update_all (update m status now) es

  update_all-last :
      (m : Metrics A) (h : List StatusType) (es : List (StatusType × ℕ))
      → m.recorded ≡ last record_size h
      → (update_all m es).recorded ≡ last record_size (h ++ map (λ e. e.0) es)
  unfolding update_all update
  update_all-last m h [] e =
      e ∙ ap (λ (l : List StatusType). last record_size l) (sym (append_nil h))
  update_all-last m h ((status, now) ∷ es) e =
      update_all-last (update m status now) (h ++ status ∷ []) es
        (ap (λ r. push_status r status) e ∙ push_status-last h status)
      ∙ ap (λ (l : List StatusType). last record_size l) (append_one h status (map (λ e. e.0) es))

  -- A check that remembers at most a hundred statuses remembers, after more results, the last hundred
  -- of the old and the new ones.
  pub update_all-recorded :
      (m : Metrics A) (es : List (StatusType × ℕ))
      → length m.recorded ≤ record_size
      → (update_all m es).recorded ≡ last record_size (m.recorded ++ map (λ e. e.0) es)
  update_all-recorded m es h =
      let all_kept : length m.recorded - record_size ≡ 0 = omega (arith, h) in
      update_all-last m m.recorded es (rw all_kept)

  -- The health is that of the statuses remembered.
  update_all-health :
      (m : Metrics A) (es : List (StatusType × ℕ))
      → es ≢ []
      → (update_all m es).health ≡ health_of (update_all m es).recorded
  unfolding update_all update
  update_all-health m [] h = absurd (h refl)
  update_all-health m ((status, now) ∷ []) h = refl
  update_all-health m ((status, now) ∷ e ∷ es) h =
      update_all-health (update m status now) (e ∷ es) (λ p. cc)

  sum_results-up :
      (_ : IsIeee f) (r : List StatusType)
      → All (λ status. status ≡ up) r
      → sum_results r ≡ f.of_ℕ 0
  unfolding sum_results
  sum_results-up ieee [] h = refl
  sum_results-up ieee (status ∷ r) (e, h) =
      rw (e, ieee.add_exact 0 0 (omega arith)) (sum_results-up ieee r h)

  -- Statuses that are all up give full health.
  health_of-up :
      (_ : IsIeee f) (r : List StatusType)
      → All (λ status. status ≡ up) r
      → 0 < length r
      → length r < 2 ^ 53
      → health_of r ≡ f.of_ℕ 1
  unfolding health_of
  health_of-up ieee r h some_status small =
      ap (λ x. f.sub (f.of_ℕ 1) (f.div x (f.of_ℕ (length r)))) (sum_results-up ieee r h)
      ∙ ap (f.sub (f.of_ℕ 1)) (ieee.zero_div (length r) some_status small)
      ∙ ieee.sub_zero (f.of_ℕ 1)

  -- With floats of IEEE 754, a check that remembers at most a hundred statuses has full health after a
  -- hundred successes in a row.
  update_all-recovered :
      (_ : IsIeee f) (m : Metrics A) (es : List (StatusType × ℕ))
      → length m.recorded ≤ record_size
      → length es ≡ record_size
      → All (λ e. e.0 ≡ up) es
      → (update_all m es).health ≡ f.of_ℕ 1
  update_all-recovered ieee m es h full ups =
      let some_check : es ≢ [] = λ e. absurd (ground (arith, ap length e)) in
      update_all-health m es some_check
      ∙ ap health_of (update_all-recorded m es h ∙ last-full m.recorded es full)
      ∙ health_of-up ieee (map (λ e. e.0) es) (All-ups es ups) (ground (arith, length-statuses es))
          (ground (arith, length-statuses es))

  update_all-append :
      (m : Metrics A) (es us : List (StatusType × ℕ))
      → update_all m (es ++ us) ≡ update_all (update_all m es) us
  unfolding update_all
  update_all-append m [] us = refl
  update_all-append m ((status, now) ∷ es) us = update_all-append (update m status now) es us

  update_all-status :
      (m : Metrics A) (us : List (StatusType × ℕ))
      → us ≢ []
      → All (λ e. e.0 ≡ up) us
      → (update_all m us).status ≡ up
  unfolding update_all update
  update_all-status m [] h ups = absurd (h refl)
  update_all-status m ((status, now) ∷ []) h (e, ups) = e
  update_all-status m ((status, now) ∷ u ∷ us) h (e, ups) =
      update_all-status (update m status now) (u ∷ us) (λ p. cc) ups

  -- After any results and then a hundred successes, a check is up with full health.
  pub update_all-ups :
      (_ : IsIeee f) (m : Metrics A) (es us : List (StatusType × ℕ))
      → length m.recorded ≤ record_size
      → length us ≡ record_size
      → All (λ e. e.0 ≡ up) us
      → ((update_all m (es ++ us)).status ≡ up) × ((update_all m (es ++ us)).health ≡ f.of_ℕ 1)
  update_all-ups ieee m es us short full ups =
      let h = m.recorded ++ map (λ e. e.0) es in
      let kept : length (update_all m es).recorded ≤ record_size =
        rw (update_all-recorded m es short)
          (ground (arith, length-drop (length h - record_size) h)) in
      rw (update_all-append m es us) (
        update_all-status (update_all m es) us (λ e. absurd (ground (arith, ap length e))) ups,
        update_all-recovered ieee (update_all m es) us kept full ups,
      )

pub All-results :
    (es us : List (StatusType × ℕ))
    → All (λ e. e.0 ≢ removed) es
    → All (λ e. e.0 ≡ up) us
    → All (λ e. e.0 ≢ removed) (es ++ us)
All-results [] [] live ups = tt
All-results [] (u ∷ us) live (e, ups) = (λ h. cc, All-results [] us live ups)
All-results (e ∷ es) us (h, live) ups = (h, All-results es us live ups)
