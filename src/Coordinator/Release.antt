-- ===== src/Coordinator/Release.antt =====
-- Who may release a lease, in `releaseWork` of src/shared/work-coordinator.ts.
use text.Mathlib.TextEquality.{eq_iff}
use dex_reach.Common.{
  ℕ, String, ◌≡◌, ◌≢◌, refl, ap, ◌∙◌, ◌⊎◌, inl, inr, Bool, true, false, ◌||◌, none, some, Memᴰ,
  find, find-holds, ◌==◌, text_eq, nat_eq, Option-cases, Bool-cases, arith,
}
use dex_reach.Common.Outcome.{Result, ok, err}
use dex_reach.Coordinator.{WorkLease, read_coordinator_state}
use dex_reach.Coordinator.Decide.{named}
use dex_reach.Coordinator.Events.{EventInput}
use dex_reach.Coordinator.Store.{
  World, Host, WorkError, ◌>>◌, resume, give, read_state, remove_lease_file, remove, record_event,
}
use dex_reach.Coordinator.Claims.{
  ReleaseOptions, ReleaseResult, released, proof_matches, release_refusal, release_event,
  release_found, release_work,
}
use dex_reach.Coordinator.Exclusion.{leases_of}
use dex_reach.Coordinator.Exclusion.Files.{mem-find}
use dex_reach.Coordinator.Exclusion.Shrink.{record_event-leases}

-- What entitles a caller: the owner's override, the end of the holding process, or being that process
-- and showing the proof where one is asked for.
abbrev pub Entitled : (String → String) → (ℕ → Bool) → ReleaseOptions → WorkLease → Type 0
Entitled sha256 alive o l =
    (o.force ≡ true)
    ⊎ (alive l.pid ≡ false)
    ⊎ ((l.pid ≡ o.pid)
        × (((named l.caller_proof_hash || o.require_caller_proof) ≡ false)
            ⊎ (proof_matches sha256 o.caller_proof l.caller_proof_hash ≡ true)))

refusal_none :
    (sha256 : String → String) (alive : ℕ → Bool) (o : ReleaseOptions) (l : WorkLease)
    → release_refusal sha256 alive o l ≡ none
    → Entitled sha256 alive o l
unfolding release_refusal
refusal_none sha256 alive o l h = elim (Bool-cases o.force) [
  | inl f ↦ inl f
  | inr f ↦ elim (Bool-cases (alive l.pid)) [
    | inr d ↦ inr (inl d)
    | inl d ↦ inr (inr (ground arith, ground arith))
  ]
]

refusal-ne_released :
    (sha256 : String → String) (alive : ℕ → Bool) (o : ReleaseOptions) (l : WorkLease)
    → release_refusal sha256 alive o l ≢ some released
unfolding release_refusal
refusal-ne_released sha256 alive o l h = ground arith

resume-give :
    {A B : Type 0} (b : B) (r : Result WorkError A × World) → (resume (λ _. give b) r).1 ≡ r.1
resume-give b (ok a, w) = refl
resume-give b (err e, w) = refl

resume-give_only :
    {A B : Type 0} (b x : B) (r : Result WorkError A × World)
    → (resume (λ _. give b) r).0 ≡ ok x
    → x ≡ b
resume-give_only b x (ok a, w) h = ground arith
resume-give_only b x (err e, w) h = cc

module _ (host : Host) (sha256 : String → String) (id : String) (o : ReleaseOptions) where
  removed_leases :
      (i : EventInput) (w : World)
      → ((remove_lease_file id >> (record_event host i >> give released)) w).1.leases
        ≡ remove id w.leases
  unfolding remove_lease_file
  removed_leases i w =
      let next = record w { leases = remove id w.leases } in
      ap (λ v. v.leases) (resume-give released (record_event host i next))
      ∙ record_event-leases host i next

  refused_found :
      (w : World) (l : WorkLease) (x : ReleaseResult)
      → release_refusal sha256 host.alive o l ≡ some x
      → release_found host sha256 o id (some l) w ≡ (ok x, w)
  unfolding release_found
  refused_found w l x e = rw (e, release_found)

  released_only :
      (w : World) (l : WorkLease) (x : ReleaseResult)
      → release_refusal sha256 host.alive o l ≡ none
      → (release_found host sha256 o id (some l) w).0 ≡ ok x
      → x ≡ released
  unfolding release_found remove_lease_file
  released_only w l x e h =
      resume-give_only released x
        (record_event host (release_event o l id) (record w { leases = remove id w.leases }))
        (rw (e, release_found) at h)

  unchanged_found :
      (w : World) (l : WorkLease) (x : ReleaseResult)
      → (release_found host sha256 o id (some l) w).0 ≡ ok x
      → x ≢ released
      → (release_found host sha256 o id (some l) w).1 ≡ w
  unchanged_found w l x h n = elim (Option-cases (release_refusal sha256 host.alive o l)) [
    | inl e ↦ absurd (n (released_only w l x e h))
    | inr (y, e) ↦ ap (λ r. r.1) (refused_found w l y e)
  ]

  found-Entitled :
      (w : World) (l : WorkLease)
      → (((release_found host sha256 o id (some l) w).1 ≡ w)
          × ((release_found host sha256 o id (some l) w).0 ≢ ok released))
        ⊎ (Entitled sha256 host.alive o l
            × ((release_found host sha256 o id (some l) w).1.leases ≡ remove id w.leases))
  unfolding release_found
  found-Entitled w l = elim (Option-cases (release_refusal sha256 host.alive o l)) [
    | inl e ↦ inr (refusal_none sha256 host.alive o l e, rw (e, release_found) (removed_leases _ w))
    | inr (x, e) ↦ inl (
      ap (λ r. r.1) (refused_found w l x e),
      λ h. refusal-ne_released sha256 host.alive o l (e ∙ ground (arith, refused_found w l x e)),
    )
  ]

  -- Whatever it answers, and also when it throws, a release either changes nothing and does not answer
  -- `released`, or it found a lease of that identifier whose holder is gone, or that the caller holds
  -- with the proof that is asked for, or that the owner overrides, and removed that lease's file.
  pub release_work-Entitled :
      (w : World)
      → (((release_work host sha256 id o w).1 ≡ w)
          × ((release_work host sha256 id o w).0 ≢ ok released))
        ⊎ ((l : WorkLease) × Memᴰ l (leases_of w)
            × (l.id ≡ id)
            × Entitled sha256 host.alive o l
            × ((release_work host sha256 id o w).1.leases ≡ remove id w.leases))
  unfolding release_work read_state read_coordinator_state
  release_work-Entitled w =
      elim (Option-cases (find (λ (l : WorkLease). l.id == id) (leases_of w))) [
        | inl e ↦ rw e (inl (refl, λ h. ground arith))
        | inr (l, e) ↦ rw e (elim (found-Entitled w l) [
          | inl unchanged ↦ inl unchanged
          | inr found ↦ inr (
            l,
            mem-find (λ (k : WorkLease). k.id == id) (leases_of w) e,
            (eq_iff l.id id).0 (find-holds (λ (k : WorkLease). k.id == id) (leases_of w) e),
            found.0,
            found.1,
          )
        ])
      ]

  -- A release that answers that it did not release changes nothing.
  pub release_work-refused :
      (w : World) (x : ReleaseResult)
      → (release_work host sha256 id o w).0 ≡ ok x
      → x ≢ released
      → (release_work host sha256 id o w).1 ≡ w
  unfolding release_work read_state read_coordinator_state
  release_work-refused w x h n =
      elim (Option-cases (find (λ (l : WorkLease). l.id == id) (leases_of w))) [
        | inl e ↦ rw e refl
        | inr (l, e) ↦ rw e (unchanged_found w l x (rw e at h) n)
      ]
