-- ===== src/Tasks/Preserve.antt =====
-- Every operation of src/node/task-store.ts keeps the document consistent.
use Prim.Native.String.{String}
use mathlib.Core.Path.{subst}
use dex_reach.Common.{
  ℕ, ◌≤◌, ◌≡◌, refl, sym, ◌∙◌, ap, ◌⊎◌, inl, inr, true, none, some, ◌==◌, text_eq, Bool-cases,
  Option-cases, arith,
}
use dex_reach.Tasks.{is_terminal, ReachTaskRecord, max_depth}
use dex_reach.Tasks.Table.{
  lookup, assign, discard, same_key, lookup-assign_hit, lookup-assign_miss, lookup-discard_hit,
  lookup-discard_miss,
}
use dex_reach.Tasks.Store.{TaskStoreDocument, NodeHost, locate, empty_document}
use dex_reach.Tasks.Sweep.{is_due}
use dex_reach.Tasks.Lifecycle.{identity}
use dex_reach.Tasks.Keys.{
  IsKeyed, keyed_nil, some_not_none, some_injective, IsKeyed-assign, IsKeyed-discard, stay-stood,
  IsKeyed-stay, swept-stood, IsKeyed-swept, kept-stood, IsKeyed-kept, true_not_false,
}
use dex_reach.Tasks.Steps.{
  Creates, ChangesOne, Archives, Sweeps, Step, idles, creates, changes, archives, sweeps,
}
use dex_reach.Tasks.Create.{new_record}
use dex_reach.Tasks.Lineage.{lineage_of-ok, unused-locate, same_execution-holds}
use dex_reach.Tasks.Sound.{
  execution_of, IsSound, locate-active, locate-archived, locate-cases, named-Follows,
  unique-Follows, change-Follows, archive-Follows, sweep-Follows,
}

due-ended : (now ms : ℕ) (r : ReachTaskRecord) → is_due now ms r ≡ true → is_terminal r.state ≡ true
unfolding is_due
due-ended now ms r h = ground arith

module _ {d e : TaskStoreDocument} where
  change-IsSound : IsSound d → ChangesOne d e → IsSound e
  change-IsSound g c = record {
    keyed = subst IsKeyed (sym c.now_active) (IsKeyed-assign c.id c.new d.records g.keyed);
    keyed_archive = subst IsKeyed (sym c.same_archive) g.keyed_archive;
    apart = λ id {r} h. ap (lookup id) c.same_archive ∙ elim (Bool-cases (c.id == id)) [
      | inl m ↦ ap (λ z. lookup z d.archived) (sym (same_key c.id id m)) ∙ g.apart c.id c.stood
      | inr m ↦ g.apart id (
          sym (lookup-assign_miss id c.id c.new d.records m)
          ∙ sym (ap (lookup id) c.now_active)
          ∙ h)
    ];
    ended = λ id {r} h. g.ended id (sym (ap (lookup id) c.same_archive) ∙ h);
    named = λ id {r} h. named-Follows d e g (change-Follows c) id h;
    unique = λ i j {r} {s} h k x. unique-Follows d e g (change-Follows c) i j h k x;
  }

  archive-IsSound : IsSound d → Archives d e → IsSound e
  archive-IsSound g c = record {
    keyed = subst IsKeyed (sym c.now_active) (IsKeyed-discard c.id d.records g.keyed);
    keyed_archive =
        subst IsKeyed (sym c.now_archived) (IsKeyed-assign c.id _ d.archived g.keyed_archive);
    apart = λ id {r} h. elim (Bool-cases (c.id == id)) [
      | inl m ↦
          let gone =
            ap (lookup id) c.now_active
            ∙ ap (λ z. lookup id (discard z d.records)) (same_key c.id id m)
            ∙ lookup-discard_hit id d.records in
          some_not_none (sym h ∙ gone)
      | inr m ↦
          ap (lookup id) c.now_archived
          ∙ lookup-assign_miss id c.id _ d.archived m
          ∙ g.apart id (
              sym (lookup-discard_miss id c.id d.records m) ∙ sym (ap (lookup id) c.now_active) ∙ h)
    ];
    ended = λ id {r} h. elim (Bool-cases (c.id == id)) [
      | inl m ↦
          let stamped : ReachTaskRecord = record c.old { archived_at = some c.at } in
          let at =
            ap (lookup id) c.now_archived
            ∙ ap (λ z. lookup id (assign z stamped d.archived)) (same_key c.id id m)
            ∙ lookup-assign_hit id stamped d.archived in
          subst (λ (z : ReachTaskRecord). is_terminal z.state ≡ true) (some_injective (sym at ∙ h))
            c.ended
      | inr m ↦ g.ended id (
          sym (lookup-assign_miss id c.id _ d.archived m) ∙ sym (ap (lookup id) c.now_archived) ∙ h)
    ];
    named = λ id {r} h. named-Follows d e g (archive-Follows c) id h;
    unique = λ i j {r} {s} h k x. unique-Follows d e g (archive-Follows c) i j h k x;
  }

  sweep-IsSound : IsSound d → Sweeps d e → IsSound e
  sweep-IsSound g c =
      let keyed = IsKeyed-swept c.now c.terminal_ms d.records d.archived g.keyed_archive in
      record {
        keyed =
            subst IsKeyed (sym c.now_active)
              (IsKeyed-stay c.now c.terminal_ms d.records d.archived g.keyed);
        keyed_archive =
            subst IsKeyed (sym c.now_archived) (IsKeyed-kept c.now c.archive_ms _ keyed);
        apart = λ id {r} h. elim (Option-cases (lookup id e.archived)) [
          | inl f ↦ f
          | inr (v, f) ↦
              let (t, n) =
                stay-stood c.now c.terminal_ms d.records d.archived id g.keyed
                  (sym (ap (lookup id) c.now_active) ∙ h) in
              let s =
                kept-stood c.now c.archive_ms _ id keyed
                  (sym (ap (lookup id) c.now_archived) ∙ f) in
              elim (swept-stood c.now c.terminal_ms d.records d.archived id g.keyed s) [
                | inl a ↦ some_not_none (sym a ∙ g.apart id t)
                | inr (b, w, due, z) ↦
                    true_not_false
                      (sym due ∙ ap (is_due c.now c.terminal_ms) (some_injective (sym w ∙ t)) ∙ n)
              ]
        ];
        ended = λ id {r} h.
            let s =
              kept-stood c.now c.archive_ms _ id keyed (sym (ap (lookup id) c.now_archived) ∙ h) in
            elim (swept-stood c.now c.terminal_ms d.records d.archived id g.keyed s) [
              | inl a ↦ g.ended id a
              | inr (b, w, due, z) ↦
                  subst (λ (z : ReachTaskRecord). is_terminal z.state ≡ true) z
                    (due-ended c.now c.terminal_ms b due)
            ];
        named = λ id {r} h. named-Follows d e g (sweep-Follows g c) id h;
        unique = λ i j {r} {s} h k x. unique-Follows d e g (sweep-Follows g c) i j h k x;
      }

module _ {host : NodeHost} {d e : TaskStoreDocument} where
  abbrev made : Creates host d e → ReachTaskRecord
  made c = new_record host c.id c.input c.lineage d

  no_record : (c : Creates host d e) → lookup c.id d.records ≡ none
  no_record c = elim (Option-cases (lookup c.id d.records)) [
    | inl f ↦ f
    | inr (r, f) ↦ some_not_none (sym (locate-active c.id d f) ∙ c.free)
  ]

  -- A task of the later document is the new one or one that was there.
  pub create-cases :
      (c : Creates host d e) (id : String) {v : ReachTaskRecord}
      → locate id e ≡ some v
      → (c.id ≡ id) × (made c ≡ v) ⊎ (locate id d ≡ some v)
  create-cases c id h = elim (Bool-cases (c.id == id)) [
    | inl m ↦
        let k = same_key c.id id m in
        let at =
          ap (lookup id) c.now_active
          ∙ ap (λ z. lookup id (assign z (made c) d.records)) k
          ∙ lookup-assign_hit id (made c) d.records in
        inl (k, some_injective (sym (locate-active id e at) ∙ h))
    | inr m ↦
        let at = ap (lookup id) c.now_active ∙ lookup-assign_miss id c.id (made c) d.records m in
        elim (locate-cases id e h) [
          | inl s ↦ inr (locate-active id d (sym at ∙ s))
          | inr (n, s) ↦
              inr (locate-archived id d (sym at ∙ n) ∙ sym (ap (lookup id) c.same_archive) ∙ s)
        ]
  ]

  -- The new task is of no execution that the store knows.
  new-apart :
      (c : Creates host d e) (j : String) {s : ReachTaskRecord} {B : Type 0}
      → locate j d ≡ some s
      → execution_of (identity s) ≡ execution_of (identity (made c))
      → B
  unfolding new_record
  new-apart c j {s} h x = true_not_false (
      sym (
        same_execution-holds c.input s (ap (λ z. z.idempotency_key) x) (ap (λ z. z.actor_id) x)
          (ap (λ z. z.node_id) x) (ap (λ z. z.operation) x))
      ∙ unused-locate c.input j d c.unused h)

  create-IsSound : IsSound d → Creates host d e → IsSound e
  unfolding new_record
  create-IsSound g c = record {
    keyed = subst IsKeyed (sym c.now_active) (IsKeyed-assign c.id (made c) d.records g.keyed);
    keyed_archive = subst IsKeyed (sym c.same_archive) g.keyed_archive;
    apart = λ id {r} h. ap (lookup id) c.same_archive ∙ elim (Bool-cases (c.id == id)) [
      | inl m ↦
          ap (λ z. lookup z d.archived) (sym (same_key c.id id m))
          ∙ sym (locate-archived c.id d (no_record c))
          ∙ c.free
      | inr m ↦ g.apart id (
          sym (lookup-assign_miss id c.id (made c) d.records m)
          ∙ sym (ap (lookup id) c.now_active)
          ∙ h)
    ];
    ended = λ id {r} h. g.ended id (sym (ap (lookup id) c.same_archive) ∙ h);
    named = λ id {r} h. elim (create-cases c id h) [
      | inr s ↦ g.named id s
      | inl (k, z) ↦
          subst (λ (v : ReachTaskRecord). (v.task_id ≡ id) × (v.task_depth ≤ max_depth)) z
            (k, (lineage_of-ok c.id c.input d c.lined).0)
    ];
    unique = λ i j {r} {s} h k x. elim (create-cases c i h) [
      | inl (a, z) ↦ elim (create-cases c j k) [
        | inl (b, w) ↦ sym a ∙ b
        | inr t ↦ new-apart c j t (sym x ∙ sym (ap (λ v. execution_of (identity v)) z))
      ]
      | inr t ↦ elim (create-cases c j k) [
        | inl (b, w) ↦ new-apart c i t (x ∙ sym (ap (λ v. execution_of (identity v)) w))
        | inr u ↦ g.unique i j t u x
      ]
    ];
  }

pub Step-IsSound :
    {host : NodeHost} {d e : TaskStoreDocument} → IsSound d → Step host d e → IsSound e
Step-IsSound g (idles h) = subst IsSound (sym h) g
Step-IsSound g (creates c) = create-IsSound g c
Step-IsSound g (changes c) = change-IsSound g c
Step-IsSound g (archives c) = archive-IsSound g c
Step-IsSound g (sweeps c) = sweep-IsSound g c

pub empty-IsSound : IsSound empty_document
unfolding empty_document locate lookup
empty-IsSound = record {
  keyed = keyed_nil;
  keyed_archive = keyed_nil;
  apart = λ id {r} h. refl;
  ended = λ id {r} h. some_not_none (sym h);
  named = λ id {r} h. some_not_none (sym h);
  unique = λ i j {r} {s} h k x. some_not_none (sym h);
}
