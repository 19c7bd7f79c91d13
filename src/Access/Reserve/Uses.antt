-- ===== src/Access/Reserve/Uses.antt =====
-- What `reserveOperation` of src/shared/access.ts does to the uses of a grant.
use Prim.Native.String.{String}
use dex_reach.Common.{
  ℕ, suc, ◌≡◌, refl, sym, ◌∙◌, ap, ◌⊎◌, inl, inr, true, false, Option, none, some, text_eq,
  Bool-cases, Option-cases,
}
use dex_reach.Common.Outcome.{Result, ok, err, Result-cases, ok_injective, err_not_ok}
use dex_reach.Clients.{ReachProfile}
use dex_reach.Tasks.Store.{truthy}
use dex_reach.Budget.Usage.{UsageFile}
use dex_reach.Access.{AccessState, AccessDecision, allowed, refused, Refusal, authorize_operation}
use dex_reach.Access.Store.{
  AccessHost, AccessStore, AccessFile, policy, load_access_state, read_access_state,
  write_access_state, write_refusal, stamped, is_spent, use_grant,
}
use dex_reach.Access.Revisions.{write_access_state-file, write_access_state-accepted}
use dex_reach.Access.Reserve.{
  ReserveHost, ReserveOptions, NodeStore, ReserveError, policy_changed, access_refused,
  OperationReservation, Request, take_budget, take_grant, finish, execute_reservation, policy_moved,
  reserve_operation,
}

-- The policy of the file with a use more of the grant, which the policy check has accepted.
pub record UsesOnce (host : ReserveHost) (j : String) (s : AccessState) (f : AccessFile)
    : Type 0 where
  pub next : AccessState
  pub left : is_spent j host.used_at s ≡ false
  pub file_of : f ≡ policy next
  pub grants_of : next.grants ≡ use_grant j s.grants
  pub accepted :
      write_refusal host.access
        (stamped (record s { grants = use_grant j s.grants }) (suc s.revision) host.written_at)
        host.written_at
      ≡ none

-- The grant stage: nothing without a grant, and one use otherwise.
pub data GrantStage (host : ReserveHost) (grant_id : Option String) (s : AccessState)
    (before after : AccessFile) : Type 0 where
  unused : truthy grant_id ≡ none → after ≡ before → GrantStage host grant_id s before after
  used :
      (j : String)
      → truthy grant_id ≡ some j
      → UsesOnce host j s after
      → GrantStage host grant_id s before after

take_grant-GrantStage :
    (host : ReserveHost) (options : ReserveOptions) (grant_id : Option String) (s : AccessState)
    (store : AccessStore) {next : AccessStore}
    → options.consume_grant ≡ true
    → take_grant host options grant_id s store ≡ ok next
    → GrantStage host grant_id s store.file next.file
unfolding take_grant
take_grant-GrantStage host options grant_id s store {next} c h =
    elim (Option-cases (truthy grant_id)) [
      | inl e ↦
          let k = rw (c, e, take_grant) at h in
          unused e (ap (λ (z : AccessStore). z.file) (sym (ok_injective k)))
      | inr (j, e) ↦ elim (Bool-cases (is_spent j host.used_at s)) [
        | inl x ↦ let k = rw (c, e, x, take_grant) at h in err_not_ok k
        | inr x ↦
            let k = rw (c, e, x, take_grant) at h in
            elim (Result-cases (
              write_access_state host.access false none (record s { grants = use_grant j s.grants })
                (suc s.revision) host.written_at store)) [
                  | inl (n, w) ↦
                      let l = rw w at k in
                      used j e record {
                        next = _;
                        left = x;
                        file_of =
                            (ap (λ (z : AccessStore). z.file) (sym (ok_injective l)))
                            ∙ write_access_state-file host.access false none _ _ host.written_at
                                store w;
                        grants_of = refl;
                        accepted =
                            write_access_state-accepted host.access false none _ _ host.written_at
                              store w;
                      }
                  | inr (y, w) ↦ let l = rw w at k in err_not_ok l
                ]
      ]
    ]

-- A reservation: nothing is written if it throws, and the grant stage is done if it does not.
pub data Reserved (host : ReserveHost) (s : AccessState) (before : AccessFile)
    (r : Result ReserveError OperationReservation × NodeStore) : Type 0 where
  failed : (e : ReserveError) → r.0 ≡ err e → r.1.access.file ≡ before → Reserved host s before r
  done :
      (o : OperationReservation)
      → r.0 ≡ ok o
      → GrantStage host o.grant_id s before r.1.access.file
      → Reserved host s before r

finish-Reserved :
    (host : ReserveHost) (options : ReserveOptions) (profile : ReachProfile)
    (grant_id : Option String) (s : AccessState) (store : AccessStore) (slot : Option String)
    (g : UsageFile)
    → options.consume_grant ≡ true
    → Reserved host s store.file (finish host options profile grant_id s store slot g)
unfolding finish
finish-Reserved host options profile grant_id s store slot g c =
    elim (Result-cases (take_grant host options grant_id s store)) [
      | inl (next, e) ↦
          let stage = take_grant-GrantStage host options grant_id s store c e in
          rw (e, finish) (done _ refl stage)
      | inr (x, e) ↦ rw (e, finish) (failed x refl refl)
    ]

execute-Reserved :
    (host : ReserveHost) (options : ReserveOptions) (q : Request) (profile : ReachProfile)
    (grant_id : Option String) (s : AccessState) (store : NodeStore)
    → options.consume_grant ≡ true
    → Reserved host s store.access.file
        (execute_reservation host options q profile grant_id s store)
unfolding execute_reservation
execute-Reserved host options q profile grant_id s store c =
    elim (Result-cases (take_budget host options q store.usage).0) [
      | inl (slot, e) ↦
          rw (e, execute_reservation)
            (finish-Reserved host options profile grant_id s store.access slot _ c)
      | inr (x, e) ↦ rw (e, execute_reservation) (failed x refl refl)
    ]

pub decision-cases :
    (d : AccessDecision)
    → ((x : Refusal) × (d ≡ refused x))
      ⊎ ((profile : ReachProfile) × (id : Option String) × (d ≡ allowed profile id))
decision-cases (refused x) = inl (x, refl)
decision-cases (allowed profile id) = inr (profile, id, refl)

pub load_access_state_lem :
    (host : AccessHost) (s : AccessState) (now : ℕ) (store : AccessStore)
    → store.file ≡ policy s
    → load_access_state host now store ≡ s
unfolding load_access_state read_access_state
load_access_state_lem host s now store f = rw (load_access_state, f) refl

pub reserve_operation-Reserved :
    (host : ReserveHost) (options : ReserveOptions) (q : Request) (s : AccessState)
    (store : NodeStore)
    → options.consume_grant ≡ true
    → store.access.file ≡ policy s
    → Reserved host s store.access.file (reserve_operation host options q store)
unfolding reserve_operation
reserve_operation-Reserved host options q s store c f =
    let l = load_access_state_lem host.access s host.authorized_at store.access f in
    let decision =
      authorize_operation host.access.paths s q.actor q.operation q.profile host.authorized_at
        q.args in
    elim (Bool-cases (policy_moved host.access options.expected_policy_hash s)) [
      | inl e ↦ rw (reserve_operation, l, e) (failed policy_changed refl refl)
      | inr e ↦ elim (decision-cases decision) [
        | inl (x, d) ↦ rw (reserve_operation, l, e, d) (failed (access_refused x) refl refl)
        | inr (profile, id, d) ↦
            rw (reserve_operation, l, e, d, l)
              (execute-Reserved host options q profile id s store c)
      ]
    ]
