-- ===== src/Access/Reserve/Reopened.antt =====
-- What the timed mode of src/shared/access.ts does to a reservation once it is over.
use Prim.Native.String.{String}
use dex_reach.Common.{suc, ◌≡◌, sym, ◌∙◌, ◌⊎◌, inl, inr, true, arith, Option, none, some}
use dex_reach.Common.Outcome.{ok, err}
use dex_reach.Tasks.Store.{truthy}
use dex_reach.Access.{AccessState}
use dex_reach.Access.Store.{AccessFile, policy, stamped, use_grant}
use dex_reach.Access.Lapse.{IsReopened, write_refusal-reopened}
use dex_reach.Access.Reserve.{
  ReserveHost, ReserveOptions, NodeStore, ReserveError, OperationReservation, Request,
  reserve_operation,
}
use dex_reach.Access.Reserve.Uses.{UsesOnce, unused, used, failed, done, reserve_operation-Reserved}

some_none : {A : Type 0} {B : Type 0} {a : A} → ◌≡◌ {A = Option A} (some a) none → B
some_none h = ground arith

never_used :
    (host : ReserveHost) (j : String) (s : AccessState) (f : AccessFile) {A : Type 0}
    → IsReopened s host.written_at
    → UsesOnce host j s f
    → A
never_used host j s f r u =
    let written =
      stamped (record s { grants = use_grant j s.grants }) (suc s.revision) host.written_at in
    let same : IsReopened written host.written_at = record {
      over = r.over;
      back = r.back;
      no_ceiling = r.no_ceiling;
      no_requirement = r.no_requirement;
    } in
    let (e, h) = write_refusal-reopened host.access written host.written_at same in
    some_none (sym h ∙ u.accepted)

-- Once the timed mode of the stored policy is over and reverts to `on`, and clients of the kind `other` have no ceiling and need no
-- grant, no reservation uses a grant: where grants are to be consumed, the call throws, or succeeds without
-- a grant, and it leaves the policy file as it was, for any actor and operation.
pub reserve_operation-reopened :
    (host : ReserveHost) (options : ReserveOptions) (q : Request) (s : AccessState)
    (store : NodeStore)
    → options.consume_grant ≡ true
    → store.access.file ≡ policy s
    → IsReopened s host.written_at
    → ((reserve_operation host options q store).1.access.file ≡ store.access.file)
      × (((e : ReserveError) × ((reserve_operation host options q store).0 ≡ err e))
          ⊎ ((o : OperationReservation) × ((reserve_operation host options q store).0 ≡ ok o)
              × (truthy o.grant_id ≡ none)))
reserve_operation-reopened host options q s store c f r =
    elim (reserve_operation-Reserved host options q s store c f) [
      | failed e h w ↦ (w, inl (e, h))
      | done o h stage ↦ elim stage [
        | unused t w ↦ (w, inr (o, h, t))
        | used j t u ↦ never_used host j s _ r u
      ]
    ]
