-- ===== src/Authorization/Service/ProposalChanges.antt =====
-- packages/authorization/src/authorization-service.ts: what an allowed decision on a proposal rests on.
use mathlib.Core.Path.{subst}
use mathlib.Core.List.{Memᴰ}
use throughline.Prelude.{
  ◌≤◌, ◌≡◌, refl, ◌⊎◌, inl, inr, Bool, true, false, ◌||◌, Option, none, some, JsString, str_eq,
  str_eq_iff, arith, and_true, Option-cases, sym,
}
use throughline.Core.AccessClass.{rank}
use throughline.Authorization.Terms.{
  Action, DecisionOptions, MembershipRole, ResourceRef, SecurityContext, non_leaking_b1_deny,
}
use throughline.Authorization.Tables.{
  Claim, Database, FactSubject, Predicate, Query, Space, Transaction, Work,
}
use throughline.Authorization.Tables.Queries.{
  find_where-Mem, find_where-true, pick_row, provided-some,
}
use throughline.Authorization.Spaces.{can_read_space_resource}
use throughline.Authorization.Actors.{Actor}
use throughline.Authorization.Mutations.{
  ProposalRow, if_readable, is_objective_claim, is_proposer_of, load_proposal, may_manage,
  objective_proposal_mutation_decision,
}
use throughline.Authorization.Service.Reads.{can_read_data_class_le}
use throughline.Authorization.Service.Standing.{IsKey, IsKey-of, IsSpaceOf, IsSpaceOf-of}

pub data IsProposal : Action → Type 0 where
  withdraw : IsProposal Action.proposal_withdraw
  reject : IsProposal Action.proposal_reject
  rework : IsProposal Action.proposal_rework

-- The actor made the claim, under the same membership.
abbrev pub IsProposer : Claim → Actor → Type 0
IsProposer claim actor =
    (claim.created_by_user_id ≡ actor.user_id)
    × (claim.created_by_membership_id ≡ actor.membership_id)

-- Who may do what with a proposal of an initiative.
pub data Manages (claim : Claim) (initiative : Work) (actor : Actor) : Action → Type 0 where
  reworks : IsProposer claim actor → Manages claim initiative actor Action.proposal_rework
  rejects :
      initiative.owner_person_id ≡ actor.person_id
      → Manages claim initiative actor Action.proposal_reject
  withdraws_own : IsProposer claim actor → Manages claim initiative actor Action.proposal_withdraw
  withdraws_owned :
      initiative.owner_person_id ≡ actor.person_id
      → Manages claim initiative actor Action.proposal_withdraw

IsProposer-of :
    (actor : Actor) (claim : Claim) → is_proposer_of actor claim ≡ true → IsProposer claim actor
unfolding is_proposer_of
IsProposer-of actor claim h =
    let (user, membership) = and_true h in
    (
      (str_eq_iff claim.created_by_user_id actor.user_id).0 user,
      (str_eq_iff claim.created_by_membership_id actor.membership_id).0 membership,
    )

either_true : (a b : Bool) → (a || b) ≡ true → (a ≡ true) ⊎ (b ≡ true)
either_true true b h = inl refl
either_true false b h = inr h

Manages-of :
    (action : Action) (claim : Claim) (initiative : Work) (actor : Actor)
    → IsProposal action
    → may_manage action
        (is_proposer_of actor claim)
        (str_eq initiative.owner_person_id actor.person_id)
      ≡ true
    → Manages claim initiative actor action
unfolding may_manage
Manages-of _ claim initiative actor rework h = reworks (IsProposer-of actor claim h)
Manages-of _ claim initiative actor reject h =
    rejects ((str_eq_iff initiative.owner_person_id actor.person_id).0 h)
Manages-of _ claim initiative actor withdraw h =
    elim (either_true (is_proposer_of actor claim) _ h) [
      | inl own ↦ withdraws_own (IsProposer-of actor claim own)
      | inr owned ↦
          withdraws_owned ((str_eq_iff initiative.owner_person_id actor.person_id).0 owned)
    ]

-- The claim on an initiative's primary objective, the initiative and the space, as one query found
-- them in the workspace.
pub record IsProposalOf (context : SecurityContext) (database : Database) (id : JsString)
    (claim : Claim) (initiative : Work) (space : Space) : Type 0 where
  pub stored : Memᴰ claim database.claims
  pub keyed : IsKey context id claim.key
  pub subject : claim.subject_type ≡ FactSubject.initiative
  pub predicate : claim.predicate ≡ Predicate.initiative_primary_objective
  pub initiative_stored : Memᴰ initiative database.initiatives
  pub initiative_keyed :
      (initiative.key.tenant_id ≡ claim.key.tenant_id)
      × (initiative.key.workspace_id ≡ claim.key.workspace_id)
      × (initiative.space_id ≡ claim.space_id)
      × (initiative.key.id ≡ claim.subject_id)
  pub placed : IsSpaceOf database claim.key claim.space_id space

objective_claim :
    (subject_type : FactSubject) (predicate : Predicate)
    → is_objective_claim subject_type predicate ≡ true
    → (subject_type ≡ FactSubject.initiative) × (predicate ≡ Predicate.initiative_primary_objective)
unfolding is_objective_claim
objective_claim FactSubject.activity p h = cc
objective_claim FactSubject.initiative Predicate.activity_outcome h = cc
objective_claim FactSubject.initiative Predicate.initiative_primary_objective h = (refl, refl)

joined_proposal :
    (claim : Claim) (initiative : Option Work) (space : Option Space) {row : ProposalRow}
    → (elim initiative [
      | none ↦ none
      | some i ↦ elim space [
        | none ↦ none
        | some s ↦ some (record { claim = claim; owner_person_id = i.owner_person_id })
      ]
    ])
      ≡ some row
    → (i : Work) × (s : Space) × (initiative ≡ some i)
      × (space ≡ some s)
      × (row.claim ≡ claim)
      × (row.owner_person_id ≡ i.owner_person_id)
joined_proposal claim none space h = absurd (ground (arith, h))
joined_proposal claim (some i) none h = absurd (ground (arith, h))
joined_proposal claim (some i) (some s) {row} h =
    (i, s, refl, refl, ground (arith, h), ground (arith, h))

IsProposalOf-of :
    (context : SecurityContext) (database : Database) (id : JsString) (row : ProposalRow)
    → load_proposal context database id ≡ some row
    → (initiative : Work) × (space : Space) × IsProposalOf context database id row.claim initiative
        space
      × (row.owner_person_id ≡ initiative.owner_person_id)
unfolding load_proposal
IsProposalOf-of context database id row found =
    let (claim, stored, at_claim) = pick_row _ database.claims found in
    let (met, joined) = provided-some _ _ at_claim in
    let (i, s, has_initiative, has_space, same, owner) = joined_proposal claim _ _ joined in
    let (keyed, objective) = and_true met in
    let (subject, predicate) = objective_claim claim.subject_type claim.predicate objective in
    let (tenant, rest) = and_true (find_where-true _ database.initiatives has_initiative) in
    let (workspace, ends) = and_true rest in
    let (space_id, its_id) = and_true ends in
    let proposal : IsProposalOf context database id claim i s = record {
      stored = stored;
      keyed = IsKey-of context id claim.key keyed;
      subject = subject;
      predicate = predicate;
      initiative_stored = find_where-Mem _ database.initiatives has_initiative;
      initiative_keyed = (
        (str_eq_iff i.key.tenant_id claim.key.tenant_id).0 tenant,
        (str_eq_iff i.key.workspace_id claim.key.workspace_id).0 workspace,
        (str_eq_iff i.space_id claim.space_id).0 space_id,
        (str_eq_iff i.key.id claim.subject_id).0 its_id,
      );
      placed = IsSpaceOf-of database claim.key claim.space_id s has_space;
    } in
    (i, s, subst (λ c. IsProposalOf context database id c i s) (sym same) proposal, owner)

module _ (tx : Transaction) (context : SecurityContext) (role : MembershipRole)
    (options : DecisionOptions) where
  -- What an allowed decision on a proposal rests on.
  pub record ProposalAuthority (action : Action) (resource : ResourceRef) (actor : Actor)
      : Type 0 where
    pub claim : Claim
    pub initiative : Work
    pub space : Space
    pub found : IsProposalOf context (tx Query.proposal) resource.id claim initiative space
    pub within : rank claim.access_class ≤ rank context.data_class_ceiling
    pub readable :
        (can_read_space_resource tx context claim.space_id role options.lock_authority).allowed
        ≡ true
    pub manages : Manages claim initiative actor action

  pub proposal-ProposalAuthority :
      (action : Action) (resource : ResourceRef) (actor : Actor)
      → IsProposal action
      → (objective_proposal_mutation_decision tx context role action resource options actor).allowed
        ≡ true
      → ProposalAuthority action resource actor
  unfolding objective_proposal_mutation_decision if_readable non_leaking_b1_deny
  proposal-ProposalAuthority action resource actor proposal h =
      elim (Option-cases (load_proposal context (tx Query.proposal) resource.id)) [
        | inl e ↦ absurd (ground (arith, e, h))
        | inr (row, e) ↦
            let (initiative, space, found, owner) =
              IsProposalOf-of context (tx Query.proposal) resource.id row e in
            let managed : may_manage action (is_proposer_of actor row.claim)
                  (str_eq row.owner_person_id actor.person_id)
                ≡ true =
              ground (arith, e, h) in
            record {
              claim = row.claim;
              initiative = initiative;
              space = space;
              found = found;
              within =
                  can_read_data_class_le context.data_class_ceiling row.claim.access_class
                    (ground (arith, e, h));
              readable = ground (arith, e, h);
              manages = Manages-of action row.claim initiative actor proposal (rw owner at managed);
            }
      ]
