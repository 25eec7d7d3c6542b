-- ===== src/Authorization/ResourceDecision.antt =====
-- packages/authorization/src/authorization-service.ts: the decisions on persons and on resources of
-- the workspace (`personReadDecision`, `b1Decision`), without relationship discovery.
use throughline.Prelude.{
  Bool, true, false, ◌&&◌, ◌||◌, not, Option, none, some, List, ◌++◌, JsString, units, str_eq, any,
  if◌then◌else◌,
}
use throughline.Authorization.Terms.{
  Action, AuthorizationDecision, DecisionOptions, MembershipRole, ResourceRef, ResourceType,
  SecurityContext, allow, can_read_data_class, deny, equals_given, is_b1_action, is_given,
  is_read_action, is_truth_mutation_action, non_leaking_b1_deny, owner_or_admin_decision,
  same_resource,
}
use throughline.Authorization.Terms
use throughline.Authorization.Tables.{
  Attendee, Database, EndKind, Key, Participant, Query, Relationship, Transaction, Work,
}
use throughline.Authorization.Tables.Queries.{is_row, pick, provided}
use throughline.Authorization.Spaces.{can_read_space_resource}
use throughline.Authorization.Resources.{ResourceScope, b1_scope, space_scope}
use throughline.Authorization.Actors.{ActiveMembership, contributor_authority}
use throughline.Authorization.Mutations.{if_readable}
use throughline.Authorization.TruthDecision.{truth_mutation_decision}

-- `EXISTS (SELECT 1 FROM work.activity_attendees ...)`
unfoldable pub attends : List Attendee → Work → JsString → Bool
attends attendees row person_id =
    any
      (λ attendee.
        str_eq attendee.tenant_id row.key.tenant_id
        && (str_eq attendee.workspace_id row.key.workspace_id
            && (str_eq attendee.activity_id row.key.id && str_eq attendee.person_id person_id)))
      attendees

-- `EXISTS (SELECT 1 FROM work.initiative_people ...)`
unfoldable pub takes_part : List Participant → Work → JsString → Bool
takes_part participants row person_id =
    any
      (λ participant.
        str_eq participant.tenant_id row.key.tenant_id
        && (str_eq participant.workspace_id row.key.workspace_id
            && (str_eq participant.initiative_id row.key.id
                && (str_eq participant.person_id person_id && participant.is_current))))
      participants

unfoldable pub is_person : EndKind → Bool
is_person EndKind.person = true
is_person EndKind.other = false

unfoldable pub is_person_end : Option EndKind → JsString → JsString → Bool
unfolding is_person
is_person_end none id person_id = false
is_person_end (some type) id person_id = is_person type && str_eq id person_id

unfoldable pub relates : Relationship → JsString → Bool
unfolding is_person_end
relates row person_id =
    is_person_end (some row.subject_type) row.subject_id person_id
    || (is_person_end (some row.object_type) row.object_id person_id
        || is_person_end row.context_type row.context_id person_id)

-- `JOIN identity.people person ON ... AND person.id = $4`
unfoldable pub with_person : Database → Key → JsString → Option ResourceScope → Option ResourceScope
with_person database key person_id scope =
    provided
      (any
        (λ person.
          str_eq person.tenant_id key.tenant_id
          && (str_eq person.workspace_id key.workspace_id && str_eq person.id person_id))
        database.people)
      scope

unfoldable pub work_use_site :
    SecurityContext
    → Database
    → List Work
    → (Work → JsString → Bool)
    → JsString
    → JsString
    → Option ResourceScope
unfolding with_person
work_use_site context database works is_in id person_id =
    pick
      (λ row.
        provided
          (is_row context id row.key
            && (str_eq row.owner_person_id person_id || is_in row person_id))
          (with_person database row.key person_id (space_scope database row.key row.space_id)))
      works

-- The space of the place that a person is read at, where the person takes part in it.
unfoldable pub use_site_scope :
    SecurityContext → Database → ResourceType → JsString → JsString → Option ResourceScope
unfolding work_use_site attends takes_part relates with_person
use_site_scope context database Terms.ResourceType.activity id person_id =
    work_use_site context database database.activities (attends database.activity_attendees) id
      person_id
use_site_scope context database Terms.ResourceType.initiative id person_id =
    work_use_site context database database.initiatives (takes_part database.initiative_people) id
      person_id
use_site_scope context database Terms.ResourceType.relationship id person_id =
    pick
      (λ row.
        provided (is_row context id row.key && relates row person_id)
          (with_person database row.key person_id (space_scope database row.key row.space_id)))
      database.relationships
use_site_scope context database Terms.ResourceType.organization id person_id =
    pick
      (λ row.
        provided (is_row context id row.key)
          (with_person database row.key person_id (space_scope database row.key row.space_id)))
      database.organizations
use_site_scope context database Terms.ResourceType.content_item id person_id =
    pick
      (λ row.
        provided (is_row context id row.key)
          (with_person database row.key person_id (space_scope database row.key row.space_id)))
      database.content_items
use_site_scope context database Terms.ResourceType.space id person_id =
    pick
      (λ space. provided (is_row context id space.key && not space.is_archived) (
        with_person database space.key person_id
          (some (record { space_id = space.key.id; access_class = space.access_class }))))
      database.spaces
use_site_scope context database _ id person_id = none

-- A scope within the ceiling, in a space that the actor may read.
unfoldable pub scoped_decision :
    Transaction
    → SecurityContext
    → MembershipRole
    → DecisionOptions
    → Option ResourceScope
    → (ResourceScope → List JsString → AuthorizationDecision)
    → AuthorizationDecision
unfolding if_readable
scoped_decision tx context role options scope decide = elim scope [
  | none ↦ non_leaking_b1_deny context.policy_version
  | some found ↦
      if can_read_data_class context.data_class_ceiling found.access_class
      then if_readable context.policy_version
          (can_read_space_resource tx context found.space_id role options.lock_authority)
          (decide found)
      else non_leaking_b1_deny context.policy_version
]

unfoldable pub person_read_decision :
    Transaction
    → SecurityContext
    → MembershipRole
    → ResourceRef
    → DecisionOptions
    → AuthorizationDecision
unfolding use_site_scope scoped_decision
person_read_decision tx context role resource options = elim options.person_use_site [
  | none ↦ non_leaking_b1_deny context.policy_version
  | some site ↦
      if same_resource resource.type Terms.ResourceType.person
      then scoped_decision tx context role options
          (use_site_scope context (tx Query.use_site) site.type site.id resource.id)
          (λ _ tokens.
            allow context.policy_version (units "person_use_site_read") none (some tokens))
      else non_leaking_b1_deny context.policy_version
]

-- `action === "source.tombstone" || action === "organization.create"`
unfoldable pub needs_workspace_authority : Action → Bool
needs_workspace_authority Terms.source_tombstone = true
needs_workspace_authority Terms.organization_create = true
needs_workspace_authority _ = false

-- The end of `b1Decision`, for a scope that the actor may read.
unfoldable pub resource_decision :
    Transaction
    → SecurityContext
    → MembershipRole
    → Action
    → DecisionOptions
    → ResourceScope
    → List JsString
    → AuthorizationDecision
unfolding is_read_action needs_workspace_authority contributor_authority
resource_decision tx context role action options scope tokens =
    if is_read_action action
    then allow context.policy_version (units "b1_resource_read")
        (if options.explain
          then some (units "Current Space and data-class access allow this projection")
          else none)
        (some tokens)
    else if needs_workspace_authority action
    then owner_or_admin_decision context.policy_version role (units "b1_workspace_authority")
    else elim (contributor_authority tx context scope.space_id role) [
      | none ↦ deny context.policy_version (units "b1_resource_not_available") none
      | some more ↦
          allow context.policy_version (units "b1_contributor_authority") none
            (some (tokens ++ more))
    ]

unfoldable pub b1_decision :
    Transaction
    → SecurityContext
    → MembershipRole
    → Action
    → ResourceRef
    → DecisionOptions
    → ActiveMembership
    → AuthorizationDecision
unfolding person_read_decision truth_mutation_decision scoped_decision resource_decision b1_scope
    is_truth_mutation_action
b1_decision tx context role Terms.person_read resource options member =
    person_read_decision tx context role resource options
b1_decision tx context role action resource options member =
    if is_truth_mutation_action action
    then truth_mutation_decision tx context role action resource options member
    else scoped_decision tx context role options
        (b1_scope context (tx Query.target_scope) action resource options)
        (resource_decision tx context role action options)
