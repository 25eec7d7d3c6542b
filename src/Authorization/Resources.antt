-- ===== src/Authorization/Resources.antt =====
-- packages/authorization/src/authorization-service.ts: the space and data class that a decision on a
-- resource is about (`loadB1ResourceScope`, the create branch of `b1Decision`,
-- `loadTruthAuthorityTarget`), and who may contribute to a space (`contributorAuthority`).
use throughline.Prelude.{
  ℕ, true, ◌&&◌, Option, none, some, JsString, str_eq, ◌==◌, leb, if◌then◌else◌,
}
use throughline.Core.AccessClass.{AccessClass, rank}
use throughline.Authorization.Terms.{
  Action, DecisionOptions, MembershipRole, ResourceRef, ResourceType, SecurityContext,
  is_create_action, is_owner_or_admin, same_resource,
}
use throughline.Authorization.Terms
use throughline.Authorization.Tables.{Database, Key}
use throughline.Authorization.Tables.Queries.{
  greatest_class, in_workspace, is_row, joined_space, live_space, pick, provided,
}

pub record ResourceScope : Type 0 where
  pub space_id : JsString
  pub access_class : AccessClass

-- maxDataClass
unfoldable pub max_data_class : AccessClass → AccessClass → AccessClass
unfolding rank
max_data_class left right = if leb (rank right) (rank left) then left else right

pub data ScopeTable : Type 0 where
  organizations initiatives activities relationships content_items source_artifacts : ScopeTable
  claims accepted_facts : ScopeTable

-- The table and the type of resource for an action, by the prefix of its name.
unfoldable pub scope_table : Action → Option (ScopeTable × ResourceType)
scope_table Terms.organization_create = some (organizations, Terms.ResourceType.organization)
scope_table Terms.organization_read = some (organizations, Terms.ResourceType.organization)
scope_table Terms.initiative_create = some (initiatives, Terms.ResourceType.initiative)
scope_table Terms.initiative_read = some (initiatives, Terms.ResourceType.initiative)
scope_table Terms.proposal_withdraw = some (initiatives, Terms.ResourceType.initiative)
scope_table Terms.proposal_reject = some (initiatives, Terms.ResourceType.initiative)
scope_table Terms.proposal_rework = some (initiatives, Terms.ResourceType.initiative)
scope_table Terms.activity_create = some (activities, Terms.ResourceType.activity)
scope_table Terms.activity_read = some (activities, Terms.ResourceType.activity)
scope_table Terms.relationship_create = some (relationships, Terms.ResourceType.relationship)
scope_table Terms.relationship_end = some (relationships, Terms.ResourceType.relationship)
scope_table Terms.relationship_read = some (relationships, Terms.ResourceType.relationship)
scope_table Terms.content_create = some (content_items, Terms.ResourceType.content_item)
scope_table Terms.content_revise = some (content_items, Terms.ResourceType.content_item)
scope_table Terms.content_read = some (content_items, Terms.ResourceType.content_item)
scope_table Terms.source_capture = some (source_artifacts, Terms.ResourceType.source)
scope_table Terms.source_correct = some (source_artifacts, Terms.ResourceType.source)
scope_table Terms.source_tombstone = some (source_artifacts, Terms.ResourceType.source)
scope_table Terms.source_read = some (source_artifacts, Terms.ResourceType.source)
scope_table Terms.claim_create = some (claims, Terms.ResourceType.claim)
scope_table Terms.claim_read = some (claims, Terms.ResourceType.claim)
scope_table Terms.fact_read = some (accepted_facts, Terms.ResourceType.fact)
scope_table Terms.fact_accept = some (accepted_facts, Terms.ResourceType.fact)
scope_table Terms.fact_supersede = some (accepted_facts, Terms.ResourceType.fact)
scope_table Terms.fact_revoke = some (accepted_facts, Terms.ResourceType.fact)
scope_table _ = none

-- A row with the class of its space.
unfoldable pub space_scope : Database → Key → JsString → Option ResourceScope
space_scope database key space_id = elim (joined_space database key space_id) [
  | none ↦ none
  | some space ↦ some (record { space_id = space_id; access_class = space.access_class })
]

-- A row with the greater of its own class and that of its space.
unfoldable pub classed_scope : Database → Key → JsString → AccessClass → Option ResourceScope
classed_scope database key space_id own = elim (joined_space database key space_id) [
  | none ↦ none
  | some space ↦
      some (record { space_id = space_id; access_class = greatest_class space.access_class own })
]

unfoldable pub revised_scope :
    SecurityContext → Database → DecisionOptions → JsString → ℕ → Option ResourceScope
unfolding classed_scope
revised_scope context database options id revision_number =
    pick
      (λ item.
        pick
          (λ revision.
            provided
              (is_row context id item.key
                && (in_workspace context revision.tenant_id revision.workspace_id
                    && (str_eq revision.space_id item.space_id
                        && (str_eq revision.content_item_id item.key.id
                            && (revision.revision_number == revision_number
                                && (elim options.required_space_id [
                                  | none ↦ true
                                  | some required ↦ str_eq item.space_id required
                                ]))))))
              (classed_scope database item.key item.space_id
                (greatest_class item.access_class revision.access_class)))
          database.content_revisions)
      database.content_items

unfoldable pub load_scope :
    SecurityContext → Database → DecisionOptions → JsString → ScopeTable → Option ResourceScope
unfolding space_scope classed_scope revised_scope
load_scope context database options id organizations =
    pick (λ row. provided (is_row context id row.key) (space_scope database row.key row.space_id))
      database.organizations
load_scope context database options id initiatives =
    pick (λ row. provided (is_row context id row.key) (space_scope database row.key row.space_id))
      database.initiatives
load_scope context database options id activities =
    pick (λ row. provided (is_row context id row.key) (space_scope database row.key row.space_id))
      database.activities
load_scope context database options id relationships =
    pick (λ row. provided (is_row context id row.key) (space_scope database row.key row.space_id))
      database.relationships
load_scope context database options id content_items = elim options.content_revision [
  | some revision_number ↦ revised_scope context database options id revision_number
  | none ↦
      pick
        (λ row.
          provided (is_row context id row.key)
            (classed_scope database row.key row.space_id row.access_class))
        database.content_items
]
load_scope context database options id source_artifacts =
    pick
      (λ row.
        provided (is_row context id row.key)
          (classed_scope database row.key row.space_id row.access_class))
      database.source_artifacts
load_scope context database options id claims =
    pick
      (λ row.
        provided (is_row context id row.key)
          (classed_scope database row.key row.space_id row.access_class))
      database.claims
load_scope context database options id accepted_facts =
    pick
      (λ row.
        provided (is_row context id row.key)
          (classed_scope database row.key row.space_id row.access_class))
      database.accepted_facts

unfoldable pub load_b1_resource_scope :
    SecurityContext → Database → Action → ResourceRef → DecisionOptions → Option ResourceScope
unfolding scope_table load_scope
load_b1_resource_scope context database action resource options = elim (scope_table action) [
  | none ↦ none
  | some (table, expected) ↦
      if same_resource resource.type expected
      then load_scope context database options resource.id table
      else none
]

-- The space that a create action names, with the higher of its class and the requested one.
unfoldable pub create_scope :
    SecurityContext → Database → ResourceRef → DecisionOptions → Option ResourceScope
unfolding max_data_class
create_scope context database resource options = elim (live_space context database resource.id) [
  | none ↦ none
  | some space ↦ some (record {
    space_id = resource.id;
    access_class = elim options.requested_access_class [
      | none ↦ space.access_class
      | some requested ↦ max_data_class space.access_class requested
    ];
  })
]

-- `spaceId` and `accessClass` of `b1Decision`; a create action must name a space.
unfoldable pub b1_scope :
    SecurityContext → Database → Action → ResourceRef → DecisionOptions → Option ResourceScope
unfolding create_scope load_b1_resource_scope
b1_scope context database action resource options =
    if is_create_action action
    then if same_resource resource.type Terms.ResourceType.space
      then create_scope context database resource options
      else none
    else load_b1_resource_scope context database action resource options
