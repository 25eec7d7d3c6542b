-- ===== src/Authorization/Terms.antt =====
-- packages/authorization/src/types.ts and packages/core-types/src/index.ts: the actions, resources
-- and options of a decision, the context that it is asked in, and the decision. An optional flag
-- that the code only compares with `true` is a Bool. Of the context, the fields that no decision
-- reads are left out.
use throughline.Prelude.{
  ℕ, Bool, true, false, Option, none, some, List, [], ◌∷◌, JsString, units, ◌==◌, str_eq,
  if◌then◌else◌, leb,
}
use throughline.Core.AccessClass.{AccessClass, rank}

-- AuthorizationAction
pub data Action : Type 0 where
  tenant_read workspace_read workspace_manage_members space_read space_create_child : Action
  space_manage_access identity_me_read membership_read foundation_proof_create : Action
  foundation_relay_publish foundation_worker_consume product_outbox_relay_publish : Action
  organization_create organization_read initiative_create initiative_read activity_create : Action
  activity_read person_read relationship_create relationship_end relationship_read : Action
  content_create content_revise content_read source_capture source_correct : Action
  source_tombstone source_read claim_create claim_read proposal_withdraw proposal_reject : Action
  proposal_rework fact_read fact_accept fact_supersede fact_revoke : Action

pub data ResourceType : Type 0 where
  space person team organization initiative activity content task commitment : ResourceType
  decision use_case readiness_profile tenant workspace user membership : ResourceType
  service_principal agent_principal relationship content_item source source_chunk : ResourceType
  claim fact derived_view : ResourceType

unfoldable pub type_number : ResourceType → ℕ
type_number space = 0
type_number person = 1
type_number team = 2
type_number organization = 3
type_number initiative = 4
type_number activity = 5
type_number content = 6
type_number task = 7
type_number commitment = 8
type_number decision = 9
type_number use_case = 10
type_number readiness_profile = 11
type_number tenant = 12
type_number workspace = 13
type_number user = 14
type_number membership = 15
type_number service_principal = 16
type_number agent_principal = 17
type_number relationship = 18
type_number content_item = 19
type_number source = 20
type_number source_chunk = 21
type_number claim = 22
type_number fact = 23
type_number derived_view = 24

-- `===` on the type of a resource.
unfoldable pub same_resource : ResourceType → ResourceType → Bool
unfolding type_number
same_resource a b = type_number a == type_number b

pub record ResourceRef : Type 0 where
  pub type : ResourceType
  pub id : JsString

pub record SecurityContext : Type 0 where
  pub tenant_id : JsString
  pub workspace_id : JsString
  pub actor_user_id : Option JsString
  pub actor_membership_id : Option JsString
  pub actor_display_person_id : Option JsString
  pub service_principal_id : Option JsString
  pub agent_principal_id : Option JsString
  pub requested_space_ids : List JsString
  pub data_class_ceiling : AccessClass
  pub policy_version : JsString

pub record DecisionOptions : Type 0 where
  pub explain : Bool
  pub person_use_site : Option ResourceRef
  pub content_revision : Option ℕ
  pub required_space_id : Option JsString
  pub requested_access_class : Option AccessClass
  pub lock_authority : Bool
  pub fact_lifecycle_replay : Bool

pub record AuthorizationDecision : Type 0 where
  pub allowed : Bool
  pub reason_code : JsString
  pub explanation : Option JsString
  pub policy_version : JsString
  pub evaluated_relationships : Option (List JsString)

pub data MembershipRole : Type 0 where
  owner admin member viewer : MembershipRole

-- `role === "owner" || role === "admin"`
unfoldable pub is_owner_or_admin : MembershipRole → Bool
is_owner_or_admin owner = true
is_owner_or_admin admin = true
is_owner_or_admin _ = false

-- An optional text in a condition: missing and empty both count as false.
unfoldable pub is_given : Option JsString → Bool
is_given none = false
is_given (some []) = false
is_given (some (c ∷ cs)) = true

-- A column compared with an optional parameter: a missing one is NULL, and equals nothing.
unfoldable pub equals_given : JsString → Option JsString → Bool
equals_given column none = false
equals_given column (some value) = str_eq column value

unfoldable pub allow :
    JsString → JsString → Option JsString → Option (List JsString) → AuthorizationDecision
allow policy_version reason_code explanation evaluated_relationships = record {
  allowed = true;
  reason_code = reason_code;
  explanation = explanation;
  policy_version = policy_version;
  evaluated_relationships = evaluated_relationships;
}

unfoldable pub deny : JsString → JsString → Option JsString → AuthorizationDecision
deny policy_version reason_code explanation = record {
  allowed = false;
  reason_code = reason_code;
  explanation = explanation;
  policy_version = policy_version;
  evaluated_relationships = none;
}

-- nonLeakingB1Deny
unfoldable pub non_leaking_b1_deny : JsString → AuthorizationDecision
unfolding deny
non_leaking_b1_deny policy_version = deny policy_version (units "b1_resource_not_available") none

unfoldable pub owner_or_admin_decision :
    JsString → MembershipRole → JsString → AuthorizationDecision
unfolding is_owner_or_admin allow deny
owner_or_admin_decision policy_version role reason_code =
    if is_owner_or_admin role
    then allow policy_version reason_code none none
    else deny policy_version (units "role_denied")
        (some (units "Only owners or admins may perform this action"))

unfoldable pub can_read_data_class : AccessClass → AccessClass → Bool
unfolding rank
can_read_data_class ceiling resource = leb (rank resource) (rank ceiling)

-- isB1Action
unfoldable pub is_b1_action : Action → Bool
is_b1_action tenant_read = false
is_b1_action workspace_read = false
is_b1_action workspace_manage_members = false
is_b1_action space_read = false
is_b1_action space_create_child = false
is_b1_action space_manage_access = false
is_b1_action identity_me_read = false
is_b1_action membership_read = false
is_b1_action foundation_proof_create = false
is_b1_action foundation_relay_publish = false
is_b1_action foundation_worker_consume = false
is_b1_action product_outbox_relay_publish = false
is_b1_action _ = true

-- isTruthMutationAction
unfoldable pub is_truth_mutation_action : Action → Bool
is_truth_mutation_action claim_create = true
is_truth_mutation_action proposal_withdraw = true
is_truth_mutation_action proposal_reject = true
is_truth_mutation_action proposal_rework = true
is_truth_mutation_action fact_accept = true
is_truth_mutation_action fact_supersede = true
is_truth_mutation_action fact_revoke = true
is_truth_mutation_action _ = false

-- The set `createActions` of `b1Decision`.
unfoldable pub is_create_action : Action → Bool
is_create_action organization_create = true
is_create_action initiative_create = true
is_create_action activity_create = true
is_create_action relationship_create = true
is_create_action content_create = true
is_create_action source_capture = true
is_create_action _ = false

-- The set `readActions` of `b1Decision`.
unfoldable pub is_read_action : Action → Bool
is_read_action organization_read = true
is_read_action initiative_read = true
is_read_action activity_read = true
is_read_action relationship_read = true
is_read_action content_read = true
is_read_action source_read = true
is_read_action claim_read = true
is_read_action fact_read = true
is_read_action _ = false
