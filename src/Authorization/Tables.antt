-- ===== src/Authorization/Tables.antt =====
-- The rows that the queries of packages/authorization/src/authorization-service.ts read: of each
-- table the columns that they name, and of a database the rows that row-level security shows to the
-- tenant transaction. A row's identifiers are texts in the canonical form of a UUID.
pub mod Queries
use throughline.Prelude.{ℕ, Bool, Option, List, JsString}
use throughline.Core.AccessClass.{AccessClass}
use throughline.Authorization.Terms.{MembershipRole}

-- The columns tenant_id, workspace_id and id.
pub record Key : Type 0 where
  pub tenant_id : JsString
  pub workspace_id : JsString
  pub id : JsString

pub record PolicyVersion : Type 0 where
  pub key : Key
  pub is_active : Bool

pub data MembershipStatus : Type 0 where
  invited active suspended : MembershipStatus

pub data UserStatus : Type 0 where
  active disabled : UserStatus

pub record Membership : Type 0 where
  pub key : Key
  pub user_id : JsString
  pub person_id : Option JsString
  pub role : MembershipRole
  pub status : MembershipStatus

pub record User : Type 0 where
  pub id : JsString
  pub status : UserStatus

pub data SpaceKind : Type 0 where
  workspace_root organization initiative project knowledge : SpaceKind

pub data InheritanceMode : Type 0 where
  inherit restricted : InheritanceMode

pub record Space : Type 0 where
  pub key : Key
  pub parent_space_id : Option JsString
  pub kind : SpaceKind
  pub access_class : AccessClass
  pub inheritance_mode : InheritanceMode
  pub is_archived : Bool

pub data GrantSubject : Type 0 where
  user membership service_principal agent_principal : GrantSubject

-- A row of access.access_relationships: its resource is a space, and its relation one of owner,
-- manager, contributor and viewer, by the checks of the table.
pub data Relation : Type 0 where
  owner manager contributor viewer : Relation

pub record Grant : Type 0 where
  pub key : Key
  pub resource_id : JsString
  pub subject_type : GrantSubject
  pub subject_id : JsString
  pub relation : Relation

pub record Organization : Type 0 where
  pub key : Key
  pub space_id : JsString

-- A row of work.activities or work.initiatives.
pub record Work : Type 0 where
  pub key : Key
  pub space_id : JsString
  pub owner_person_id : JsString

pub data EndKind : Type 0 where
  person other : EndKind

pub record Relationship : Type 0 where
  pub key : Key
  pub space_id : JsString
  pub subject_type : EndKind
  pub subject_id : JsString
  pub object_type : EndKind
  pub object_id : JsString
  pub context_type : Option EndKind
  pub context_id : JsString

-- A row of content.content_items or content.source_artifacts.
pub record Content : Type 0 where
  pub key : Key
  pub space_id : JsString
  pub access_class : AccessClass

pub record Revision : Type 0 where
  pub tenant_id : JsString
  pub workspace_id : JsString
  pub space_id : JsString
  pub content_item_id : JsString
  pub revision_number : ℕ
  pub access_class : AccessClass

pub data FactSubject : Type 0 where
  activity initiative : FactSubject

pub data Predicate : Type 0 where
  activity_outcome initiative_primary_objective : Predicate

pub record Claim : Type 0 where
  pub key : Key
  pub space_id : JsString
  pub access_class : AccessClass
  pub subject_type : FactSubject
  pub subject_id : JsString
  pub predicate : Predicate
  pub created_by_user_id : JsString
  pub created_by_membership_id : JsString

pub data FactStatus : Type 0 where
  current superseded revoked : FactStatus

pub record Fact : Type 0 where
  pub key : Key
  pub space_id : JsString
  pub access_class : AccessClass
  pub subject_type : FactSubject
  pub subject_id : JsString
  pub predicate : Predicate
  pub status : FactStatus
  pub version : ℕ

-- A row of work.activity_attendees.
pub record Attendee : Type 0 where
  pub tenant_id : JsString
  pub workspace_id : JsString
  pub activity_id : JsString
  pub person_id : JsString

-- A row of work.initiative_people, with `ended_at IS NULL`.
pub record Participant : Type 0 where
  pub tenant_id : JsString
  pub workspace_id : JsString
  pub initiative_id : JsString
  pub person_id : JsString
  pub is_current : Bool

pub record Database : Type 0 where
  pub policy_versions : List PolicyVersion
  pub memberships : List Membership
  pub users : List User
  pub spaces : List Space
  pub access_relationships : List Grant
  pub people : List Key
  pub organizations : List Organization
  pub initiatives : List Work
  pub activities : List Work
  pub relationships : List Relationship
  pub content_items : List Content
  pub content_revisions : List Revision
  pub source_artifacts : List Content
  pub claims : List Claim
  pub accepted_facts : List Fact
  pub activity_attendees : List Attendee
  pub initiative_people : List Participant

-- The queries of a decision. Other transactions may commit between two of them: a decision reads
-- `tx q`, the database as the query `q` finds it. Each runs at most once in a decision but
-- `grant_lock`, which runs once for a direct and then once for an inherited grant; both runs find
-- the same database here.
pub data Query : Type 0 where
  policy membership target_scope target_subject proposal use_site : Query
  space_lock space_exists space_access path path_lock path_again grant_lock : Query
  contributor : Query

abbrev pub Transaction : Type 0
Transaction = Query → Database
