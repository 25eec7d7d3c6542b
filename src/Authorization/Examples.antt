-- ===== src/Authorization/Examples.antt =====
-- A workspace to evaluate the decisions on: a root with a department below it and a team below that,
-- a member with a grant on the department, an initiative of theirs, a proposal and two facts.
use throughline.Prelude.{ℕ, true, false, Option, none, some, [], ◌∷◌, JsString, units}
use throughline.Core.AccessClass.{confidential, restricted, workspace}
use throughline.Authorization.Terms.{
  DecisionOptions, MembershipRole, ResourceRef, ResourceType, SecurityContext,
}
use throughline.Authorization.Tables.{
  Claim, Database, Fact, FactStatus, Grant, GrantSubject, InheritanceMode, Key, MembershipStatus,
  Predicate, Relation, Space, SpaceKind, FactSubject, UserStatus, Work,
}
use throughline.Authorization.Actors.{ActiveMembership}

abbrev pub key : JsString → Key
key id = record { tenant_id = units "t"; workspace_id = units "w"; id = id }

abbrev pub space : JsString → Option JsString → SpaceKind → Space
space id parent kind = record {
  key = key id;
  parent_space_id = parent;
  kind = kind;
  access_class = workspace;
  inheritance_mode = InheritanceMode.inherit;
  is_archived = false;
}

abbrev pub root : Space
root = space (units "root") none SpaceKind.workspace_root

abbrev pub department : Space
department = space (units "dept") (some (units "root")) SpaceKind.organization

abbrev pub team : Space
team = space (units "team") (some (units "dept")) SpaceKind.project

abbrev pub grant : Grant
grant = record {
  key = key (units "g");
  resource_id = units "dept";
  subject_type = GrantSubject.membership;
  subject_id = units "m";
  relation = Relation.contributor;
}

abbrev pub initiative : Work
initiative = record { key = key (units "i"); space_id = units "team"; owner_person_id = units "p" }

abbrev pub claim : Claim
claim = record {
  key = key (units "c");
  space_id = units "team";
  access_class = restricted;
  subject_type = FactSubject.initiative;
  subject_id = units "i";
  predicate = Predicate.initiative_primary_objective;
  created_by_user_id = units "u";
  created_by_membership_id = units "m";
}

abbrev pub fact : JsString → FactStatus → ℕ → Fact
fact id status version = record {
  key = key id;
  space_id = units "team";
  access_class = restricted;
  subject_type = FactSubject.initiative;
  subject_id = units "i";
  predicate = Predicate.initiative_primary_objective;
  status = status;
  version = version;
}

abbrev pub database : Database
database = record {
  policy_versions = (record { key = key (units "v"); is_active = true }) ∷ [];
  memberships =
      (record {
        key = key (units "m");
        user_id = units "u";
        person_id = some (units "p");
        role = MembershipRole.member;
        status = MembershipStatus.active;
      })
      ∷ [];
  users = (record { id = units "u"; status = UserStatus.active }) ∷ [];
  spaces = root ∷ department ∷ team ∷ [];
  access_relationships = grant ∷ [];
  people = key (units "p") ∷ [];
  organizations = [];
  initiatives = initiative ∷ [];
  activities = [];
  relationships = [];
  content_items = [];
  content_revisions = [];
  source_artifacts = [];
  claims = claim ∷ [];
  accepted_facts =
      fact (units "f") FactStatus.current 1 ∷ fact (units "old") FactStatus.revoked 2 ∷ [];
  activity_attendees = [];
  initiative_people = [];
}

abbrev pub context : SecurityContext
context = record {
  tenant_id = units "t";
  workspace_id = units "w";
  actor_user_id = some (units "u");
  actor_membership_id = some (units "m");
  actor_display_person_id = some (units "p");
  service_principal_id = none;
  agent_principal_id = none;
  requested_space_ids = units "team" ∷ [];
  data_class_ceiling = confidential;
  policy_version = units "v";
}

abbrev pub options : DecisionOptions
options = record {
  explain = false;
  person_use_site = none;
  content_revision = none;
  required_space_id = none;
  requested_access_class = none;
  lock_authority = true;
  fact_lifecycle_replay = false;
}

abbrev pub member : ActiveMembership
member = record {
  membership_id = units "m";
  user_id = units "u";
  person_id = some (units "p");
  role = MembershipRole.member;
  membership_status = MembershipStatus.active;
  user_status = UserStatus.active;
}

abbrev pub resource : ResourceType → JsString → ResourceRef
resource type id = record { type = type; id = id }
