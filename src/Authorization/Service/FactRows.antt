-- ===== src/Authorization/Service/FactRows.antt =====
-- packages/authorization/src/authorization-service.ts: the rows that the queries on a fact find, said
-- of their columns.
use mathlib.Core.Path.{subst}
use mathlib.Core.List.{Memᴰ}
use throughline.Prelude.{
  ◌≡◌, refl, ◌⊎◌, inl, inr, Bool, true, false, Option, none, some, List, [], ◌∷◌, JsString,
  str_eq_iff, arith, and_true, ap, sym, ◌∙◌,
}
use throughline.Authorization.Terms.{SecurityContext}
use throughline.Authorization.Tables.{
  Database, Fact, FactStatus, FactSubject, Predicate, Space, Work,
}
use throughline.Authorization.Tables.Queries.{
  find_where-Mem, find_where-true, greatest_class, joined_space, pick_row, provided-some,
}
use throughline.Authorization.Mutations.{
  FactRow, in_generation, is_canonical_pair, is_generation, is_only, load_lifecycle_fact,
  load_subject, subject_table, unarchived,
}
use throughline.Authorization.Service.Standing.{IsKey, IsKey-of, IsSpaceOf, IsSpaceOf-of}

-- The fact is as it was accepted, or, where the options ask for a replay, as its change left it.
pub data Changeable (replay : Bool) (fact : Fact) : Type 0 where
  accepted :
      replay ≡ false → fact.status ≡ FactStatus.current → fact.version ≡ 1 → Changeable replay fact
  changed :
      replay ≡ true
      → (fact.status ≡ FactStatus.superseded) ⊎ (fact.status ≡ FactStatus.revoked)
      → fact.version ≡ 2
      → Changeable replay fact

-- The predicate is the one of the type of subject.
pub data IsPair (subject_type : FactSubject) (predicate : Predicate) : Type 0 where
  outcome :
      subject_type ≡ FactSubject.activity
      → predicate ≡ Predicate.activity_outcome
      → IsPair subject_type predicate
  objective :
      subject_type ≡ FactSubject.initiative
      → predicate ≡ Predicate.initiative_primary_objective
      → IsPair subject_type predicate

Changeable-of :
    (replay : Bool) (fact : Fact) (status : FactStatus)
    → fact.status ≡ status
    → is_generation replay status fact.version ≡ true
    → Changeable replay fact
unfolding is_generation
Changeable-of true fact FactStatus.superseded e h = changed refl (inl e) (ground (arith, h))
Changeable-of true fact FactStatus.revoked e h = changed refl (inr e) (ground (arith, h))
Changeable-of true fact FactStatus.current e h = cc
Changeable-of false fact FactStatus.current e h = accepted refl e (ground (arith, h))
Changeable-of false fact FactStatus.superseded e h = cc
Changeable-of false fact FactStatus.revoked e h = cc

in_generation-Changeable :
    (replay : Bool) (fact : Fact) → in_generation replay fact ≡ true → Changeable replay fact
unfolding in_generation
in_generation-Changeable replay fact h = Changeable-of replay fact fact.status refl h

IsPair-of :
    (subject_type : FactSubject) (predicate : Predicate)
    → is_canonical_pair subject_type predicate ≡ true
    → IsPair subject_type predicate
unfolding is_canonical_pair
IsPair-of FactSubject.activity Predicate.activity_outcome h = outcome refl refl
IsPair-of FactSubject.activity Predicate.initiative_primary_objective h = cc
IsPair-of FactSubject.initiative Predicate.activity_outcome h = cc
IsPair-of FactSubject.initiative Predicate.initiative_primary_objective h = objective refl refl

pub is_only_lem : (ids : List JsString) (id : JsString) → is_only ids id ≡ true → ids ≡ id ∷ []
unfolding is_only
is_only_lem [] id h = cc
is_only_lem (a ∷ []) id h = ap (λ x. x ∷ []) ((str_eq_iff a id).0 h)
is_only_lem (a ∷ b ∷ rest) id h = cc

-- What the query has found of the fact.
pub record IsFound (context : SecurityContext) (database : Database) (id : JsString) (replay : Bool)
    (row : FactRow) : Type 0 where
  pub space : Space
  pub stored : Memᴰ row.fact database.accepted_facts
  pub keyed : IsKey context id row.fact.key
  pub generation : Changeable replay row.fact
  pub pair : IsPair row.fact.subject_type row.fact.predicate
  pub placed : IsSpaceOf database row.fact.key row.fact.space_id space
  pub classed : row.access_class ≡ greatest_class space.access_class row.fact.access_class

joined_fact :
    (fact : Fact) (space : Option Space) {row : FactRow}
    → (elim space [
      | none ↦ none
      | some s ↦
          some
            (record { fact = fact; access_class = greatest_class s.access_class fact.access_class })
    ])
      ≡ some row
    → (s : Space) × (space ≡ some s)
      × (row.fact ≡ fact)
      × (row.access_class ≡ greatest_class s.access_class fact.access_class)
joined_fact fact none h = absurd (ground (arith, h))
joined_fact fact (some s) {row} h = (s, refl, ground (arith, h), ground (arith, h))

pub IsFound-of :
    (context : SecurityContext) (database : Database) (id : JsString) (replay : Bool)
    (row : FactRow)
    → load_lifecycle_fact context database id replay ≡ some row
    → IsFound context database id replay row
unfolding load_lifecycle_fact
IsFound-of context database id replay row found =
    let (fact, stored, at_fact) = pick_row _ database.accepted_facts found in
    let (met, joined) = provided-some _ _ at_fact in
    let (space, has_space, same, classed) =
      joined_fact fact (unarchived (joined_space database fact.key fact.space_id)) joined in
    let (keyed, rest) = and_true met in
    let (generation, pair) = and_true rest in
    record {
      space = space;
      stored = subst (λ f. Memᴰ f database.accepted_facts) (sym same) stored;
      keyed =
          subst (λ (f : Fact). IsKey context id f.key) (sym same)
            (IsKey-of context id fact.key keyed);
      generation =
          subst (Changeable replay) (sym same) (in_generation-Changeable replay fact generation);
      pair =
          subst (λ (f : Fact). IsPair f.subject_type f.predicate) (sym same)
            (IsPair-of fact.subject_type fact.predicate pair);
      placed =
          subst (λ (f : Fact). IsSpaceOf database f.key f.space_id space) (sym same)
            (IsSpaceOf-of database fact.key fact.space_id space has_space);
      classed =
          classed ∙ ap (λ (f : Fact). greatest_class space.access_class f.access_class) (sym same);
    }

-- The activity or initiative of a fact, by its type of subject.
abbrev pub IsSubject : Database → FactSubject → Work → Type 0
IsSubject database subject_type subject =
    ((subject_type ≡ FactSubject.activity) × Memᴰ subject database.activities)
    ⊎ ((subject_type ≡ FactSubject.initiative) × Memᴰ subject database.initiatives)

IsSubject-of :
    (database : Database) (subject_type : FactSubject) (subject : Work)
    → Memᴰ subject (subject_table database subject_type)
    → IsSubject database subject_type subject
unfolding subject_table
IsSubject-of database FactSubject.activity subject m = inl (refl, m)
IsSubject-of database FactSubject.initiative subject m = inr (refl, m)

pub load_subject-IsSubject :
    (context : SecurityContext) (database : Database) (subject_type : FactSubject)
    (id space_id : JsString) (subject : Work)
    → load_subject context database subject_type id space_id ≡ some subject
    → IsSubject database subject_type subject
      × IsKey context id subject.key
      × (subject.space_id ≡ space_id)
unfolding load_subject
load_subject-IsSubject context database subject_type id space_id subject h =
    let (row, space) = and_true (find_where-true _ (subject_table database subject_type) h) in
    (
      IsSubject-of database subject_type subject
          (find_where-Mem _ (subject_table database subject_type) h),
      IsKey-of context id subject.key row,
      (str_eq_iff subject.space_id space_id).0 space,
    )
