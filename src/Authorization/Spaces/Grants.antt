-- ===== src/Authorization/Spaces/Grants.antt =====
-- packages/authorization/src/authorization-service.ts: what it means that a grant reaches a space,
-- and that the grants which the queries list are those that reach it.
use mathlib.Core.Path.{subst}
use mathlib.Core.List.{Memᴰ}
use throughline.Prelude.{
  ◌≡◌, ◌≢◌, refl, All, and_true, Bool, true, false, ◌&&◌, some, List, [], ◌∷◌, JsString, str_eq,
  str_eq_iff, inl, inr, arith, Bool-cases, str_leb, ap,
}
use throughline.Authorization.Terms.{SecurityContext}
use throughline.Authorization.Tables.{Database, Grant, Space}
use throughline.Authorization.Tables.Queries.{grants_by_id, insert_grant, names_actor}
use throughline.Authorization.Spaces.Walk.{is_restricted, parent_row, space_grants}

-- A grant of the actor on the space itself, or, where the space inherits, one that reaches its parent.
pub data Granted (context : SecurityContext) (database : Database) : Space → Type 0 where
  direct :
      {s : Space} (grant : Grant)
      → Memᴰ grant database.access_relationships
      → grant.resource_id ≡ s.key.id
      → names_actor context grant.subject_type grant.subject_id ≡ true
      → Granted context database s
  passed :
      {s parent : Space}
      → is_restricted s ≡ false
      → parent_row context database s ≡ some parent
      → Granted context database parent
      → Granted context database s

module _ (P : Grant → Type 0) where
  insert_grant-All : (g : Grant) (gs : List Grant) → P g → All P gs → All P (insert_grant g gs)
  unfolding insert_grant
  insert_grant-All g [] p h = (p, tt)
  insert_grant-All g (x ∷ gs) p (q, h) = elim (Bool-cases (str_leb g.key.id x.key.id)) [
    | inl before ↦ rw before (p, (q, h))
    | inr after ↦ rw after (q, insert_grant-All g gs p h)
  ]

module _ (test : Grant → Bool) (base : List Grant) where
  -- The sorted rows are rows of the table, and meet the test.
  abbrev Listed : Grant → Type 0
  Listed g = Memᴰ g base × (test g ≡ true)

  grants_by_id-Listed :
      (gs : List Grant)
      → ((g : Grant) → Memᴰ g gs → Memᴰ g base)
      → All Listed (grants_by_id test gs)
  unfolding grants_by_id
  grants_by_id-Listed [] within = tt
  grants_by_id-Listed (g ∷ gs) within =
      let rest : All Listed (grants_by_id test gs) =
        grants_by_id-Listed gs (λ x m. within x (Memᴰ.tail m)) in
      elim (Bool-cases (test g)) [
        | inl met ↦ rw met (insert_grant-All Listed g _ (within g (Memᴰ.head refl), met) rest)
        | inr missed ↦ rw missed rest
      ]

insert_grant_ne : (g : Grant) (gs : List Grant) → insert_grant g gs ≢ []
unfolding insert_grant
insert_grant_ne g [] = λ e. cc e
insert_grant_ne g (h ∷ gs) = ground arith

module _ (test : Grant → Bool) where
  grants_by_id_ne :
      (g : Grant) (gs : List Grant) → Memᴰ g gs → test g ≡ true → grants_by_id test gs ≢ []
  unfolding grants_by_id
  grants_by_id_ne g [] m met = elim m [ ]
  grants_by_id_ne g (x ∷ gs) (Memᴰ.head same) met =
      let e : test g ≡ test x = ap test same in
      ground (arith, e, met, insert_grant_ne x (grants_by_id test gs))
  grants_by_id_ne g (x ∷ gs) (Memᴰ.tail m) met =
      ground (arith, insert_grant_ne x (grants_by_id test gs), grants_by_id_ne g gs m met)

module _ (context : SecurityContext) (database : Database) where
  -- The first grant listed for a space is on the space, and the actor's.
  pub space_grants_head :
      (space_id : JsString) {g : Grant} {gs : List Grant}
      → space_grants context database space_id ≡ g ∷ gs
      → Memᴰ g database.access_relationships
        × (g.resource_id ≡ space_id)
        × (names_actor context g.subject_type g.subject_id ≡ true)
  unfolding space_grants
  space_grants_head space_id {g} {gs} listed =
      let test : Grant → Bool = λ grant.
        str_eq grant.resource_id space_id
        && names_actor context grant.subject_type grant.subject_id in
      let all : All (Listed test database.access_relationships) (g ∷ gs) =
        subst (All (Listed test database.access_relationships)) listed (
          grants_by_id-Listed test database.access_relationships database.access_relationships
            (λ x m. m)) in
      let (same, named) = and_true all.0.1 in (all.0.0, (str_eq_iff _ _).0 same, named)

  -- The grants listed for a space reach it.
  pub space_grants-Granted :
      (s : Space) {g : Grant} {gs : List Grant}
      → space_grants context database s.key.id ≡ g ∷ gs
      → Granted context database s
  space_grants-Granted s {g} listed =
      let (m, same, named) = space_grants_head s.key.id listed in direct g m same named

  pub space_grants_ne :
      (s : Space) (g : Grant)
      → Memᴰ g database.access_relationships
      → g.resource_id ≡ s.key.id
      → names_actor context g.subject_type g.subject_id ≡ true
      → space_grants context database s.key.id ≢ []
  unfolding space_grants
  space_grants_ne s g m same named =
      grants_by_id_ne _ g database.access_relationships m
        (rw ((str_eq_iff g.resource_id s.key.id).1 same) named)
