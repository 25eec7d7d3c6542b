-- ===== src/Db/Migrations/Journal.antt =====
-- The journal against the known migrations (packages/db/src/migrations.ts).
use throughline.Prelude.{
  ◌≡◌, refl, ap, true, false, List, [], ◌∷◌, ◌++◌, map, JsString, str_eq, All, str_eq_iff,
  str_eq_refl, arith,
}
use throughline.Db.Migrations.{
  Migration, Entry, recorded_checksum, is_recorded, entry_of, is_prefix,
}

-- No two of the migrations have the same identifier.
abbrev pub AreDistinct : List Migration → Type 0
AreDistinct [] = Unit
AreDistinct (m ∷ ms) = All (λ (n : Migration). str_eq m.id n.id ≡ false) ms × AreDistinct ms

abbrev pub ids : List Migration → List JsString
ids ms = map (λ (m : Migration). m.id) ms

pub head_after :
    (P : Migration → Type 0) (before : List Migration) (m : Migration) (ms : List Migration)
    → All P (before ++ m ∷ ms)
    → P m
head_after P [] m ms h = h.0
head_after P (n ∷ before) m ms h = head_after P before m ms h.1

-- A migration is not recorded where only the ones before it are.
pub recorded_before :
    (before : List Migration) (m : Migration) (ms : List Migration)
    → AreDistinct (before ++ m ∷ ms)
    → is_recorded (map entry_of before) m.id ≡ false
unfolding is_recorded recorded_checksum entry_of
recorded_before [] m ms h = refl
recorded_before (n ∷ before) m ms h =
    let apart = head_after (λ k. str_eq n.id k.id ≡ false) before m ms h.0 in
    let rest = recorded_before before m ms h.1 in ground (arith, apart, rest)

pub recorded_at :
    (before : List Migration) (m : Migration) (ms : List Migration)
    → is_recorded (map entry_of (before ++ m ∷ ms)) m.id ≡ true
unfolding is_recorded recorded_checksum entry_of
recorded_at [] m ms = ground (arith, str_eq_refl m.id)
recorded_at (n ∷ before) m ms = let rest = recorded_at before m ms in ground (arith, rest)

pub is_prefix_of :
    (journal : List Entry) (known : List Migration)
    → is_prefix journal known ≡ true
    → (old : List Migration) × (rest : List Migration) × (known ≡ old ++ rest)
      × (journal ≡ map entry_of old)
unfolding is_prefix entry_of
is_prefix_of [] known h = ([], known, refl, refl)
is_prefix_of (e ∷ es) [] h = cc
is_prefix_of (e ∷ es) (m ∷ known) h =
    let same : (str_eq e.id m.id ≡ true)
        × (str_eq e.checksum m.checksum ≡ true)
        × (is_prefix es known ≡ true) =
      ground (arith, h) in
    let (old, rest, split, entries) = is_prefix_of es known same.2 in
    let id = (str_eq_iff e.id m.id).0 same.0 in
    let checksum = (str_eq_iff e.checksum m.checksum).0 same.1 in
    (m ∷ old, rest, ap (λ l. m ∷ l) split, cc)

pub is_prefix-map : (old rest : List Migration) → is_prefix (map entry_of old) (old ++ rest) ≡ true
unfolding is_prefix entry_of
is_prefix-map [] rest = refl
is_prefix-map (m ∷ old) rest =
    ground (arith, str_eq_refl m.id, str_eq_refl m.checksum, is_prefix-map old rest)
