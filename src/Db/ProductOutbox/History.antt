-- ===== src/Db/ProductOutbox/History.antt =====
-- Any sequence of operations on the product outbox (product-outbox-repository.ts), by any callers
-- in any order. Each operation is one transaction.
use throughline.Prelude.{
  ℕ, ◌≤◌, ◌≡◌, refl, ◌∙◌, inl, inr, Bool, true, ◌||◌, Option, [], ◌∷◌, ok, arith,
}
use throughline.Db.ProductOutbox.{
  Codec, Scope, Handle, Row, Table, PublicationState, published, is_state, is_claim_token,
}
use throughline.Db.ProductOutbox.Claim.{ClaimOptions, ClaimEnv, claim_next}
use throughline.Db.ProductOutbox.Publish.{PublishEnv, publish_claimed}
use throughline.Db.ProductOutbox.Failure.{Failed, Recorded, record_failure}
use throughline.Db.ProductOutbox.Contract.{transition_allowed, is_terminal}
use throughline.Db.ProductOutbox.Frame.{
  SameEnvelope, Evolves, IsChecked, HasUniqueKeys, Evolves-HasUniqueKeys,
}
use throughline.Db.ProductOutbox.Claiming.{claim_next-Evolves}
use throughline.Db.ProductOutbox.Settling.{publish_claimed-Evolves}
use throughline.Db.ProductOutbox.Outcomes.{record_failure-Evolves}

abbrev pub is_settled : PublicationState → Bool
is_settled state = is_state state published || is_terminal state

-- What a row may become: the same event, claimed at least as often, and unchanged once it is
-- published or terminal.
pub record Progress (old new : Row) : Type 0 where
  pub envelope : SameEnvelope old new
  pub attempts : old.publication_attempt ≤ new.publication_attempt
  pub settled : is_settled old.publication_state ≡ true → new ≡ old

-- Row by row.
abbrev pub Follows : Table → Table → Type 0
Follows [] [] = Unit
Follows [] (new ∷ news) = ⊥
Follows (old ∷ olds) [] = ⊥
Follows (old ∷ olds) (new ∷ news) = Progress old new × Follows olds news

Progress-refl : (row : Row) → Progress row row
Progress-refl row = record {
  envelope = (refl, refl, refl, refl);
  attempts = omega arith;
  settled = λ s. refl;
}

Progress-trans : {a b c : Row} → Progress a b → Progress b c → Progress a c
Progress-trans p q = record {
  envelope = (
    q.envelope.0 ∙ p.envelope.0,
    q.envelope.1 ∙ p.envelope.1,
    q.envelope.2 ∙ p.envelope.2,
    q.envelope.3 ∙ p.envelope.3,
  );
  attempts = omega (arith, p.attempts, q.attempts);
  settled = λ s. let same = p.settled s in q.settled (rw same s) ∙ same;
}

step_attempts :
    (now : ℕ) (old new : Row)
    → transition_allowed now old new ≡ true
    → old.publication_attempt ≤ new.publication_attempt
unfolding transition_allowed
step_attempts now old new h = ground arith

step_unsettled :
    (now : ℕ) (old new : Row)
    → transition_allowed now old new ≡ true
    → is_settled old.publication_state ≡ true
    → ⊥
unfolding transition_allowed
step_unsettled now old new h s = ground arith

Follows-refl : (table : Table) → Follows table table
Follows-refl [] = tt
Follows-refl (row ∷ rows) = (Progress-refl row, Follows-refl rows)

Follows-trans : (a b c : Table) → Follows a b → Follows b c → Follows a c
Follows-trans [] [] [] p q = tt
Follows-trans [] [] (z ∷ zs) p q = absurd q
Follows-trans [] (y ∷ ys) c p q = absurd p
Follows-trans (x ∷ xs) [] c p q = absurd p
Follows-trans (x ∷ xs) (y ∷ ys) [] p q = absurd q
Follows-trans (x ∷ xs) (y ∷ ys) (z ∷ zs) (p, ps) (q, qs) =
    (Progress-trans p q, Follows-trans xs ys zs ps qs)

Evolves-Follows : (now : ℕ) (old new : Table) → Evolves now old new → Follows old new
Evolves-Follows now [] [] e = tt
Evolves-Follows now [] (n ∷ ns) e = absurd e
Evolves-Follows now (o ∷ os) [] e = absurd e
Evolves-Follows now (o ∷ os) (n ∷ ns) (inl same, e) =
    (rw same (Progress-refl o), Evolves-Follows now os ns e)
Evolves-Follows now (o ∷ os) (n ∷ ns) (inr step, e) = (
  record {
    envelope = step.envelope;
    attempts = step_attempts now o n step.allowed;
    settled = λ s. absurd (step_unsettled now o n step.allowed s);
  },
  Evolves-Follows now os ns e,
)

-- The operations that ran, the last one outermost. An operation that throws before it commits
-- leaves no entry.
pub data History (codec : Codec) (start : Table) : Table → Type 0 where
  started : History codec start start
  claimed_next :
      {table table' : Table} (scope : Scope) (options : ClaimOptions) (env : ClaimEnv)
      (claim : Option Handle)
      → History codec start table
      → is_claim_token env.token ≡ true
      → claim_next codec scope options env table ≡ ok (table', claim)
      → History codec start table'
  published_claim :
      {table table' : Table} (handle : Handle) (env : PublishEnv)
      → History codec start table
      → (publish_claimed codec handle env table).0 ≡ table'
      → History codec start table'
  recorded_failure :
      {table table' : Table} (owned role_ok : Bool) (handle : Handle) (failure : Failed) (now : ℕ)
      (r : Recorded)
      → History codec start table
      → record_failure codec owned role_ok handle failure now table ≡ ok (table', r)
      → History codec start table'

-- After any operations on a table whose rows meet the constraints and have distinct keys, both still
-- hold, and row by row the event is the same, its attempts have not gone down, and a row that was
-- published or terminal is as it was.
pub History-Follows :
    {codec : Codec} {start table : Table}
    → IsChecked start
    → HasUniqueKeys start
    → History codec start table
    → IsChecked table × HasUniqueKeys table × Follows start table
History-Follows {start = s} checked unique started = (checked, unique, Follows-refl s)
History-Follows {codec} {start = s} checked unique
      (claimed_next {table = t} {table' = t'} scope options env claim past token h) =
    let (c, u, f) = History-Follows checked unique past in
    let (swept, e1, e2, c', u', _) =
      claim_next-Evolves codec scope options env t t' claim c u token h in
    (
      c',
      u',
      Follows-trans s t t' f (
          Follows-trans t swept t' (Evolves-Follows env.now t swept e1)
            (Evolves-Follows env.now swept t' e2)),
    )
History-Follows {codec} {start = s} checked unique
      (published_claim {table = t} {table' = t'} handle env past h) =
    let (c, u, f) = History-Follows checked unique past in
    let (e, c') = publish_claimed-Evolves codec handle env t c in
    let e' = rw h at e in
    (
      rw h at c',
      Evolves-HasUniqueKeys env.mark_now t t' e' u,
      Follows-trans s t t' f (Evolves-Follows env.mark_now t t' e'),
    )
History-Follows {codec} {start = s} checked unique
      (recorded_failure {table = t} {table' = t'} owned role_ok handle failure now r past h) =
    let (c, u, f) = History-Follows checked unique past in
    let (e, c', _) = record_failure-Evolves codec owned role_ok handle failure now t t' r c h in
    (c', Evolves-HasUniqueKeys now t t' e u, Follows-trans s t t' f (Evolves-Follows now t t' e))
