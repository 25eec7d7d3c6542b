-- ===== src/Db/ProductOutbox/Tests.antt =====
-- The theorems on the product outbox at a run.
use throughline.Prelude.{true, some, [], ◌∷◌}
use throughline.Db.ProductOutbox.{Table, PublicationState}
use throughline.Db.ProductOutbox.Publish.{publish_claimed}
use throughline.Db.ProductOutbox.Failure.{Recorded}
use throughline.Db.ProductOutbox.Frame.{Evolves, IsChecked, HasUniqueKeys}
use throughline.Db.ProductOutbox.Claiming.{Claimed, claim_next-Evolves}
use throughline.Db.ProductOutbox.Settling.{publish_claimed-Evolves}
use throughline.Db.ProductOutbox.Outcomes.{IfSettled, record_failure-Evolves}
use throughline.Db.ProductOutbox.Acknowledging.{Answers, publish_claimed-Answers}
use throughline.Db.ProductOutbox.History.{History, Follows, History-Follows}
use throughline.Db.ProductOutbox.Examples.{
  plain_codec, scope, new_row, options, claim_env, handle, claimed_row, publish_env, failure,
  retry_wait_row, one_key, claim_run, failure_run, new_row-IsChecked, claimed_row-IsChecked,
  token_valid,
}

claim_next-Evolves_example :
    (swept : Table) × Evolves 2000500 (new_row ∷ []) swept
    × Evolves 2000500 swept (claimed_row ∷ [])
    × IsChecked (claimed_row ∷ [])
    × HasUniqueKeys (claimed_row ∷ [])
    × Claimed options claim_env (claimed_row ∷ []) (some handle)
claim_next-Evolves_example =
    claim_next-Evolves plain_codec scope options claim_env (new_row ∷ []) (claimed_row ∷ [])
      (some handle) new_row-IsChecked (one_key new_row) token_valid claim_run

publish_claimed-Evolves_example :
    Evolves 3000200
      (claimed_row ∷ [])
      (publish_claimed plain_codec handle publish_env (claimed_row ∷ [])).0
    × IsChecked (publish_claimed plain_codec handle publish_env (claimed_row ∷ [])).0
publish_claimed-Evolves_example =
    publish_claimed-Evolves plain_codec handle publish_env (claimed_row ∷ []) claimed_row-IsChecked

publish_claimed-Answers_example :
    Answers handle publish_env
      (claimed_row ∷ [])
      (publish_claimed plain_codec handle publish_env (claimed_row ∷ [])).0
      (publish_claimed plain_codec handle publish_env (claimed_row ∷ [])).1
publish_claimed-Answers_example =
    publish_claimed-Answers plain_codec handle publish_env (claimed_row ∷ [])

record_failure-Evolves_example :
    Evolves 4000000 (claimed_row ∷ []) (retry_wait_row ∷ [])
    × IsChecked (retry_wait_row ∷ [])
    × IfSettled
        (Recorded.in_state PublicationState.retry_wait)
        (claimed_row ∷ [])
        (retry_wait_row ∷ [])
record_failure-Evolves_example =
    record_failure-Evolves plain_codec true true handle failure 4000000 (claimed_row ∷ [])
      (retry_wait_row ∷ []) (Recorded.in_state PublicationState.retry_wait) claimed_row-IsChecked
      failure_run

claim_and_fail : History plain_codec (new_row ∷ []) (retry_wait_row ∷ [])
claim_and_fail =
    History.recorded_failure true true handle failure 4000000
      (Recorded.in_state PublicationState.retry_wait)
      (History.claimed_next scope options claim_env (some handle) History.started token_valid
        claim_run)
      failure_run

History-Follows_example :
    IsChecked (retry_wait_row ∷ [])
    × HasUniqueKeys (retry_wait_row ∷ [])
    × Follows (new_row ∷ []) (retry_wait_row ∷ [])
History-Follows_example = History-Follows new_row-IsChecked (one_key new_row) claim_and_fail
