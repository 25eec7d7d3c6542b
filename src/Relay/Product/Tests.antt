-- ===== src/Relay/Product/Tests.antt =====
-- The theorems on the relay at a run that claims and publishes an event.
use throughline.Prelude.{◌≡◌, refl, true, [], ◌∷◌, ok, units}
use throughline.Db.ProductOutbox.{is_safe_code}
use throughline.Db.ProductOutbox.Frame.{IsChecked, HasUniqueKeys}
use throughline.Db.ProductOutbox.Acknowledging.{HasPublished}
use throughline.Db.ProductOutbox.History.{Follows}
use throughline.Db.ProductOutbox.Examples.{
  plain_codec, scope, options, claim_env, publish_env, handle, event, new_row, claimed_row,
  new_row-IsChecked, one_key, token_valid, publish_run,
}
use throughline.Relay.Errors.{normalize_error_code}
use throughline.Relay.Errors.Laws.{normalize_error_code_safe}
use throughline.Relay.Product.{RunResult, FailureEnv, relay_claimed, publish_next, settle}
use throughline.Relay.Product.Laws.{Runs, publish_next-Follows, relay_claimed-HasPublished}

abbrev failure_env : FailureEnv
failure_env = record { owned = true; role_ok = true; now = 4000000 }

publish_next-Follows_example :
    IsChecked
      (publish_next plain_codec
        (units "E")
        scope
        options
        claim_env
        publish_env
        failure_env
        failure_env
        (new_row ∷ [])).0
    × HasUniqueKeys
        (publish_next plain_codec
          (units "E")
          scope
          options
          claim_env
          publish_env
          failure_env
          failure_env
          (new_row ∷ [])).0
    × Follows
        (new_row ∷ [])
        (publish_next plain_codec
          (units "E")
          scope
          options
          claim_env
          publish_env
          failure_env
          failure_env
          (new_row ∷ [])).0
    × Runs plain_codec
        (units "E")
        scope
        options
        claim_env
        publish_env
        (new_row ∷ [])
        (publish_next plain_codec
          (units "E")
          scope
          options
          claim_env
          publish_env
          failure_env
          failure_env
          (new_row ∷ [])).0
        (publish_next plain_codec
          (units "E")
          scope
          options
          claim_env
          publish_env
          failure_env
          failure_env
          (new_row ∷ [])).1
publish_next-Follows_example =
    publish_next-Follows plain_codec (units "E") scope options claim_env publish_env failure_env
      failure_env (new_row ∷ []) new_row-IsChecked (one_key new_row) token_valid

relay_run :
    (relay_claimed plain_codec
      (units "E")
      handle
      publish_env
      failure_env
      failure_env
      (claimed_row ∷ [])).1
    ≡ ok (RunResult.run_published event (units "m-1"))
unfolding relay_claimed settle
relay_run = rw publish_run refl

relay_claimed-HasPublished_example :
    (publish_env.publish ≡ ok (units "m-1"))
    × (event ≡ handle.event_id)
    × HasPublished handle
        (units "m-1")
        (relay_claimed plain_codec
          (units "E")
          handle
          publish_env
          failure_env
          failure_env
          (claimed_row ∷ [])).0
relay_claimed-HasPublished_example =
    relay_claimed-HasPublished plain_codec (units "E") handle publish_env failure_env failure_env
      (claimed_row ∷ []) event (units "m-1") relay_run

normalize_error_code_safe_example :
    is_safe_code (normalize_error_code (units "AWS.SimpleQueueService.NonExistentQueue")) ≡ true
normalize_error_code_safe_example =
    normalize_error_code_safe (units "AWS.SimpleQueueService.NonExistentQueue")

normalize_error_code_run :
    normalize_error_code (units "AWS.SimpleQueueService.NonExistentQueue")
    ≡ units "aws_simple_queue_service_non_existent_queue"
unfolding normalize_error_code
normalize_error_code_run = refl
