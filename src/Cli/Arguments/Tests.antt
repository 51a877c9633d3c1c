-- ===== src/Cli/Arguments/Tests.antt =====
-- Command lines, and the theorems on arguments at some of them.
use auth_sdk_go.Base.{◌≡◌, refl, List, [], ◌∷◌, ◌++◌, some}
use auth_sdk_go.Base.Text.{Bytes, bytes}
use auth_sdk_go.Cli.Arguments.{
  argument_kind, partition_args, is_global_bool, take_leading, dispatch,
}
use auth_sdk_go.Cli.Arguments.Kept.{Shuffles, DropsTerminator, partition_args-keeps}
use auth_sdk_go.Cli.Arguments.Hoist.{
  none_left, word_next, valued_next, dispatch-leading, dispatch_lost,
}

-- can user:a view --store s1
abbrev question : List Bytes
question = bytes "user:a" ∷ bytes "view" ∷ bytes "--store" ∷ bytes "s1" ∷ []

question_parts :
    partition_args is_global_bool question
    ≡ (bytes "--store" ∷ bytes "s1" ∷ [], bytes "user:a" ∷ bytes "view" ∷ [])
unfolding partition_args
question_parts = refl

-- --server x --json can user:a view --store s1
abbrev led : List Bytes
led = bytes "--server" ∷ bytes "x" ∷ bytes "--json" ∷ bytes "can" ∷ question

led-dispatch :
    dispatch is_global_bool led
    ≡ some (
      bytes "can",
      bytes "--store" ∷ bytes "s1" ∷ bytes "--server" ∷ bytes "x" ∷ bytes "--json" ∷ [],
      bytes "user:a" ∷ bytes "view" ∷ [],
    )
unfolding dispatch
led-dispatch = refl

-- --json can -- user:a
abbrev ended : List Bytes
ended = bytes "--json" ∷ bytes "can" ∷ bytes "--" ∷ bytes "user:a" ∷ []

partition_args-keeps_example :
    ((kept : List Bytes) × Shuffles
        (partition_args is_global_bool question).0
        (partition_args is_global_bool question).1
        kept
      × DropsTerminator question kept)
    × (partition_args is_global_bool (partition_args is_global_bool question).0
        ≡ ((partition_args is_global_bool question).0, []))
partition_args-keeps_example = partition_args-keeps is_global_bool question

dispatch-leading_example :
    dispatch is_global_bool led
    ≡ some (
      bytes "can",
      (bytes "--store" ∷ bytes "s1" ∷ []) ++ (take_leading led).0,
      bytes "user:a" ∷ bytes "view" ∷ [],
    )
unfolding take_leading argument_kind
dispatch-leading_example =
    dispatch-leading is_global_bool (λ name g. refl) led (bytes "can") question refl
      (word_next refl (word_next refl (valued_next refl none_left)))

dispatch_lost_example :
    dispatch is_global_bool ended ≡ some (bytes "can", [], bytes "user:a" ∷ (take_leading ended).0)
unfolding take_leading argument_kind
dispatch_lost_example =
    dispatch_lost is_global_bool ended (bytes "can") [] (bytes "user:a" ∷ []) refl none_left
