-- ===== src/Recovery/Tags.antt =====
-- failure_classification.py, `failure_class_tags`: a run's failure class as tags, which
-- recovery_state_current.py reads back.
use ai_native_governed_data.Prelude.{
  String, Option, none, some, List, [], ◌∷◌, ◌++◌, ◌≡◌, ap, ◌∙◌, if◌then◌else◌, is_empty, arith,
  string_discrete, false,
}
use ai_native_governed_data.Prelude.Dict.{lookup}
use ai_native_governed_data.Recovery.Failure.{
  FailureClass, FailureClassSource, execution_adapter, dbt_artifact, dbt_command,
  explicit_application, unknown_source, value_of,
}
use ai_native_governed_data.Recovery.Failure.Proven.{parse_class-value_of}
use ai_native_governed_data.Recovery.State.{class_of_tag, DagsterRun, failure_class_from_run}

unfoldable pub source_value : FailureClassSource → String
source_value execution_adapter = "execution_adapter"
source_value dbt_artifact = "dbt_artifact"
source_value dbt_command = "dbt_command"
source_value explicit_application = "explicit_application"
source_value unknown_source = "unknown"

-- `if text: tags[key] = text`
abbrev pub optional_tag : String → Option String → List (String × String)
optional_tag key none = []
optional_tag key (some text) = if is_empty text then [] else (key, text) ∷ []

-- `ValueError` for an empty component is `none`.
unfoldable pub failure_class_tags :
    FailureClass
    → FailureClassSource
    → String
    → Option String
    → Option String
    → Option (List (String × String))
failure_class_tags failure_class source component reason_code stage =
    if is_empty component
    then none
    else some (
        ("commerce/failure_class", value_of failure_class)
          ∷ ("commerce/failure_class_source", source_value source)
          ∷ ("commerce/failure_component", component)
          ∷ optional_tag "commerce/failure_reason" reason_code
        ++ optional_tag "commerce/failure_stage" stage)

written_tags :
    (c : FailureClass) (source : FailureClassSource) (component reason stage : String)
    (tags : List (String × String))
    → is_empty reason ≡ false
    → is_empty stage ≡ false
    → failure_class_tags c source component (some reason) (some stage) ≡ some tags
    → tags
      ≡ ("commerce/failure_class", value_of c)
        ∷ ("commerce/failure_class_source", source_value source)
        ∷ ("commerce/failure_component", component)
        ∷ ("commerce/failure_reason", reason)
        ∷ ("commerce/failure_stage", stage)
        ∷ []
unfolding failure_class_tags
written_tags c source component reason stage tags named staged written = ground arith

class_of_tag_value : (c : FailureClass) → class_of_tag (some (value_of c)) ≡ c
class_of_tag_value c = ground (arith, parse_class-value_of c)

-- A run that carries the tags of a failure class with a reason and a stage that are not empty, and
-- after them any others, is read as a run of that class, and its source, component, reason and stage
-- are read back too.
pub failure_class_tags-read :
    (c : FailureClass) (source : FailureClassSource) (component reason stage : String)
    (tags others : List (String × String)) (run : DagsterRun)
    → is_empty reason ≡ false
    → is_empty stage ≡ false
    → failure_class_tags c source component (some reason) (some stage) ≡ some tags
    → run.tags ≡ tags ++ others
    → (failure_class_from_run (some run) ≡ c)
      × (lookup string_discrete "commerce/failure_class_source" run.tags
          ≡ some (source_value source))
      × (lookup string_discrete "commerce/failure_component" run.tags ≡ some component)
      × (lookup string_discrete "commerce/failure_reason" run.tags ≡ some reason)
      × (lookup string_discrete "commerce/failure_stage" run.tags ≡ some stage)
unfolding failure_class_from_run lookup string_discrete
failure_class_tags-read c source component reason stage tags others run named staged written
      carried =
    let shape = written_tags c source component reason stage tags named staged written in
    let whole = carried ∙ ap (λ ts. ts ++ others) shape in
    (rw (whole, class_of_tag_value c), rw whole, rw whole, rw whole, rw whole)
