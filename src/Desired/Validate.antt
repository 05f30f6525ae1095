-- ===== src/Desired/Validate.antt =====
-- _validate_required_capabilities, _validate_desired_upsert, _validate_desired_delete and
-- _validated_snapshot_resource of storage.py, with CAPABILITIES and RESOURCE_TYPES of control.py.
use workspace_zulip_bridge.Common.{
  ℕ, String, Bool, true, false, not, ◌&&◌, ◌||◌, Option, none, some, List, [], ◌∷◌, ◌==◌, str_eq,
  ltb, leb, if◌then◌else◌, same,
}
use workspace_zulip_bridge.Queue.Types.{Result, ok, value_error, ◌>>=◌, ◌>>◌, require}
use workspace_zulip_bridge.Desired.{Requirement, Resource, Change}

-- control.RESOURCE_TYPES
abbrev pub is_resource_type : String → Bool
is_resource_type kind =
    str_eq kind "custom_ca_bundle"
    || str_eq kind "external_account"
    || str_eq kind "external_chat_assignment"
    || str_eq kind "external_provider_policy"

-- control.CAPABILITIES: the revision and the limits of a capability.
abbrev pub revision_one : List String
revision_one =
    "messenger.chat_catalog" ∷ "messenger.message.send" ∷ "messenger.message.edit"
    ∷ "messenger.message.delete" ∷ "messenger.message.read.paging" ∷ "messenger.reaction.write"
    ∷ "messenger.membership.write" ∷ "messenger.notification.write" ∷ "messenger.stream.delete"
    ∷ "messenger.stream.rename" ∷ "messenger.topic.create" ∷ "messenger.topic.delete"
    ∷ "messenger.topic.rename" ∷ []

abbrev pub is_one_of : String → List String → Bool
is_one_of name [] = false
is_one_of name (other ∷ names) = str_eq name other || is_one_of name names

unfoldable pub capability : String → Option (ℕ × List (String × ℕ))
capability name =
    if is_one_of name revision_one
    then some (1, [])
    else if str_eq name "messenger.message.read"
    then some (2, [])
    else if str_eq name "messenger.file.transfer"
    then some (1, ("max_file_bytes", 52428800) ∷ [])
    else none

abbrev pub limit_of : String → List (String × ℕ) → Option ℕ
limit_of name [] = none
limit_of name ((other, limit) ∷ limits) =
    if str_eq other name then some limit else limit_of name limits

abbrev pub limits_met : List (String × ℕ) → List (String × ℕ) → Bool
limits_met supported [] = true
limits_met supported ((name, limit) ∷ limits) =
    same (limit_of name supported) (some limit) && limits_met supported limits

unfoldable pub requirement_met : Option (ℕ × List (String × ℕ)) → Option Requirement → Bool
requirement_met none _ = false
requirement_met (some supported) none = false
requirement_met (some (revision, supported)) (some requirement) = elim requirement.min_revision [
  | none ↦ false
  | some minimum ↦
      not (ltb minimum 1)
      && not (ltb revision minimum)
      && elim requirement.limits [ none ↦ false | some limits ↦ limits_met supported limits ]
]

unfoldable pub validate_entries : List (String × Option Requirement) → Result (Unit {0})
unfolding capability requirement_met
validate_entries [] = ok tt
validate_entries ((name, requirement) ∷ entries) = do
  require (requirement_met (capability name) requirement)
      "Desired resource requires an unsupported capability"
  validate_entries entries

unfoldable pub validate_required_capabilities :
    Option (List (String × Option Requirement)) → Result (Unit {0})
unfolding validate_entries
validate_required_capabilities none =
    value_error "Desired resource capability requirements are invalid"
validate_required_capabilities (some entries) = validate_entries entries

-- uuid.UUID(str(…))
abbrev pub parse_uuid : Option ℕ → Result ℕ
parse_uuid none = value_error "badly formed hexadecimal UUID string"
parse_uuid (some uuid) = ok uuid

-- isinstance(generation, int) and generation >= 1
abbrev pub is_generation : Option ℕ → Bool
is_generation none = false
is_generation (some generation) = leb 1 generation

unfoldable pub validate_desired_upsert :
    String
    → Option ℕ
    → Option ℕ
    → Option (List (String × Option Requirement))
    → Option Resource
    → Result (Unit {0})
unfolding validate_required_capabilities
validate_desired_upsert kind uuid generation capabilities none =
    value_error "Unsupported desired-state resource type"
validate_desired_upsert kind uuid generation capabilities (some resource) = do
  require (is_resource_type kind) "Unsupported desired-state resource type"
  require (str_eq resource.resource_type kind) "Desired resource identity or generation mismatch"
  held ← parse_uuid resource.uuid
  named ← parse_uuid uuid
  require (held == named && is_generation generation && same resource.generation generation)
      "Desired resource identity or generation mismatch"
  validate_required_capabilities capabilities

abbrev pub is_uuid : Option ℕ → Bool
is_uuid none = false
is_uuid (some uuid) = true

unfoldable pub validate_desired_delete : String → Option ℕ → Option ℕ → Result (Unit {0})
validate_desired_delete kind uuid generation = do
  require (is_resource_type kind) "Unsupported desired-state resource type"
  require (is_uuid uuid) "Desired resource identity is invalid"
  require (is_generation generation) "Desired resource generation is invalid"

-- The checks of apply_desired_changes before its transaction.
unfoldable pub validate_change : Change → Result (Unit {0})
unfolding validate_desired_upsert validate_desired_delete
validate_change change = do
  require (is_resource_type change.resource_type) "Unsupported desired-state resource type"
  if str_eq change.operation "upsert"
      then validate_desired_upsert change.resource_type change.resource_uuid change.generation
          change.required_capabilities change.resource
      else if str_eq change.operation "delete"
      then validate_desired_delete change.resource_type change.resource_uuid change.generation
      else value_error "Unsupported desired-state operation"

unfoldable pub validate_changes : List Change → Result (Unit {0})
unfolding validate_change
validate_changes [] = ok tt
validate_changes (change ∷ changes) = do validate_change change; validate_changes changes

-- _validated_snapshot_resource; the key that it drops is not read later.
unfoldable pub validate_snapshot : List (Option Resource) → Result (List Resource)
unfolding validate_desired_upsert
validate_snapshot [] = ok []
validate_snapshot (none ∷ resources) = value_error "Desired snapshot resource is invalid"
validate_snapshot (some resource ∷ resources) = do
  validate_desired_upsert resource.resource_type resource.uuid resource.generation
      resource.required_capabilities (some resource)
  rest ← validate_snapshot resources
  ok (resource ∷ rest)
