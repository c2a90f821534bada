-- ===== src/Tenancy.antt =====
-- agent/tenancy/contracts.py: the trusted request context and the decision on a route. The
-- children hold claims.py, authorizer.py and semantic_scope.py, and what is proved of them.
pub mod Claims
pub mod Authorize
pub mod Scope
mod Denied
mod Tests
use ai_native_governed_data.Prelude.{String, Bool, true, List, [], ◌∷◌}

pub record DimensionScope : Type 0 where
  pub dimension : String
  pub values : List String

-- The frozen sets are lists of which only membership is read; "*" lets every object pass.
pub record RequestContext : Type 0 where
  pub tenant_id : String
  pub subject : String
  pub scopes : List String
  pub roles : List String
  pub allowed_metrics : List String
  pub allowed_datasets : List String
  pub allowed_entities : List String
  pub allowed_dimensions : List String
  pub allowed_knowledge_scopes : List String
  pub dimension_scopes : List DimensionScope
  pub implicit_local : Bool

abbrev pub local_compat : RequestContext
local_compat = record {
  tenant_id = "local";
  subject = "local";
  scopes =
      "commerce:semantic:read" ∷ "commerce:metadata:read" ∷ "commerce:operations:read"
      ∷ "commerce:knowledge:read" ∷ [];
  roles = [];
  allowed_metrics = "*" ∷ [];
  allowed_datasets = "*" ∷ [];
  allowed_entities = "*" ∷ [];
  allowed_dimensions = "*" ∷ [];
  allowed_knowledge_scopes = "*" ∷ [];
  dimension_scopes = [];
  implicit_local = true;
}

-- The warnings of the authorizer: each with the texts that it names, its wording left out.
pub data AccessWarning : Type 0 where
  context_required : AccessWarning
  missing_scopes : List String → AccessWarning
  outside : String → List String → AccessWarning

pub record AuthorizationDecision : Type 0 where
  pub allowed : Bool
  pub required_scopes : List String
  pub warnings : List AccessWarning
