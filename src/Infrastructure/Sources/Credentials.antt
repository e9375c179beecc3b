-- ===== src/Infrastructure/Sources/Credentials.antt =====
-- ois/infrastructure/source_gateway/credentials.py and manager.py: the check of a credential reference against
-- the tenant of a request, and the two resolvers.
use niceone_obsidian.Prelude.{
  ℕ, String, Bool, true, false, not, Option, none, some, List, [], ◌∷◌, leb, str_eq, string_eq,
  is_empty, if◌then◌else◌,
}
use niceone_obsidian.Prelude.Dict.{Dict, get}
use niceone_obsidian.Prelude.Texts.{join}
use niceone_obsidian.Prelude.Exec.{Result, ok, err}
use niceone_obsidian.Kernel.Errors.{Exception, exception, permission_error, key_error}
use niceone_obsidian.Kernel.Policy.{member, sorted}
use Prim.Native.String.{◌++◌ as text_append}

pub record TenantScope : Type 0 where
  pub tenant_id : String
  pub workspace_id : String

-- `expires_at` is an instant with whether it has a time zone.
pub record CredentialRef : Type 0 where
  pub credential_id : String
  pub tenant_id : String
  pub provider : String
  pub scopes : List String
  pub expires_at : Option (ℕ × Bool)

pub record CredentialMaterial : Type 0 where
  pub secret : String
  pub client_id : Option String
  pub token_type : String

-- The protocol that a resolver implements.
abbrev pub CredentialResolver : Type 0
CredentialResolver = CredentialRef → TenantScope → Result Exception String

-- What a caller of CredentialAuthManager.resolve may ask for besides the credential.
pub record Demands : Type 0 where
  pub client_id : Option String
  pub token_type : String
  pub required_scopes : List String
  pub expected_provider : Option String

-- The defaults of the keyword arguments.
abbrev pub no_demands : Demands
no_demands = record {
  client_id = none;
  token_type = "Bearer";
  required_scopes = [];
  expected_provider = none;
}

abbrev pub forbidden : {A : Type 0} → String → Result Exception A
forbidden why = err (exception permission_error why)

abbrev pub is_other_provider : String → Option String → Bool
is_other_provider provider none = false
is_other_provider provider (some expected) = not (str_eq provider expected)

-- Why the expiry of a reference refuses it at an instant.
abbrev pub expiry_refusal : ℕ → Option (ℕ × Bool) → Option String
expiry_refusal now none = none
expiry_refusal now (some (at, false)) = some "credential expiry must be timezone-aware"
expiry_refusal now (some (at, true)) = if leb at now then some "credential has expired" else none

-- `set(required) - set(held)`, each name once.
unfoldable pub missing_scopes : List String → List String → List String
missing_scopes [] held = []
missing_scopes (s ∷ required) held =
    let more = missing_scopes required held in
    if member s held then more else if member s more then more else s ∷ more

abbrev pub material_of : Demands → Result Exception String → Result Exception CredentialMaterial
material_of d (err x) = err x
material_of d (ok secret) =
    if str_eq secret ""
    then forbidden "credential material is empty"
    else ok (record { secret = secret; client_id = d.client_id; token_type = d.token_type })

-- What `resolve` does once the tenant and the provider have passed.
abbrev pub resolve_current :
    CredentialResolver
    → Demands
    → CredentialRef
    → TenantScope
    → Option String
    → List String
    → Result Exception CredentialMaterial
resolve_current resolver d ref scope (some why) missing = forbidden why
resolve_current resolver d ref scope none missing =
    if not (is_empty missing)
    then forbidden (text_append "credential lacks required scopes: " (join ", " (sorted missing)))
    else material_of d (resolver ref scope)

-- CredentialAuthManager.resolve
unfoldable pub resolve :
    ℕ
    → CredentialResolver
    → Demands
    → CredentialRef
    → TenantScope
    → Result Exception CredentialMaterial
unfolding missing_scopes sorted join
resolve now resolver d ref scope =
    if not (str_eq ref.tenant_id scope.tenant_id)
    then forbidden "credential belongs to another tenant"
    else if is_other_provider ref.provider d.expected_provider
    then forbidden "credential belongs to another provider"
    else resolve_current resolver d ref scope (expiry_refusal now ref.expires_at)
        (missing_scopes d.required_scopes ref.scopes)

-- InMemoryCredentialResolver
pub record InMemoryResolver : Type 0 where
  pub credentials : Dict String String
  pub owners : Dict String String
  pub strict : Bool

abbrev pub configured : String → Option String → Result Exception String
configured credential none =
    err (exception key_error (text_append "credential not configured: " credential))
configured credential (some secret) = ok secret

abbrev pub resolve_owned :
    InMemoryResolver → CredentialRef → TenantScope → Option String → Result Exception String
resolve_owned r ref scope none =
    if r.strict
    then forbidden "credential has no tenant owner"
    else configured ref.credential_id (get r.credentials ref.credential_id)
resolve_owned r ref scope (some owner) =
    if not (str_eq owner scope.tenant_id)
    then forbidden "credential belongs to another tenant"
    else configured ref.credential_id (get r.credentials ref.credential_id)

-- InMemoryCredentialResolver.resolve
unfoldable pub resolve_in_memory : InMemoryResolver → CredentialResolver
unfolding get
resolve_in_memory r ref scope =
    if not (str_eq ref.tenant_id scope.tenant_id)
    then forbidden "credential belongs to another tenant"
    else resolve_owned r ref scope (get r.owners ref.credential_id)
