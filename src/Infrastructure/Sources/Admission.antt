-- ===== src/Infrastructure/Sources/Admission.antt =====
-- ois/infrastructure/source_gateway/gateway.py: the part of `ingest` that checks a request's credential, rate limit and
-- lease.
use niceone_obsidian.Prelude.{
  ℕ, String, Bool, true, false, not, ◌&&◌, Option, none, some, is_some, str_eq, string_eq,
  triple_eq, if◌then◌else◌,
}
use niceone_obsidian.Prelude.Dict.{Dict, get, set, delete}
use niceone_obsidian.Prelude.Exec.{Result, ok, err}
use niceone_obsidian.Kernel.Errors.{Exception}
use niceone_obsidian.Infrastructure.Sources.Limits.{
  Floats, TokenBucket, RateLimitManager, RateLimitDecision, acquire, allow,
}
use niceone_obsidian.Infrastructure.Sources.Credentials.{
  CredentialRef, CredentialResolver, CredentialMaterial, TenantScope, forbidden, no_demands,
  resolve,
}
use niceone_obsidian.Infrastructure.Sources.Requests.{SourceRequest, Limiters, Draws}
use Prim.Native.String.{◌++◌ as text_append}

abbrev pub scope_of : SourceRequest → TenantScope
scope_of q = record { tenant_id = q.tenant_id; workspace_id = q.workspace_id }

-- SourceGateway.resolve_credential, where an authentication manager is configured
unfoldable pub resolve_credential :
    ℕ → CredentialResolver → CredentialRef → TenantScope → Result Exception CredentialMaterial
unfolding resolve
resolve_credential now resolver ref scope =
    if not (str_eq ref.tenant_id scope.tenant_id)
    then forbidden "credential belongs to another tenant"
    else resolve now resolver no_demands ref scope

abbrev pub verified : Result Exception CredentialMaterial → Result Exception Bool
verified (err x) = err x
verified (ok m) = ok true

-- The local variable `credential_verified` of `ingest`.
abbrev pub verify_credential :
    ℕ → TenantScope → Option CredentialRef → Option CredentialResolver → Result Exception Bool
verify_credential now scope none r = ok false
verify_credential now scope (some ref) none = ok false
verify_credential now scope (some ref) (some r) = verified (resolve_credential now r ref scope)

-- The first key that has an entry, with that entry.
abbrev pub first_of {ℓ} : {A : Type ℓ} → String → Option A → String → Option A → Option (String × A)
first_of j (some a) k b = some (j, a)
first_of j none k none = none
first_of j none k (some b) = some (k, b)

abbrev pub is_lease_for : String → String → Option (String × String) → Bool
is_lease_for source_type source_id none = false
is_lease_for source_type source_id (some (t, i)) = str_eq t source_type && str_eq i source_id

abbrev pub rate_key : SourceRequest → String
rate_key q =
    text_append q.tenant_id
      (text_append ":" (text_append q.workspace_id (text_append ":" q.source_id)))

abbrev pub refused_without : Option String → Option String
refused_without none = some "rate_limited"
refused_without (some lease) = none

module _ {f : Floats} where
  -- SourceGateway._select_rate_limiter, with the key that the bucket stands under
  unfoldable pub select_rate_limiter :
      String → String → Dict String (TokenBucket f) → Option (String × TokenBucket f)
  unfolding get
  select_rate_limiter source_type source_id buckets =
      first_of source_type (get buckets source_type) source_id (get buckets source_id)

  -- SourceGateway.rate_limit_configured
  unfoldable pub rate_limit_configured : String → String → Limiters f → Bool
  rate_limit_configured source_type source_id l =
      is_some (select_rate_limiter source_type source_id l.rate_limiters)

  abbrev pub leased :
      Draws f
      → String
      → String
      → String
      → Result Exception Bool × TokenBucket f
      → Limiters f
      → Result Exception (Option String) × Limiters f
  leased d source_type source_id key (err x, b) l =
      (err x, record l { rate_limiters = set l.rate_limiters key b })
  leased d source_type source_id key (ok false, b) l =
      (ok none, record l { rate_limiters = set l.rate_limiters key b })
  leased d source_type source_id key (ok true, b) l = (
    ok (some d.lease_id),
    record l {
      rate_limiters = set l.rate_limiters key b;
      leases = set l.leases d.lease_id (source_type, source_id);
    },
  )

  abbrev pub acquire_from :
      Draws f
      → String
      → String
      → Option (String × TokenBucket f)
      → Limiters f
      → Result Exception (Option String) × Limiters f
  acquire_from d source_type source_id none l = (ok none, l)
  acquire_from d source_type source_id (some (key, b)) l =
      leased d source_type source_id key (acquire f.one_f d.readings.asked b) l

  -- SourceGateway.acquire_rate_limit
  unfoldable pub acquire_rate_limit :
      Draws f → String → String → Limiters f → Result Exception (Option String) × Limiters f
  unfolding set select_rate_limiter acquire
  acquire_rate_limit d source_type source_id l =
      acquire_from d source_type source_id
        (select_rate_limiter source_type source_id l.rate_limiters) l

  -- Why the manager of the rate limits refuses a request.
  abbrev pub managed :
      Result Exception (RateLimitDecision f) × RateLimitManager f
      → Limiters f
      → Result Exception (Option String) × Limiters f
  managed (err x, m) l = (err x, record l { manager = some m })
  managed (ok decision, m) l =
      (ok (if decision.allowed then none else some "rate_limited"), record l { manager = some m })

  abbrev pub ask_manager :
      Draws f
      → SourceRequest
      → Option (RateLimitManager f)
      → Limiters f
      → Result Exception (Option String) × Limiters f
  ask_manager d q none l = (ok none, l)
  ask_manager d q (some m) l = managed (allow f.one_f d.readings (rate_key q) m) l

  -- A lease that `ingest` takes for the request itself.
  abbrev pub take_lease :
      Result Exception (Option String) × Limiters f → Result Exception (Option String) × Limiters f
  take_lease (err x, l) = (err x, l)
  take_lease (ok lease, l) = (ok (refused_without lease), l)

  -- Why the lease of a request, or the lack of one, refuses it.
  abbrev pub check_lease :
      Draws f
      → SourceRequest
      → Option String
      → Limiters f
      → Result Exception (Option String) × Limiters f
  check_lease d q (some lease) l = (
    ok (
        if is_lease_for q.source_type q.source_id (get l.leases lease)
        then none
        else some "invalid_rate_limit_lease"),
    record l { leases = delete l.leases lease },
  )
  check_lease d q none l =
      if rate_limit_configured q.source_type q.source_id l
      then take_lease (acquire_rate_limit d q.source_type q.source_id l)
      else (ok none, l)

  abbrev pub lease_after :
      Draws f
      → SourceRequest
      → Result Exception (Option String) × Limiters f
      → Result Exception (Option String) × Limiters f
  lease_after d q (err x, l) = (err x, l)
  lease_after d q (ok (some why), l) = (ok (some why), l)
  lease_after d q (ok none, l) = check_lease d q q.rate_limit_lease l

  -- The part of `ingest` that may refuse a request before anything of it is kept.
  unfoldable pub admit :
      Draws f → SourceRequest → Limiters f → Result Exception (Option String) × Limiters f
  unfolding get set delete allow rate_limit_configured acquire_rate_limit
  admit d q l = lease_after d q (ask_manager d q l.manager l)
