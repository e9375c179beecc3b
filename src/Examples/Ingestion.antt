-- ===== src/Examples/Ingestion.antt =====
-- The properties of the source gateway: an observation under a rate limit and with an idempotency key,
-- which is sent again, and whose event is published in between.
use niceone_obsidian.Prelude.{
  ℕ, ◌+◌, ◌-◌, ◌*◌, ◌≡◌, refl, true, false, none, some, List, [], ◌∷◌, ltb, arith,
}
use niceone_obsidian.Prelude.Dict.{get}
use niceone_obsidian.Prelude.Values.{text, end, field}
use niceone_obsidian.Prelude.Exec.{ok}
use niceone_obsidian.Infrastructure.Sources.Ledger.{Libraries, empty_source_ledger}
use niceone_obsidian.Infrastructure.Sources.Credentials.{
  CredentialRef, InMemoryResolver, resolve_in_memory,
}
use niceone_obsidian.Infrastructure.Sources.Limits.{Floats}
use niceone_obsidian.Infrastructure.Sources.Requests.{
  SourceRequest, SourceResponse, ledger, Gateway, Wiring, Draws,
}
use niceone_obsidian.Infrastructure.Sources.Gateway.{
  ingest, Call, ingests, acquires, configures, publishes, run_calls,
}
use niceone_obsidian.Infrastructure.Sources.Gateway.Paired.{SoundSinks, run_calls-SoundSinks}
use niceone_obsidian.Infrastructure.Sources.Gateway.Backed.{BackedStore, run_calls-BackedStore}
use niceone_obsidian.Infrastructure.Sources.Gateway.Once.{is_accepted, accepted_once}
use niceone_obsidian.Infrastructure.Sources.Gateway.Found.{ReadsBack, accepted_found}

-- Whole numbers in place of floats, and toy libraries.
abbrev floats : Floats
floats = record {
  Float = ℕ;
  zero_f = 0;
  one_f = 1;
  plus = λ a b. a + b;
  minus = λ a b. a - b;
  times = λ a b. a * b;
  over = λ a b. a;
  less = ltb;
}

abbrev libraries : Libraries
libraries = record {
  dumps_compact = λ d. "{}";
  dumps = λ d. "{}";
  loads = λ s. ok (field "score" (text "1:0") end);
  sha256_hex = λ s. s;
  uuid5_url = λ s. s;
}

abbrev credential : CredentialRef
credential = record {
  credential_id = "c";
  tenant_id = "tenant-1";
  provider = "api";
  scopes = [];
  expires_at = some (100, true);
}

abbrev secrets : InMemoryResolver
secrets = record {
  credentials = ("c", "secret") ∷ [];
  owners = ("c", "tenant-1") ∷ [];
  strict = true;
}

abbrev wiring : Wiring Unit
wiring = record {
  libraries = libraries;
  resolver = some (resolve_in_memory secrets);
  process = none;
}

abbrev request : SourceRequest
request = record {
  tenant_id = "tenant-1";
  workspace_id = "w";
  source_type = "feed";
  source_record_id = "7";
  payload = field "score" (text "1:0") end;
  credential = some credential;
  connector_version = "v1";
  schema_version = "v1";
  source_id = "feed:7";
  provenance = none;
  event_type = "source.observation";
  idempotency_key = some "key";
  observed_at = none;
  rate_limit_lease = none;
}

-- The same observation under another key.
abbrev again : SourceRequest
again = record request { idempotency_key = some "other"; observed_at = some 12 }

abbrev draws : ℕ → Draws floats
draws now = record {
  run_id = "run";
  lease_id = "lease";
  now = now;
  readings = record { made = now; asked = now; refused = now };
}

abbrev gateway : Gateway floats Unit
gateway = record {
  limiters = record {
    manager = some (record { policies = []; buckets = []; last_denied = [] });
    rate_limiters =
        (
          "feed",
          record {
            policy = record { capacity = 2; refill_per_second = 1 };
            state = record { tokens = 2; observed_at = 0 };
          },
        )
        ∷ [];
    leases = [];
  };
  store = record { idempotency = some []; sinks = ledger empty_source_ledger };
  pipeline = tt;
}

abbrev calls : List (Call floats)
calls =
    configures "tenant-1:w:feed:7" (record { capacity = 9; refill_per_second = 1 })
    ∷ ingests (draws 3) request
    ∷ publishes 4 "source-outbox:tenant-1:w:feed:7:7:{}"
    ∷ acquires (draws 5) "feed" "feed:7"
    ∷ ingests (draws 6) again
    ∷ []

-- The answer to the request.
abbrev accepted : SourceResponse
accepted = record {
  accepted = true;
  evidence_id = "tenant-1:w:feed:7:7:{}";
  event_id = "source-outbox:tenant-1:w:feed:7:7:{}";
  payload_hash = "{}";
  reason = none;
}

accepted_found_example :
    ReadsBack libraries request accepted
      (run_calls wiring calls ((ingest wiring (draws 3) request gateway).1)).store.sinks
unfolding ingest resolve_in_memory
accepted_found_example =
    accepted_found wiring (draws 3) request gateway empty_source_ledger accepted calls refl refl
      refl refl

accepted_once_example :
    is_accepted
      (ingest wiring
        (draws 9)
        again
        (run_calls wiring calls ((ingest wiring (draws 3) request gateway).1))).0
    ≡ false
unfolding ingest resolve_in_memory
accepted_once_example =
    accepted_once wiring (draws 3) request gateway calls (draws 9) again refl refl (record {
      same_tenant = refl;
      same_workspace = refl;
      same_source = refl;
      same_record = refl;
      same_payload = refl;
    })

run_calls-SoundSinks_example : SoundSinks libraries (run_calls wiring calls gateway).store.sinks
run_calls-SoundSinks_example =
    run_calls-SoundSinks wiring calls gateway
      (record { pairs = refl; evidence_once = refl; events_once = refl })

-- The empty table of claims.
gateway-BackedStore : BackedStore gateway.store
unfolding get
gateway-BackedStore = record { sends = refl; backed = λ k x h. ground (arith, h) }

run_calls-BackedStore_example : BackedStore (run_calls wiring calls gateway).store
run_calls-BackedStore_example = run_calls-BackedStore wiring calls gateway gateway-BackedStore
