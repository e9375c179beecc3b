-- ===== src/Production/Evidence.antt =====
-- production/control_plane.py: EvidenceEvent and the hash-linked EvidenceLedger. `_digest` is SHA-256 of
-- Python's `repr`: both are parameters. An identifier is drawn, and the clock read, by the caller of `append`.
pub mod Chain
pub mod Growth
use niceone_obsidian.Prelude.{
  ℕ, String, Bool, true, false, not, ◌&&◌, Option, none, some, List, [], ◌∷◌, ◌++◌, str_eq, keep,
  if◌then◌else◌,
}
use niceone_obsidian.Prelude.Values.{Fields}
use niceone_obsidian.Prelude.Exec.{Result, ok, err}
use niceone_obsidian.Kernel.Errors.{Exception, exception, value_error}
use niceone_obsidian.Kernel.Policy.{member}

pub record EvidenceEvent : Type 0 where
  pub event_id : String
  pub execution_id : String
  pub event_type : String
  pub payload : Fields
  pub timestamp : ℕ
  pub previous_hash : Option String
  pub content_hash : String

pub record EvidenceLedger : Type 0 where
  pub events : List EvidenceEvent
  pub ids : List String

-- The tuple that is hashed.
pub record Content : Type 0 where
  pub event_id : String
  pub execution_id : String
  pub event_type : String
  pub payload : Fields
  pub previous : Option String

-- The libraries that `_digest` calls.
pub record Hashing : Type 0 where
  pub repr : Content → String
  pub sha256_hex : String → String

abbrev pub empty_ledger : EvidenceLedger
empty_ledger = record { events = []; ids = [] }

-- `self._events[-1].content_hash if self._events else None`
unfoldable pub last_hash : Option String → List EvidenceEvent → Option String
last_hash previous [] = previous
last_hash previous (e ∷ es) = last_hash (some e.content_hash) es

-- EvidenceLedger.events
unfoldable pub events_of : Option String → EvidenceLedger → List EvidenceEvent
events_of none l = l.events
events_of (some i) l = keep (λ e. str_eq e.execution_id i) l.events

abbrev pub content : EvidenceEvent → Option String → Content
content e previous = record {
  event_id = e.event_id;
  execution_id = e.execution_id;
  event_type = e.event_type;
  payload = e.payload;
  previous = previous;
}

-- Equality of hashes, one of which may be `None`.
abbrev pub hash_eq : Option String → Option String → Bool
hash_eq none none = true
hash_eq none (some b) = false
hash_eq (some a) none = false
hash_eq (some a) (some b) = str_eq a b

module _ (h : Hashing) where
  -- `_digest`
  unfoldable pub digest : Content → String
  digest c = h.sha256_hex (h.repr c)

  -- The event that `append` makes.
  abbrev pub new_event : String → ℕ → String → String → Fields → Option String → EvidenceEvent
  new_event event_id now execution_id event_type payload previous = record {
    event_id = event_id;
    execution_id = execution_id;
    event_type = event_type;
    payload = payload;
    timestamp = now;
    previous_hash = previous;
    content_hash = digest (record {
      event_id = event_id;
      execution_id = execution_id;
      event_type = event_type;
      payload = payload;
      previous = previous;
    });
  }

  abbrev pub with_event : EvidenceEvent → EvidenceLedger → EvidenceLedger
  with_event e l = record { events = l.events ++ e ∷ []; ids = l.ids ++ e.event_id ∷ [] }

  -- EvidenceLedger.append
  unfoldable pub append :
      String
      → ℕ
      → String
      → String
      → Fields
      → EvidenceLedger
      → Result Exception EvidenceEvent × EvidenceLedger
  unfolding last_hash
  append event_id now execution_id event_type payload l =
      let e = new_event event_id now execution_id event_type payload (last_hash none l.events) in
      if member event_id l.ids
      then (err (exception value_error "duplicate evidence event"), l)
      else (ok e, with_event e l)

  abbrev pub is_linked : Option String → EvidenceEvent → Bool
  is_linked previous e =
      hash_eq e.previous_hash previous && str_eq e.content_hash (digest (content e previous))

  -- The loop of `verify_chain`.
  unfoldable pub verify_from : Option String → List EvidenceEvent → Bool
  unfolding digest
  verify_from previous [] = true
  verify_from previous (e ∷ es) =
      let more = verify_from (some e.content_hash) es in
      if not (is_linked previous e) then false else more

  -- EvidenceLedger.verify_chain
  unfoldable pub verify_chain : EvidenceLedger → Bool
  unfolding verify_from
  verify_chain l = verify_from none l.events
