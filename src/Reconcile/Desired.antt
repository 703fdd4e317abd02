-- ===== src/Reconcile/Desired.antt =====
-- The fields of a state.desired event that reconciliation reads, and the identity of an attempt.
use Prim.Native.String.{◌++◌ as append}
use anvil_events.Base.{ℕ, String, Option, none, some, List}
use anvil_events.Json.{Json, Fields, Codec, array, get, as_text, as_nat, as_fields, as_texts}

pub record Payload : Type 0 where
  pub resource : String
  pub generation : ℕ
  pub revision : String
  pub content_sha256 : String
  pub adapter : String
  pub artifact : String
  pub targets : Option (List String)

pub record Desired : Type 0 where
  pub event_id : String
  pub producer : String
  pub correlation_id : Option String
  pub payload : Payload

-- payload.get("targets")
abbrev pub targets_of : Option Json → Option (List String)
targets_of (some (array xs)) = as_texts xs
targets_of _ = none

infixl 5 ◌>>=◌
abbrev ◌>>=◌ {ℓ κ} : {A : Type ℓ} {B : Type κ} → Option A → (A → Option B) → Option B
none >>= f = none
some a >>= f = f a

-- payload["resource"] and the other reads of a payload; `none` where a key is missing.
unfoldable pub payload_of : Fields → Option Payload
payload_of p = do
  resource ← as_text (get "resource" p)
  generation ← as_nat (get "generation" p)
  revision ← as_text (get "revision" p)
  digest ← as_text (get "content_sha256" p)
  adapter ← as_text (get "adapter" p)
  artifact ← as_text (get "artifact" p)
  some (record {
    resource = resource;
    generation = generation;
    revision = revision;
    content_sha256 = digest;
    adapter = adapter;
    artifact = artifact;
    targets = targets_of (get "targets" p);
  })

unfoldable pub desired_of : Fields → Option Desired
desired_of event = do
  event_id ← as_text (get "event_id" event)
  producer ← as_text (get "producer" event)
  fields ← as_fields (get "payload" event)
  payload ← payload_of fields
  some (record {
    event_id = event_id;
    producer = producer;
    correlation_id = as_text (get "correlation_id" event);
    payload = payload;
  })

-- "reconcile:" + sha256(node + "\0" + event_id)
unfoldable pub operation_id : Codec → String → String → String
operation_id codec node event_id =
    append "reconcile:" (codec.sha256 (append node (append "\0" event_id)))
