-- ===== src/Transport/Wire.antt =====
-- The publish frames of transport/protocol.py. Payloads are ASCII, as `json.dumps` writes them, so that
-- their bytes are their characters.
use Prim.Native.String.{◌++◌ as append, len}
use anvil_events.Base.{ℕ, ◌+◌, ◌-◌, ◌*◌, String, not, nat_eq, leb}
use anvil_events.Result.{Result, ok, value_error, guard, ◌>>◌}
use anvil_events.Domain.Patterns.{has_newline}

abbrev pub broker_max_payload : ℕ
broker_max_payload = 1024 * 1024

abbrev pub max_body : ℕ
max_body = broker_max_payload - 1024

-- b"NATS/1.0\r\nNats-Msg-Id: " + msg_id + b"\r\n\r\n"
unfoldable pub header_block : String → String
header_block msg_id = append "NATS/1.0\r\nNats-Msg-Id: " (append msg_id "\r\n\r\n")

-- encode_js_publish on a text and a message id that is not empty, as the callers give.
unfoldable pub encode_js_publish : String → String → Result (String × String)
unfolding header_block
encode_js_publish payload msg_id = do
  guard (leb (len payload) max_body) (value_error "payload too large for JetStream stream")
  guard (not (has_newline msg_id)) (value_error "invalid Nats-Msg-Id header value")
  guard (leb (len (header_block msg_id) + len payload) max_body)
      (value_error "HPUB headers and payload exceed stream max_msg_size")
  guard (leb (len (header_block msg_id) + len payload) broker_max_payload)
      (value_error "HPUB headers and payload exceed broker max_payload")
  ok (payload, header_block msg_id)
