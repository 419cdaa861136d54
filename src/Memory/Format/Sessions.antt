-- ===== src/Memory/Format/Sessions.antt =====
-- The format for the sessions of pkg/session/manager.go.
use suprclaw_engine.Prelude.{
  ℕ, ◌≡◌, refl, sym, ap, List, [], ◌∷◌, Option, none, some, map, nat_eq, list_eq,
}
use mathlib.Core.List.{append-nil}
use suprclaw_engine.Prelude.Text.{Text}
use suprclaw_engine.Providers.Message.{Message}
use suprclaw_engine.Memory.Disk.{stored}
use suprclaw_engine.Memory.Format.{
  Format, Pair, MessageFields, text, number, list, pair, message_format, message_fields,
  fields_message, message-fields, whole,
}
use suprclaw_engine.Sessions.Manager.{Session}
use suprclaw_engine.Sessions.Files.{SessionJson, stored_session}

abbrev SessionFields : Type 0
SessionFields = Pair Text (Pair (List MessageFields) (Pair Text (Pair (List Text) (Pair ℕ ℕ))))

abbrev session_fields : Session → SessionFields
session_fields s = (
  s.key,
  (map message_fields s.messages, (s.summary, (s.discovered_tools, (s.created, s.updated)))),
)

abbrev fields_session : SessionFields → Session
fields_session (key, (messages, (summary, (tools, (created, updated))))) = record {
  key = key;
  messages = map fields_message messages;
  summary = summary;
  discovered_tools = tools;
  created = created;
  updated = updated;
}

abbrev session_format : Format SessionFields
session_format =
    pair text (pair (list message_format) (pair text (pair (list text) (pair number number))))

messages-fields : (ms : List Message) → map fields_message (map message_fields ms) ≡ map stored ms
messages-fields [] = refl
messages-fields (m ∷ ms) = cc (message-fields m, messages-fields ms)

encode_session : Session → Text
encode_session s = session_format.print (session_fields s)

as_session : Option SessionFields → Option Session
as_session none = none
as_session (some s) = some (fields_session s)

decode_session : Text → Option Session
decode_session s = as_session (whole (session_format.parse s))

decode-encode_session : (s : Session) → decode_session (encode_session s) ≡ some (stored_session s)
unfolding decode_session encode_session whole as_session
decode-encode_session s =
    let fields = session_fields s in
    rw
      (
        sym (append-nil (session_format.print fields)),
        decode_session,
        session_format.parse-print fields [],
      )
      (ap (λ ms. some (record s { messages = ms })) (messages-fields s.messages))

pub session_json : SessionJson
session_json = record {
  encode_session = encode_session;
  decode_session = decode_session;
  decode-encode_session = decode-encode_session;
}
