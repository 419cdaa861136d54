-- ===== src/Memory/Format.antt =====
-- A format of messages and metadata that meets what is asked of `encoding/json`: texts and lists are
-- written with their lengths, and every number as one code point above those of the line breaks.
mod Tests
mod Sessions
use suprclaw_engine.Prelude.{
  ℕ, zero, suc, ◌+◌, ◌-◌, ◌≡◌, refl, sym, ◌∙◌, ap, Bool, true, false, ◌&&◌, ◌||◌, not, List, [],
  ◌∷◌, ◌++◌, Option, none, some, if◌then◌else◌, ◌==◌, nat_eq, leb, is_nil, map, length, all, arith,
}
use mathlib.Core.List.{append_assoc, append-nil}
use suprclaw_engine.Prelude.Scan.{is_line, newline, carriage_return}
use suprclaw_engine.Prelude.Scan.Laws.{no_break}
use suprclaw_engine.Prelude.Text.{Text}
use suprclaw_engine.Providers.Message.{Message, ToolCall, FunctionCall, UsageInfo}
use suprclaw_engine.Memory.Disk.{SessionMeta, Json, Decoded, decoded, corrupt, stored, stored_call}
use suprclaw_engine.Memory.Lines.{calls_idem}

record Format (A : Type 0) : Type 0 where
  print : A → Text
  parse : Text → Option (A × Text)
  parse-print : (a : A) (rest : Text) → parse (print a ++ rest) ≡ some (a, rest)
  unbroken : (a : A) → no_break (print a) ≡ true

parse_number : Text → Option (ℕ × Text)
parse_number [] = none
parse_number (c ∷ s) = some (c - 14, s)

parse-number_lem : (n : ℕ) (rest : Text) → parse_number ((n + 14) ∷ rest) ≡ some (n, rest)
unfolding parse_number
parse-number_lem n rest = let e : n + 14 - 14 ≡ n = omega arith in rw e refl

number_unbroken : (n : ℕ) → no_break ((n + 14) ∷ []) ≡ true
number_unbroken n = ground arith

abbrev number : Format ℕ
unfolding parse_number
number = record {
  print = λ n. (n + 14) ∷ [];
  parse = parse_number;
  parse-print = parse-number_lem;
  unbroken = number_unbroken;
}

none_is-append : (s t : Text) → no_break s ≡ true → no_break t ≡ true → no_break (s ++ t) ≡ true
none_is-append [] t h k = k
none_is-append (c ∷ s) t h k = ground (arith, none_is-append s t)

module _ {A B : Type 0} (f : Format A) (g : Format B) where
  parse_pair : Text → Option ((A × B) × Text)
  parse_pair s = elim (f.parse s) [
    | none ↦ none
    | some (a, s') ↦ elim (g.parse s') [ none ↦ none | some (b, s'') ↦ some ((a, b), s'') ]
  ]

  parse_pair-print :
      (p : A × B) (rest : Text) → parse_pair ((f.print p.0 ++ g.print p.1) ++ rest) ≡ some (p, rest)
  unfolding parse_pair
  parse_pair-print (a, b) rest =
      rw
        (
          append_assoc (f.print a) (g.print b) rest,
          parse_pair,
          f.parse-print a (g.print b ++ rest),
          g.parse-print b rest,
        )
        refl

  abbrev pair : Format (A × B)
  unfolding parse_pair
  pair = record {
    print = λ p. f.print p.0 ++ g.print p.1;
    parse = parse_pair;
    parse-print = parse_pair-print;
    unbroken = λ p. none_is-append (f.print p.0) (g.print p.1) (f.unbroken p.0) (g.unbroken p.1);
  }

module _ {A : Type 0} (f : Format A) where
  print_items : List A → Text
  print_items [] = []
  print_items (a ∷ as') = f.print a ++ print_items as'

  parse_items : ℕ → Text → Option (List A × Text)
  parse_items zero s = some ([], s)
  parse_items (suc n) s = elim (f.parse s) [
    | none ↦ none
    | some (a, s') ↦ elim (parse_items n s') [ none ↦ none | some (l, s'') ↦ some (a ∷ l, s'') ]
  ]

  parse_items-print :
      (l : List A) (rest : Text) → parse_items (length l) (print_items l ++ rest) ≡ some (l, rest)
  unfolding parse_items print_items
  parse_items-print [] rest = refl
  parse_items-print (a ∷ l) rest =
      rw
        (
          append_assoc (f.print a) (print_items l) rest,
          f.parse-print a (print_items l ++ rest),
          parse_items-print l rest,
        )
        refl

  items_unbroken : (l : List A) → no_break (print_items l) ≡ true
  unfolding print_items
  items_unbroken [] = refl
  items_unbroken (a ∷ l) =
      none_is-append (f.print a) (print_items l) (f.unbroken a) (items_unbroken l)

  parse_list : Text → Option (List A × Text)
  parse_list s = elim (parse_number s) [ none ↦ none | some (n, s') ↦ parse_items n s' ]

  parse_list-print :
      (l : List A) (rest : Text)
      → parse_list ((length l + 14) ∷ (print_items l ++ rest)) ≡ some (l, rest)
  unfolding parse_list
  parse_list-print l rest =
      rw (parse_list, parse-number_lem (length l) (print_items l ++ rest), parse_items-print l rest)
        refl

  list_unbroken : (l : List A) → no_break ((length l + 14) ∷ print_items l) ≡ true
  list_unbroken l = ground (arith, items_unbroken l)

  abbrev list : Format (List A)
  unfolding parse_list print_items
  list = record {
    print = λ l. (length l + 14) ∷ print_items l;
    parse = parse_list;
    parse-print = parse_list-print;
    unbroken = list_unbroken;
  }

-- An option as a list of at most one element.
abbrev option_list {ℓ} : {A : Type ℓ} → Option A → List A
option_list none = []
option_list (some a) = a ∷ []

abbrev list_option {ℓ} : {A : Type ℓ} → List A → Option A
list_option [] = none
list_option (a ∷ l) = some a

list_option-option_list {ℓ} : {A : Type ℓ} (o : Option A) → list_option (option_list o) ≡ o
list_option-option_list none = refl
list_option-option_list (some a) = refl

abbrev Pair : Type 0 → Type 0 → Type 0
Pair A B = A × B

abbrev text : Format Text
text = list number

abbrev CallFields : Type 0
CallFields = Pair Text (Pair Text (List (Pair Text Text)))

abbrev MessageFields : Type 0
MessageFields = Pair Text (
    Pair Text (
      Pair (List Text) (Pair Text (Pair (List (Pair ℕ (Pair ℕ ℕ))) (Pair (List CallFields) Text)))))

abbrev function_fields : FunctionCall → Pair Text Text
function_fields f = (f.name, f.arguments)

abbrev fields_function : Pair Text Text → FunctionCall
fields_function (name, arguments) = record { name = name; arguments = arguments }

-- The name of a tool call is not written.
abbrev call_fields : ToolCall → CallFields
call_fields tc = (tc.id, (tc.type, map function_fields (option_list tc.function)))

abbrev fields_call : CallFields → ToolCall
fields_call (id, (type, functions)) = record {
  id = id;
  type = type;
  function = list_option (map fields_function functions);
  name = [];
}

function-fields :
    (o : Option FunctionCall)
    → list_option (map fields_function (map function_fields (option_list o))) ≡ o
function-fields none = refl
function-fields (some f) = refl

calls-fields : (tcs : List ToolCall) → map fields_call (map call_fields tcs) ≡ map stored_call tcs
calls-fields [] = refl
calls-fields (tc ∷ tcs) = cc (function-fields tc.function, calls-fields tcs)

fields-stored : (tcs : List ToolCall) → map call_fields (map stored_call tcs) ≡ map call_fields tcs
fields-stored [] = refl
fields-stored (tc ∷ tcs) = ap (λ l. call_fields tc ∷ l) (fields-stored tcs)

abbrev usage_fields : UsageInfo → Pair ℕ (Pair ℕ ℕ)
usage_fields x = (x.prompt_tokens, (x.completion_tokens, x.total_tokens))

abbrev fields_usage : Pair ℕ (Pair ℕ ℕ) → UsageInfo
fields_usage (p, (c, t)) = record { prompt_tokens = p; completion_tokens = c; total_tokens = t }

usage-fields :
    (o : Option UsageInfo) → list_option (map fields_usage (map usage_fields (option_list o))) ≡ o
usage-fields none = refl
usage-fields (some x) = refl

abbrev message_fields : Message → MessageFields
message_fields m = (
  m.role,
  (
    m.content,
    (
      m.media,
      (
        m.reasoning_content,
        (map usage_fields (option_list m.usage), (map call_fields m.tool_calls, m.tool_call_id)),
      ),
    ),
  ),
)

abbrev fields_message : MessageFields → Message
fields_message (role, (content, (media, (reasoning, (usage, (calls, id)))))) = record {
  role = role;
  content = content;
  media = media;
  reasoning_content = reasoning;
  usage = list_option (map fields_usage usage);
  tool_calls = map fields_call calls;
  tool_call_id = id;
}

message-fields : (m : Message) → fields_message (message_fields m) ≡ stored m
message-fields m = cc (usage-fields m.usage, calls-fields m.tool_calls)

abbrev message_format : Format MessageFields
message_format = pair text (
    pair text (
      pair (list text) (
        pair text (
          pair (list (pair number (pair number number)))
            (pair (list (pair text (pair text (list (pair text text))))) text)))))

-- The whole text must be a value.
whole : {A : Type 0} → Option (A × Text) → Option A
whole none = none
whole (some (a, [])) = some a
whole (some (a, c ∷ rest)) = none

abbrev MetaFields : Type 0
MetaFields = Pair Text (Pair Text (Pair (List Text) (Pair ℕ (Pair ℕ (Pair ℕ ℕ)))))

abbrev meta_fields : SessionMeta → MetaFields
meta_fields m =
    (m.key, (m.summary, (m.discovered_tools, (m.skip, (m.count, (m.created_at, m.updated_at))))))

abbrev fields_meta : MetaFields → SessionMeta
fields_meta (key, (summary, (tools, (skip, (count, (created, updated)))))) = record {
  key = key;
  summary = summary;
  discovered_tools = tools;
  skip = skip;
  count = count;
  created_at = created;
  updated_at = updated;
}

abbrev meta_format : Format MetaFields
meta_format =
    pair text (pair text (pair (list text) (pair number (pair number (pair number number)))))

as_meta : Option (MetaFields × Text) → Decoded
as_meta none = corrupt
as_meta (some (m, rest)) = decoded (fields_meta m)

encode_message : Message → Text
encode_message m = message_format.print (message_fields m)

as_message : Option MessageFields → Option Message
as_message none = none
as_message (some m) = some (fields_message m)

decode_message : Text → Option Message
decode_message s = as_message (whole (message_format.parse s))

encode_meta : SessionMeta → Text
encode_meta m = b'{' ∷ meta_format.print (meta_fields m)

decode_meta : Text → Decoded
decode_meta [] = corrupt
decode_meta (c ∷ s) = as_meta (meta_format.parse s)

encode_message_line : (m : Message) → is_line (encode_message m) ≡ true
unfolding encode_message pair list
encode_message_line m = message_format.unbroken (message_fields m)

decode-encode : (m : Message) → decode_message (encode_message m) ≡ some (stored m)
unfolding decode_message encode_message whole as_message
decode-encode m =
    let fields = message_fields m in
    rw
      (
        sym (append-nil (message_format.print fields)),
        decode_message,
        message_format.parse-print fields [],
      )
      (ap some (message-fields m))

encode-stored : (m : Message) → encode_message (stored m) ≡ encode_message m
unfolding encode_message pair
encode-stored m = rw (fields-stored m.tool_calls) refl

decode-encode-meta : (m : SessionMeta) → decode_meta (encode_meta m) ≡ decoded m
unfolding decode_meta encode_meta as_meta
decode-encode-meta m =
    let fields = meta_fields m in
    rw (sym (append-nil (meta_format.print fields)), decode_meta, meta_format.parse-print fields [])
      refl

meta_begins : (m : SessionMeta) → (rest : Text) × (encode_meta m ≡ b'{' ∷ rest)
unfolding encode_meta
meta_begins m = (meta_format.print (meta_fields m), refl)

length_json : Json
length_json = record {
  encode_message = encode_message;
  decode_message = decode_message;
  encode_meta = encode_meta;
  decode_meta = decode_meta;
  encode_message-is_line = encode_message_line;
  encode_message-stored = encode-stored;
  decode-encode_message = decode-encode;
  encode_meta_begins = meta_begins;
  decode-encode_meta = decode-encode-meta;
}
