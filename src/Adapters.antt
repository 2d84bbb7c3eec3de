-- ===== src/Adapters.antt =====
-- internal/oracle: the adapters that stand between HandleGoal and a language model, in
-- adapter_openai.go and adapter_minimax.go. HTTP, JSON and the environment are the fields of `Site`.
pub mod Reply
pub mod Minimax
pub mod Openai
pub mod Canonical
pub mod Factory
pub mod Sniffer
mod Tests
use meshyants.Base.{
  ℕ, ℤ, Bytes, Result, ok, err, ◌>>=◌, ◌>>◌, refuse_if, eqb, not, Bool, true, false, is_empty,
  Option, none, some, List, [], ◌∷◌, ◌++◌, if◌then◌else◌,
}
use meshyants.Text.{Unicode, codes}
use meshyants.Contracts.{PheromoneKind, PheromoneRecord}
use meshyants.Policy
use meshyants.Policy.{TaskIntentHeader, Codecs, validate_required_safety_fields}

-- Config; the time is in nanoseconds.
pub record Config : Type 0 where
  pub model : Bytes
  pub request_timeout : ℕ
  pub max_tokens : ℕ
  pub api_key : Bytes

pub record Message : Type 0 where
  pub role : Bytes
  pub content : Bytes

-- The value of "response_format": the schema as it is, or inside {"type": "json_schema", "json_schema":
-- {"name": "TaskIntentHeader", "strict": true, …}}.
pub data Format (Schema : Type 0) : Type 0 where
  bare strict : Schema → Format Schema

-- The body of a chat completion request, the optional keys as options.
pub record ChatRequest (Schema : Type 0) : Type 0 where
  pub model : Bytes
  pub temperature_one : Bool
  pub messages : List Message
  pub reasoning_split : Bool
  pub response_format : Option (Format Schema)
  pub max_tokens : Option ℕ

-- What goes to the server: always a POST with the content type application/json.
pub record Post : Type 0 where
  pub url : Bytes
  pub authorization : Bytes
  pub body : Bytes
  pub timeout : ℕ

pub record Summary : Type 0 where
  pub kind : Bytes
  pub record_id : Bytes
  pub subject : Bytes

pub data Fault : Type 0 where
  no_key bad_schema marshal_request create_request request_failed decode_response no_choices
        parse_header :
      Fault
  unexpected_status : ℕ → Bytes → Fault
  unresolvable : Option Policy.Fault → Fault

-- `schema` is json.Unmarshal of intent_schema.json; `do_request` is HTTPClient.Do and the body of the answer;
-- `decode_choices` and `decode_stream` are json.Unmarshal and a json.Decoder on an answer, to the contents of its
-- choices; `decode_unresolvable` tells whether the text was read without an error, and the flag that it set;
-- `kind_name` is String() of the generated code.
pub record Site : Type 1 where
  pub Schema : Type 0
  pub schema : Option Schema
  pub marshal_chat : ChatRequest Schema → Option Bytes
  pub valid_url : Bytes → Bool
  pub do_request : Post → Option (ℕ × Bytes)
  pub decode_choices : Bytes → Option (List Bytes)
  pub decode_stream : Bytes → Option (List Bytes)
  pub decode_unresolvable : Bytes → Bool × Bool
  pub decode_header : Bytes → Option TaskIntentHeader
  pub marshal_summaries : List Summary → Bytes
  pub kind_name : PheromoneKind → Bytes
  pub getenv : Bytes → Bytes
  pub unicode : Unicode
  pub codecs : Codecs

-- if err != nil { return err }, for a call that returns a value.
abbrev pub or_fault : {A : Type 0} → Fault → Option A → Result Fault A
or_fault f none = err f
or_fault f (some x) = ok x

abbrev pub first_choice : List Bytes → Result Fault Bytes
first_choice [] = err no_choices
first_choice (content ∷ rest) = ok content

-- ValidateRequiredSafetyFields on the header, its error as ErrUnresolvable.
abbrev pub complete :
    TaskIntentHeader → Result Policy.Fault (Unit {0}) → Result Fault TaskIntentHeader
complete h (err f) = err (unresolvable (some f))
complete h (ok x) = ok h

abbrev pub message : Bytes → Bytes → Message
message role content = record { role = role; content = content }

-- The struct recordSummary of a record.
abbrev pub summary_of : (PheromoneKind → Bytes) → PheromoneRecord → Summary
summary_of kind_name r = record {
  kind = kind_name r.kind;
  record_id = r.record_id;
  subject = r.subject;
}

abbrev pub or_else : Bytes → Bytes → Bytes
or_else text fallback = if is_empty text then fallback else text
