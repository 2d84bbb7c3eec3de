-- ===== src/Adapters/Minimax.antt =====
-- internal/oracle/adapter_minimax.go up to the calls of the language model, and the prompt of
-- internal/oracle/prompt.go.
use meshyants.Base.{
  ℕ, ◌*◌, Bytes, Result, ok, err, ◌>>=◌, ◌>>◌, refuse_if, eqb, ltb, not, ◌&&◌, Bool, true, is_empty,
  Option, none, some, List, [], ◌∷◌, ◌++◌, map, if◌then◌else◌,
}
use meshyants.Text.{codes, trim_space}
use meshyants.Text.Index.{trim_suffix}
use meshyants.Contracts.{PheromoneRecord}
use meshyants.Policy.{TaskIntentHeader, validate_required_safety_fields}
use meshyants.Adapters.{
  Config, Message, Format, strict, ChatRequest, Fault, no_key, bad_schema, marshal_request,
  create_request, request_failed, decode_response, parse_header, unexpected_status, unresolvable,
  Site, or_fault, first_choice, complete, message, summary_of, or_else,
}
use meshyants.Adapters.Reply.{
  truncate_for_err, normalize_minimax_json_payload, normalize_minimax_plain_text,
}

abbrev pub concat : List Bytes → Bytes
concat [] = []
concat (s ∷ ss) = s ++ concat ss

-- TaskIntentCanonicalizeSystemPrompt.
unfoldable pub canonicalize_prompt : Bytes
canonicalize_prompt = concat (
    codes "You are the MeshyAnts Oracle Interface Agent. Translate human goals into a "
    ∷ codes "structured TaskIntentHeader.\n"
    ∷ codes "Rules:\n"
    ∷ codes "- scope: what the task should accomplish (max 200 chars)\n"
    ∷ codes "- prohibited_actions: list any actions the task MUST NOT perform\n"
    ∷ codes "- deadline_rfc3339: ISO 8601 deadline, or empty string if none\n"
    ∷ codes "- transport_class: one of \"fast-local\", \"fast-wide\", \"delay-tolerant\"\n"
    ∷ codes "- required_approvals: list of issuer names that must approve (empty list if "
    ∷ codes "none)\n"
    ∷ codes "- canonical_goal: a precise, unambiguous rewrite of the goal preserving ALL "
    ∷ codes "safety constraints\n"
    ∷ codes "If the goal is dangerous, ambiguous, or cannot be safely expressed, respond "
    ∷ codes "with only: {\"unresolvable\": true}\n"
    ∷ codes "If the goal exceeds 2048 bytes when serialized, set overflow=true and provide "
    ∷ codes "the canonical header."
    ∷ [])

-- The system message of Summarize.
abbrev pub summarize_prompt : Bytes
summarize_prompt = concat (
    codes "You are the MeshyAnts Oracle Interface Agent. Summarize the recent swarm "
    ∷ codes "pheromone activity in plain English. Focus on SAFE (success) and DANGER "
    ∷ codes "(warnings). Under 200 words."
    ∷ [])

pub record MinimaxAdapter : Type 0 where
  pub config : Config
  pub http_timeout : ℕ
  pub api_key : Bytes
  pub base_url : Bytes

module _ (site : Site) where
  open site use {Schema, getenv, unicode}

  -- NewMiniMaxAdapter.
  unfoldable pub new_minimax_adapter : Config → MinimaxAdapter
  new_minimax_adapter cfg =
      let timeout = if eqb cfg.request_timeout 0 then 60 * 1000000000 else cfg.request_timeout in
      let model = or_else cfg.model (codes "MiniMax-M2.7") in
      let key =
        or_else (trim_space unicode cfg.api_key)
          (trim_space unicode (getenv (codes "MINIMAX_API_KEY"))) in
      let base = or_else (getenv (codes "MINIMAX_BASE_URL")) (codes "https://api.minimax.io/v1") in
      record {
        config = record cfg { request_timeout = timeout; model = model };
        http_timeout = timeout;
        api_key = key;
        base_url = trim_suffix base (codes "/");
      }

  unfoldable pub chat_url : MinimaxAdapter → Bytes
  chat_url a = a.base_url ++ codes "/chat/completions"

  -- minimaxChatPayload, with temperature 1, and the key "max_tokens" that both callers may add.
  unfoldable pub minimax_chat_payload :
      MinimaxAdapter → List Message → Option (Format Schema) → ChatRequest Schema
  minimax_chat_payload a messages format = record {
    model = a.config.model;
    temperature_one = true;
    messages = messages;
    reasoning_split = true;
    response_format = format;
    max_tokens = if ltb 0 a.config.max_tokens then some a.config.max_tokens else none;
  }

  -- The test of the status.
  abbrev pub ok_body : ℕ × Bytes → Result Fault Bytes
  ok_body (status, body) =
      if not (eqb status 200)
      then err (unexpected_status status (truncate_for_err body 512))
      else ok body

  -- From the request to the content of the first choice, in Canonicalize and in Summarize.
  unfoldable pub exchange : MinimaxAdapter → ChatRequest Schema → Result Fault Bytes
  unfolding chat_url truncate_for_err
  exchange a payload = do
    body ← or_fault marshal_request (site.marshal_chat payload)
    refuse_if (not (site.valid_url (chat_url a))) create_request
    resp ← or_fault request_failed (
        site.do_request (record {
          url = chat_url a;
          authorization = codes "Bearer " ++ a.api_key;
          body = body;
          timeout = a.http_timeout;
        }))
    resp_body ← ok_body resp
    choices ← or_fault decode_response (site.decode_choices resp_body)
    first_choice choices

  -- json.Unmarshal([]byte(content), &unresolvable) == nil && unresolvable.Unresolvable
  abbrev pub both : Bool × Bool → Bool
  both (a, b) = a && b

  -- What Canonicalize makes of the content of a choice.
  unfoldable pub read_reply : Bytes → Result Fault TaskIntentHeader
  unfolding normalize_minimax_json_payload
  read_reply text = do
    let content = normalize_minimax_json_payload unicode text
    refuse_if (both (site.decode_unresolvable content)) (unresolvable none)
    h ← or_fault parse_header (site.decode_header content)
    complete h (validate_required_safety_fields unicode site.codecs (some h))

  -- The request of Canonicalize.
  unfoldable pub canonicalize_request : MinimaxAdapter → Schema → Bytes → ChatRequest Schema
  unfolding minimax_chat_payload
  canonicalize_request a schema goal =
      minimax_chat_payload a
        (message (codes "system") canonicalize_prompt ∷ message (codes "user") goal ∷ [])
        (some (strict schema))

  -- The method Canonicalize of MiniMaxAdapter.
  unfoldable pub canonicalize : MinimaxAdapter → Bytes → Result Fault TaskIntentHeader
  unfolding exchange read_reply canonicalize_request
  canonicalize a goal = do
    refuse_if (is_empty a.api_key) no_key
    schema ← or_fault bad_schema site.schema
    text ← exchange a (canonicalize_request a schema goal)
    read_reply text

  -- The method Summarize of MiniMaxAdapter.
  unfoldable pub summarize : MinimaxAdapter → List PheromoneRecord → Result Fault Bytes
  unfolding exchange minimax_chat_payload normalize_minimax_plain_text
  summarize a [] = refuse_if (is_empty a.api_key) no_key >> ok (codes "No recent swarm activity.")
  summarize a (r ∷ rs) = do
    refuse_if (is_empty a.api_key) no_key
    let records_json = site.marshal_summaries (map (summary_of site.kind_name) (r ∷ rs))
    text ← exchange a (
        minimax_chat_payload a
          (message (codes "system") summarize_prompt
            ∷ message (codes "user") (codes "Recent pheromones:\n" ++ records_json)
            ∷ [])
          none)
    ok (normalize_minimax_plain_text unicode text)
