-- ===== src/Adapters/Openai.antt =====
-- internal/oracle/adapter_openai.go.
use meshyants.Base.{
  ℕ, ◌*◌, Bytes, Result, ok, err, ◌>>=◌, ◌>>◌, refuse_if, eqb, not, false, is_empty, Option, none,
  some, List, [], ◌∷◌, ◌++◌, map, if◌then◌else◌,
}
use meshyants.Text.{codes}
use meshyants.Contracts.{PheromoneRecord}
use meshyants.Policy.{TaskIntentHeader, validate_required_safety_fields}
use meshyants.Adapters.{
  Config, Message, Format, bare, ChatRequest, Fault, no_key, bad_schema, marshal_request,
  create_request, request_failed, decode_response, parse_header, unexpected_status, unresolvable,
  Site, or_fault, first_choice, complete, message, summary_of, or_else,
}
use meshyants.Adapters.Minimax.{canonicalize_prompt, concat}

-- The system message of Summarize.
abbrev pub openai_summarize_prompt : Bytes
openai_summarize_prompt = concat (
    codes "You are the MeshyAnts Oracle Interface Agent. Summarize the recent swarm "
    ∷ codes "pheromone activity in plain English. Focus on SAFE (success) and DANGER "
    ∷ codes "(warnings) patterns. Keep it under 200 words."
    ∷ [])

pub record OpenaiAdapter : Type 0 where
  pub config : Config
  pub http_timeout : ℕ
  pub api_key : Bytes

module _ (site : Site) where
  open site use {Schema, getenv, unicode}

  -- NewOpenAIAdapter.
  unfoldable pub new_openai_adapter : Config → OpenaiAdapter
  new_openai_adapter cfg =
      let timeout = if eqb cfg.request_timeout 0 then 30 * 1000000000 else cfg.request_timeout in
      let model = or_else cfg.model (codes "gpt-4o") in
      record {
        config = record cfg { request_timeout = timeout; model = model };
        http_timeout = timeout;
        api_key = or_else cfg.api_key (getenv (codes "OPENAI_API_KEY"));
      }

  abbrev pub ok_body : ℕ × Bytes → Result Fault Bytes
  ok_body (status, body) =
      if not (eqb status 200) then err (unexpected_status status []) else ok body

  -- From the request to the content of the first choice, in Canonicalize and in Summarize.
  unfoldable pub exchange : OpenaiAdapter → ChatRequest Schema → Result Fault Bytes
  exchange a payload = do
    let url = codes "https://api.openai.com/v1/chat/completions"
    body ← or_fault marshal_request (site.marshal_chat payload)
    refuse_if (not (site.valid_url url)) create_request
    resp ← or_fault request_failed (
        site.do_request (record {
          url = url;
          authorization = codes "Bearer " ++ a.api_key;
          body = body;
          timeout = a.http_timeout;
        }))
    resp_body ← ok_body resp
    choices ← or_fault decode_response (site.decode_stream resp_body)
    first_choice choices

  -- What Canonicalize makes of the content of a choice; an error of the first json.Unmarshal is not
  -- looked at.
  unfoldable pub read_reply : Bytes → Result Fault TaskIntentHeader
  read_reply content = do
    refuse_if (site.decode_unresolvable content).1 (unresolvable none)
    h ← or_fault parse_header (site.decode_header content)
    complete h (validate_required_safety_fields unicode site.codecs (some h))

  -- chatReq and summaryReq, which have no other keys.
  unfoldable pub openai_request :
      OpenaiAdapter → List Message → Option (Format Schema) → ChatRequest Schema
  openai_request a messages format = record {
    model = a.config.model;
    temperature_one = false;
    messages = messages;
    reasoning_split = false;
    response_format = format;
    max_tokens = none;
  }

  -- The request of Canonicalize.
  unfoldable pub canonicalize_request : OpenaiAdapter → Schema → Bytes → ChatRequest Schema
  unfolding openai_request
  canonicalize_request a schema goal =
      openai_request a
        (message (codes "system") canonicalize_prompt ∷ message (codes "user") goal ∷ [])
        (some (bare schema))

  -- The method Canonicalize of OpenAIAdapter.
  unfoldable pub canonicalize : OpenaiAdapter → Bytes → Result Fault TaskIntentHeader
  unfolding exchange read_reply canonicalize_request
  canonicalize a goal = do
    refuse_if (is_empty a.api_key) no_key
    schema ← or_fault bad_schema site.schema
    text ← exchange a (canonicalize_request a schema goal)
    read_reply text

  -- The method Summarize of OpenAIAdapter.
  unfoldable pub summarize : OpenaiAdapter → List PheromoneRecord → Result Fault Bytes
  unfolding exchange openai_request
  summarize a [] = refuse_if (is_empty a.api_key) no_key >> ok (codes "No recent swarm activity.")
  summarize a (r ∷ rs) = do
    refuse_if (is_empty a.api_key) no_key
    let records_json = site.marshal_summaries (map (summary_of site.kind_name) (r ∷ rs))
    exchange a (
        openai_request a
          (message (codes "system") openai_summarize_prompt
            ∷ message (codes "user") (codes "Recent pheromones:\n" ++ records_json)
            ∷ [])
          none)
