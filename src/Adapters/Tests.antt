-- ===== src/Adapters/Tests.antt =====
-- The adapters of internal/oracle before one server.
use meshyants.Base.{
  ◌≡◌, refl, Bytes, leb, true, false, if◌then◌else◌, ok, err, none, some, [], ◌∷◌, length, arith,
}
use meshyants.Text.{ascii_only, codes, has_prefix, trim_space, trim_end}
use meshyants.Text.Index.{index, last_index, trim_left}
use meshyants.Policy.{
  TaskIntentHeader, Codecs, check_dtn_size, check_fields, validate_required_safety_fields, oversize,
}
use meshyants.Adapters.{Site}
use meshyants.Adapters.Reply.{strip_pair, strip_round}
use meshyants.Adapters.Reply.Fence.{object, fenced}
use meshyants.Adapters.Minimax
use meshyants.Adapters.Minimax.{MinimaxAdapter}
use meshyants.Adapters.Factory.{minimax, canonicalize_by}
use meshyants.Adapters.Canonical.{read_reply-fenced, canonicalize-fits}

abbrev codecs : Codecs
codecs = record {
  parses_rfc3339 = λ s. true;
  marshal = λ h. h.canonical_goal;
  unmarshal = λ s. none;
  sum256_hex = λ s. s;
}

-- The goal of the header is the text that it was read from.
abbrev read : Bytes → TaskIntentHeader
read text = record {
  scope = 1 ∷ [];
  prohibited_actions = some [];
  deadline_rfc3339 = [];
  transport_class = 2 ∷ [];
  required_approvals = [];
  canonical_goal = text;
}

-- A server that always answers "{1}" in a fence.
abbrev site : Site
site = record {
  Schema = Bytes;
  schema = some [];
  marshal_chat = λ r. some r.model;
  valid_url = λ url. true;
  do_request = λ p. some (200, p.body);
  decode_choices = λ body. some (fenced (b'1' ∷ []) ∷ []);
  decode_stream = λ body. none;
  decode_unresolvable = λ text. (true, false);
  decode_header = λ text. some (read text);
  marshal_summaries = λ rs. [];
  kind_name = λ k. [];
  getenv = λ key. [];
  unicode = ascii_only;
  codecs = codecs;
}

read_reply-fenced_example :
    Minimax.read_reply site (fenced (b'1' ∷ [])) ≡ Minimax.read_reply site (object (b'1' ∷ []))
read_reply-fenced_example = read_reply-fenced site (b'1' ∷ []) ((λ e. ground (arith, e)), tt)

abbrev adapter : MinimaxAdapter
adapter = record {
  config = record { model = []; request_timeout = 5; max_tokens = 0; api_key = 1 ∷ [] };
  http_timeout = 5;
  api_key = 1 ∷ [];
  base_url = codes "https://localhost";
}

answered : canonicalize_by site [] (minimax adapter) [] ≡ ok (read (object (b'1' ∷ [])))
unfolding Minimax.canonicalize check_fields validate_required_safety_fields trim_space trim_end
    strip_pair strip_round index has_prefix last_index trim_left
answered = refl

canonicalize-fits_example :
    check_dtn_size ascii_only codecs (some (read (object (b'1' ∷ [])))) false ≡ (
      if leb (length (object (b'1' ∷ []))) 2048
      then ok (object (b'1' ∷ []))
      else err (oversize (length (object (b'1' ∷ [])))))
canonicalize-fits_example =
    canonicalize-fits site [] (minimax adapter) [] (read (object (b'1' ∷ []))) tt answered
