-- ===== src/Console/Served.antt =====
-- The console against the application of the repository (`POST /resolve`): the JSON of a response,
-- and a queued case that is answered by the route.
use deskfleet_ticketwarden.Console.{CaseResult, ToolEntry}
use deskfleet_ticketwarden.Console.Api.{Api, Answer}
use deskfleet_ticketwarden.Base.{inr, inl, String, Option, none, some, map}
use deskfleet_ticketwarden.Action.{Result}
use deskfleet_ticketwarden.Value.{dict}
use deskfleet_ticketwarden.Vocabulary.{Category, decision_value, category_value, status_value}
use deskfleet_ticketwarden.Unicode
use deskfleet_ticketwarden.Registry.{ToolRecord}
use deskfleet_ticketwarden.Service.Resolve.{ResolveResponse}
use deskfleet_ticketwarden.Routes.{Reply, replied, unprocessable, server_error}

abbrev encode_category : Option Category → Option String
encode_category none = none
encode_category (some c) = some (category_value c)

abbrev encode_call : ToolRecord → ToolEntry
encode_call t = record {
  tool_name = some t.tool_name;
  status = some (status_value t.status);
  args = dict t.args;
  result = t.result;
}

-- The fields of the JSON body, as the response model declares them.
abbrev pub encode : ResolveResponse → CaseResult
encode r = record {
  ticket_id = some r.ticket_id;
  decision = some (decision_value r.decision);
  reply = r.reply;
  category = encode_category r.category;
  escalation_reason = r.escalation_reason;
  iterations = some r.iterations;
  tool_calls = some (map encode_call r.tool_calls);
  langsmith_trace_url = r.langsmith_trace_url;
  latency = some r.latency;
  cost_usd = some r.cost_usd;
}

-- What a client sees of a reply.
abbrev pub served : Reply ResolveResponse → Answer CaseResult
served (replied resp) = Answer.responded 200 (inl (encode resp))
served unprocessable = Answer.responded 422 (inr "")
served (server_error e) = Answer.responded 500 (inr e)
