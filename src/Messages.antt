-- ===== src/Messages.antt =====
-- Chat messages, as far as the modelled code reads them (oaiMsg, internal/web/server.go).
use m365_copilot2api_docker.Base.{String, List, Bool}

-- An entry of `ToolCalls`: the texts that the type assertions give, empty where they fail, and
-- `fmt.Sprint` of the arguments beside the text that an assertion gives.
pub record Call : Type 0 where
  pub id : String
  pub name : String
  pub arguments : String
  pub argument_text : String

pub record Message : Type 0 where
  pub role : String
  pub name : String
  pub content : String  -- `contentToString`
  pub calls_given : Bool  -- whether `ToolCalls` is not nil; an empty slice is not
  pub tool_calls : List Call
  pub tool_call_id : String
