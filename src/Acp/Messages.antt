-- ===== src/Acp/Messages.antt =====
-- internal/acp/jsonrpc.go: the messages. JSON that is not decoded is its text; an int64 is its bit
-- pattern, a number below 2 ^ 64; results of encoding/json come through Codec.
use daedalus.Prelude.{
  ℕ, Bool, true, false, not, ◌&&◌, Option, none, some, List, Str, is_empty, Result,
}
use daedalus.Prelude.Int.{ℤ}

pub record RpcError : Type 0 where
  pub code : ℤ
  pub message : Str

pub record Request : Type 0 where
  pub jsonrpc : Str
  pub id : ℕ
  pub method : Str
  pub params : Str

pub record Response : Type 0 where
  pub id : Option ℕ
  pub result : Str
  pub error : Option RpcError
  pub method : Str
  pub params : Str

pub record ClientInfo : Type 0 where
  pub name : Str
  pub version : Str

pub record InitializeParams : Type 0 where
  pub protocol_version : ℕ
  pub streaming : Bool
  pub client_info : ClientInfo

pub record InitializeResult : Type 0 where
  pub protocol_version : ℕ
  pub load_session : Bool
  pub streaming : Bool
  pub server_info : ClientInfo

pub record SessionNewParams : Type 0 where
  pub work_dir : Str
  pub mcp_servers : List Str

pub record PromptPart : Type 0 where
  pub kind : Str
  pub text : Str

pub record SessionPromptParams : Type 0 where
  pub session_id : Str
  pub prompt : List PromptPart

pub record SessionPromptResult : Type 0 where
  pub session_id : Str
  pub content : Str

pub record PermissionRequestParams : Type 0 where
  pub session_id : Str
  pub tool_call : Str
  pub options : Str

-- SessionUpdateParams with its body and content.
pub record SessionUpdateParams : Type 0 where
  pub session_id : Str
  pub session_update : Str
  pub content_text : Str

abbrev pub has_id : Option ℕ → Bool
has_id none = false
has_id (some id) = true

-- IsNotification
abbrev pub is_notification : Response → Bool
is_notification r = not (has_id r.id) && not (is_empty r.method)

-- IsServerRequest
abbrev pub is_server_request : Response → Bool
is_server_request r = not (is_empty r.method) && has_id r.id

-- What is sent as the params of a request.
pub data Params : Type 0 where
  initialize_params : InitializeParams → Params
  session_new_params : SessionNewParams → Params
  session_prompt_params : SessionPromptParams → Params
  session_cancel_params : Str → Params

-- A line that is written.
pub data Frame : Type 0 where
  request : Request → Frame
  approval : ℕ → Str → Frame
  rpc_error : ℕ → ℤ → Str → Frame

-- encoding/json: a text without the value is none, or the error where the code returns it.
pub record Codec : Type 0 where
  pub marshal_params : Params → Result Str Str
  pub read_message : Str → Option Response
  pub read_permission : Str → Option PermissionRequestParams
  pub read_update : Str → Option SessionUpdateParams
  pub read_initialize : Str → Result Str InitializeResult
  pub read_session_new : Str → Result Str Str
  pub read_prompt : Str → Result Str SessionPromptResult
