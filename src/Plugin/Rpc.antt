-- ===== src/Plugin/Rpc.antt =====
-- What the two sides of plugin/ rely on in gRPC: how a handler's error reaches the caller.
use doze_sdk.Prelude.{
  Bool, List, Map, Option, Result, Text, [], arith, err, if◌then◌else◌, ok, text_eq, text_eq_iff, ℕ,
  ℤ, ◌≡◌, ◌≢◌,
}
use doze_sdk.Plugin.Proto
use doze_sdk.Plugin.ProtoConsole

-- The codes that plugin/ uses.
pub data Code : Type 0 where
  unknown : Code
  unimplemented : Code
  invalid_argument : Code
  other_code : ℕ → Code

-- An error that a handler returns: one of its own, or status.Error.
pub data HandlerError : Type 0 where
  plain : Text → HandlerError
  status_error : Code → Text → HandlerError

-- An error that the caller of a method sees: a status, or an error without one.
pub data RpcError : Type 0 where
  status : Code → Text → RpcError
  broken : Text → RpcError

-- status.FromError makes Unknown of a handler's own error, with its text. `framed` is the text of
-- the Go error that carries a status.
pub record Grpc : Type 0 where
  pub deliver_error : HandlerError → RpcError
  pub framed : Code → Text → Text
  pub deliver_plain : (t : Text) → deliver_error (plain t) ≡ status unknown t
  pub deliver_status : (c : Code) (t : Text) → deliver_error (status_error c t) ≡ status c t

pub data Empty : Type 0 where
  empty : Empty

-- A call of a handler that is reached.
abbrev pub deliver {ℓ} : {A : Type ℓ} → Grpc → Result HandlerError A → Result RpcError A
deliver grpc (ok a) = ok a
deliver grpc (err e) = err (grpc.deliver_error e)

-- userError (plugin/adapter.go), with the text of the error that it gives
unfoldable pub user_error : Grpc → RpcError → Text
user_error grpc (status c t) = if text_eq t [] then grpc.framed c t else t
user_error grpc (broken t) = t

-- A module's own error, as the host shows it.
abbrev pub shown : Grpc → Text → Text
shown grpc t = user_error grpc (grpc.deliver_error (plain t))

-- The host shows a module's own error as the module wrote it, if it wrote anything.
pub shown_same : (grpc : Grpc) (t : Text) → t ≢ [] → shown grpc t ≡ t
unfolding user_error
shown_same grpc t h = rw (grpc.deliver_plain t) (ground (arith, text_eq_iff t []))

-- The client that gRPC makes for the service Engine. A request's fields are the arguments.
pub record EngineClient : Type 0 where
  pub type : Result RpcError Text
  pub capabilities : Result RpcError (List Text × ℤ)
  pub provision : Option Proto.Instance → Option Proto.Toolchain → Result RpcError Empty
  pub provisioned : Text → Result RpcError Bool
  pub backend_socket : Text → ℤ → Result RpcError Text
  pub conn_string : Option Proto.Instance → Option Proto.Endpoint → Result RpcError (Text × Text)
  pub plan : Option Proto.Instance → Option Proto.Toolchain → Result RpcError Proto.SpawnPlan
  pub ensure_template : Option Proto.Toolchain → Text → Result RpcError Empty
  pub clone_template : Text → Text → Result RpcError Empty
  pub attributes : Option Proto.Instance → Option Proto.Endpoint → Result RpcError (Map Text Text)
  pub converge :
      Option Proto.Instance → Option Proto.Toolchain → Option Proto.Endpoint → Result RpcError Empty
  pub objects : Option Proto.Instance → Result RpcError (List Proto.Object)
  pub prune :
      Option Proto.Instance
      → Option Proto.Toolchain
      → Option Proto.Endpoint
      → List Proto.Object
      → Result RpcError Empty
  pub backend_url : Option Proto.Instance → Result RpcError Text
  pub supervised : Option Proto.Instance → Result RpcError Bool
  pub hook : Option Proto.Instance → Text → Result RpcError Empty
  pub check_health : Option Proto.Instance → Result RpcError Empty
  pub restart_policy : Option Proto.Instance → Result RpcError Proto.RestartSpec
  pub advertised_addr : Option Proto.Instance → Result RpcError (Text × Bool)
  pub network : Option Proto.Instance → Result RpcError Proto.NetworkResponse
  pub actions : Result RpcError (List ProtoConsole.Action)
  pub resources :
      Option Proto.Instance → Option Proto.Endpoint → Result RpcError (List ProtoConsole.Resource)
  pub run_action :
      Option Proto.Instance → Option Proto.Endpoint → Text → Text → Text → Result RpcError Text
  pub describe_console : Result RpcError ProtoConsole.ConsoleSpec
