-- ===== src/Http.antt =====
-- http/http_client.h with http/code.h: a session that sends one request. The network is a parameter:
-- what the asynchronous calls complete with. `fail` prints, which is a list here.
pub mod Run
use ncx_for_mall.Prelude.{
  ℕ, zero, suc, List, [], ◌∷◌, ◌++◌, Option, none, some, Bool, true, false, ◌||◌, if◌then◌else◌,
  codes,
}
use ncx_for_mall.Exceptions.{Text}

pub data Method : Type 0 where
  unknown get post : Method

-- `http::request<http::string_body>`; `prepared` tells whether `prepare_payload` was called, which sets
-- the length of the body.
pub record HttpRequest : Type 0 where
  pub version : ℕ
  pub method : Method
  pub target : Text
  pub host : Text
  pub user_agent : Text
  pub content_type : Option Text
  pub body : Text
  pub prepared : Bool

-- The operation whose completion comes next.
pub data Pending : Type 0 where
  idle resolving connecting writing reading : Pending

-- `res` is the body of `res_`; `sent` are the requests that `async_write` was called with.
pub record Session : Type 0 where
  pub req : HttpRequest
  pub res : Text
  pub pending : Pending
  pub sent : List HttpRequest
  pub failures : List Text

-- How `shutdown` ends.
pub data Shutdown : Type 0 where
  done not_connected broken : Shutdown

-- The results of the four operations, `true` for an error, and what is read in answer to a request.
pub record Network : Type 0 where
  pub resolve_ec : Bool
  pub connect_ec : Bool
  pub write_ec : Bool
  pub read_ec : Bool
  pub answer : HttpRequest → Text
  pub shutdown : Shutdown

unfoldable pub new_session : HttpRequest → Session
new_session req = record { req = req; res = []; pending = idle; sent = []; failures = [] }

-- `Get` and `Post`; the version of the library is the user agent.
unfoldable pub get_request : Text → Text → Text → ℕ → Session → Session
get_request agent host target version s = record s {
  req = record (s.req) {
    version = version;
    method = get;
    target = target;
    host = host;
    user_agent = agent;
  };
  pending = resolving;
}

unfoldable pub post_request : Text → Text → Text → ℕ → Text → Session → Session
post_request agent host target version body s = record s {
  req = record (s.req) {
    version = version;
    method = post;
    target = target;
    host = host;
    user_agent = agent;
    content_type = some (codes "application/json");
    body = body;
    prepared = true;
  };
  pending = resolving;
}

-- `fail`, behind which a handler returns.
unfoldable pub fail : Text → Session → Session
fail what s = record s { pending = idle; failures = s.failures ++ what ∷ [] }

unfoldable pub on_resolve : Bool → Session → Session
unfolding fail
on_resolve ec s = if ec then fail (codes "resolve") s else record s { pending = connecting }

unfoldable pub on_connect : Bool → Session → Session
unfolding fail
on_connect ec s =
    if ec
    then fail (codes "connect") s
    else record s { pending = writing; sent = s.sent ++ s.req ∷ [] }

unfoldable pub on_write : Bool → Session → Session
unfolding fail
on_write ec s = if ec then fail (codes "write") s else record s { pending = reading }

-- What `shutdown` leaves in `ec`, which is tested against `not_connected`.
unfoldable pub on_shutdown : Shutdown → Session → Session
unfolding fail
on_shutdown done s = record s { pending = idle }
on_shutdown not_connected s = record s { pending = idle }
on_shutdown broken s = fail (codes "shutdown") s

unfoldable pub on_read : Bool → Shutdown → Session → Session
unfolding fail on_shutdown
on_read ec shutdown s = if ec then fail (codes "read") s else on_shutdown shutdown s

-- The completion of the pending operation; `async_read` fills `res_` where it succeeds, before its
-- handler runs.
unfoldable pub complete : Network → Pending → Session → Session
unfolding on_resolve on_connect on_write on_read
complete net idle s = s
complete net resolving s = on_resolve net.resolve_ec s
complete net connecting s = on_connect net.connect_ec s
complete net writing s = on_write net.write_ec s
complete net reading s =
    on_read net.read_ec net.shutdown
      (record s { res = if net.read_ec then s.res else net.answer s.req })

-- `io_context::run`, with fuel: it ends where nothing is pending.
unfoldable pub io_run : Network → ℕ → Session → Session
unfolding complete
io_run net zero s = s
io_run net (suc fuel) s = io_run net fuel (complete net s.pending s)
