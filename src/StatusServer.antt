-- ===== src/StatusServer.antt =====
-- `Server` of include/server/server.hpp and src/server/server.cpp, which answers the commands of clients
-- about a migration. What the operating system does with sockets is a parameter, and so is the text that
-- nlohmann/json makes of a response, if it makes one.
pub mod Closing
pub mod Clients
use gh_ost_cpp.Base.{
  ltb, ◌==◌, if◌then◌else◌, take, is_empty, Bytes, codes, ℕ, Bool, true, false, not, ◌&&◌, Option,
  none, some, List, [], ◌∷◌, ◌++◌,
}
use gh_ost_cpp.Strings.Trim.{trim}
use gh_ost_cpp.Context.{get_progress, phase_to_string}
use gh_ost_cpp.Commands.{CommandResult, Console, process_command, status_number}

-- `socket` is none for a negative descriptor; `closed` are the descriptors given to `close`, oldest first.
pub record StatusServer : Type 0 where
  pub console : Console
  pub running : Bool
  pub tcp_port : ℕ
  pub socket_path : Bytes
  pub socket : Option ℕ
  pub has_thread : Bool
  pub closed : List ℕ

unfoldable pub create : Console → StatusServer
create console = record {
  console = console;
  running = false;
  tcp_port = 0;
  socket_path = [];
  socket = none;
  has_thread = false;
  closed = [];
}

-- what `socket`, `bind` and `listen` do in a call of `Start`
pub record Sockets : Type 0 where
  pub descriptor : Option ℕ
  pub binds : Bool
  pub listens : Bool

unfoldable pub close_socket : Option ℕ → StatusServer → StatusServer
close_socket none s = s
close_socket (some fd) s = record s { closed = s.closed ++ fd ∷ [] }

-- `BindSocket`, which binds nothing without a port and a path
unfoldable pub bind_socket : Sockets → StatusServer → Bool
bind_socket os s =
    if ltb 0 s.tcp_port then os.binds else if not (is_empty s.socket_path) then os.binds else true

-- `CreateTCPSocket` and `CreateUnixSocket`
unfoldable pub create_socket : Sockets → StatusServer → Bool × StatusServer
create_socket os s = elim os.descriptor [
  | none ↦ (false, record s { socket = none })
  | some fd ↦ (true, record s { socket = some fd })
]

-- the part of `Start` behind the creation of the socket
abbrev pub bound : Sockets → Bool × StatusServer → Bool × StatusServer
bound os (created, s) =
    if not created
    then (false, s)
    else if not (bind_socket os s && os.listens)
    then (false, close_socket s.socket s)
    else (true, record s { running = true; has_thread = true })

unfoldable pub start : Sockets → StatusServer → Bool × StatusServer
unfolding create_socket bind_socket close_socket
start os s = if s.running then (true, s) else elim s.console.context.config.status_tcp_port [
  | some port ↦ bound os (create_socket os (record s { tcp_port = port }))
  | none ↦ elim s.console.context.config.status_socket_path [
    | some path ↦ bound os (create_socket os (record s { socket_path = path }))
    | none ↦ (true, s)
  ]
]

unfoldable pub stop : StatusServer → StatusServer
unfolding close_socket
stop s = record (close_socket s.socket s) { running = false; socket = none; has_thread = false }

-- The members of the JSON objects; the percentage, a floating point number, is a text.
pub record StatusObject : Type 0 where
  pub database : Bytes
  pub table : Bytes
  pub ghost_table : Bytes
  pub status : ℕ
  pub phase : Bytes
  pub is_throttled : Bool

unfoldable pub get_status_json : Console → StatusObject
get_status_json c = record {
  database = c.context.config.database_name;
  table = c.context.config.table_name;
  ghost_table = c.context.ghost_table_name;
  status = status_number c.context.status;
  phase = phase_to_string c.context.current_phase;
  is_throttled = c.context.is_throttled;
}

pub record ProgressObject : Type 0 where
  pub total_rows : ℕ
  pub copied_rows : ℕ
  pub percentage : Bytes
  pub events_applied : ℕ

unfoldable pub get_progress_json : Bytes → Console → ProgressObject
get_progress_json percentage c = record {
  total_rows = (get_progress c.context).total_rows;
  copied_rows = (get_progress c.context).copied_rows;
  percentage = percentage;
  events_applied = (get_progress c.context).events_applied;
}

pub record Response : Type 0 where
  pub status : Bytes
  pub message : Bytes
  pub progress : ProgressObject

unfoldable pub build_response : Bytes → Bytes → Bytes → Console → Response
unfolding get_progress_json
build_response percentage status message c = record {
  status = status;
  message = message;
  progress = get_progress_json percentage c;
}

-- The response is made behind the command. Its percentage is that of then.
unfoldable pub handle_command : (Console → Bytes) → Bytes → Console → Response × Console
unfolding build_response
handle_command percentage command c =
    let done = process_command (percentage c) command c in
    let status = if (done.0).success then codes "OK" else codes "ERROR" in
    (build_response (percentage done.1) status (done.0).message done.1, done.1)

-- a C string in a buffer
abbrev pub before_nul : Bytes → Bytes
before_nul [] = []
before_nul (c ∷ s) = if c == 0 then [] else c ∷ before_nul s

-- `ReadFromSocket`, with what `recv` would receive at once in a buffer of any size
unfoldable pub read_from_socket : Bytes → Bytes
read_from_socket received = trim (before_nul (take 1023 received))

-- What a connection leaves: what is sent, and the console; or the end of the program, where `dump`
-- throws in the server's thread.
pub data Served : Type 0 where
  serves : Option Bytes → Console → Served
  terminates : Served

unfoldable pub handle_connection :
    (Response → Option Bytes) → (Console → Bytes) → Bytes → Console → Served
unfolding handle_command read_from_socket
handle_connection dump percentage received c =
    let command = read_from_socket received in
    if is_empty command
    then serves none c
    else (let handled = handle_command percentage command c in
        elim (dump handled.0) [ none ↦ terminates | some text ↦ serves (some text) handled.1 ])

-- `ServerLoop` over the connections that it accepts.
unfoldable pub server_loop :
    (Response → Option Bytes) → (Console → Bytes) → List Bytes → Console → Option Console
unfolding handle_connection
server_loop dump percentage [] c = some c
server_loop dump percentage (received ∷ later) c =
    elim (handle_connection dump percentage received c) [
      | terminates ↦ none
      | serves sent next ↦ server_loop dump percentage later next
    ]
