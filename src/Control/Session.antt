-- ===== src/Control/Session.antt =====
-- server/src/control/Session.cpp: what a reply is on the wire, and the thread of one client.
use socket_programming.Base.{
  ℕ, zero, suc, ◌≡◌, refl, sym, ap, ◌∙◌, Bool, true, false, ◌||◌, List, [], ◌∷◌, ◌++◌, Option, none,
  some, if◌then◌else◌, length, drop, take,
}
use socket_programming.Text.{Text, codes, is_empty}
use socket_programming.ReplyCode.{service_ready, syntax_error}
use socket_programming.Endpoint.{Endpoint}
use socket_programming.FileSystem.{FilePath, FileSystem}
use socket_programming.Control.Registry.{Registry, add_client, remove_client}
use socket_programming.Control.Parser.{parse_command}
use socket_programming.Control.ClientSession.{new_session}
use socket_programming.Control.State.{State, Answers, has_thrown, closed, emit, reply}
use socket_programming.Control.Transfers.{worker_ends}
use socket_programming.Control.Lines.{
  find_newline, strip_return, receive_commands, on_bytes, concat,
}
use socket_programming.Control.Lines.Pieces.{receive_commands-on_bytes}
use socket_programming.Control.Dispatch.{execute_command, shutdown_session}

-- What `send` returns: how many bytes it took (more than none), an interruption, or another failure.
pub data Taken : Type 0 where
  took : ℕ → Taken
  interrupted broken : Taken

-- `sendAll`, on what the calls of `send` return: the bytes that were sent, and whether it was all.
unfoldable pub send_all : List Taken → Text → Text × Bool
send_all calls [] = ([], true)
send_all [] (b ∷ bytes) = ([], false)
send_all (broken ∷ calls) (b ∷ bytes) = ([], false)
send_all (interrupted ∷ calls) (b ∷ bytes) = send_all calls (b ∷ bytes)
send_all (took n ∷ calls) (b ∷ bytes) =
    let (sent, all) = send_all calls (drop n (b ∷ bytes)) in (take n (b ∷ bytes) ++ sent, all)

-- The lines that `std::getline` gives: a newline at the end opens no further line.
unfoldable pub get_lines : ℕ → Text → List Text
unfolding find_newline
get_lines zero t = []
get_lines (suc fuel) [] = []
get_lines (suc fuel) (c ∷ t) = elim (find_newline (c ∷ t)) [
  | none ↦ (c ∷ t) ∷ []
  | some (line, behind) ↦ line ∷ get_lines fuel behind
]

abbrev pub stripped : List Text → List Text
stripped [] = []
stripped (t ∷ ts) = strip_return t ∷ stripped ts

module _ (fs : FileSystem) where
  -- `replyWithCode`
  unfoldable pub response : ℕ → Text → Text
  response code message = fs.to_string code ++ 32 ∷ message ++ 13 ∷ 10 ∷ []

  -- `multilineReplyWithCode`: a dash behind the code in all lines but the last.
  abbrev pub multiline : ℕ → List Text → Text
  multiline code [] = response code []
  multiline code (line ∷ []) = response code line
  multiline code (line ∷ next ∷ more) =
      (fs.to_string code ++ 45 ∷ line ++ 13 ∷ 10 ∷ []) ++ multiline code (next ∷ more)

  unfoldable pub multiline_response : ℕ → Text → Text
  unfolding get_lines strip_return
  multiline_response code message =
      multiline code (stripped (get_lines (suc (length message)) message))

-- What an active worker that ends has still done to the files, and what it reports to
-- `finishTransfer`.
pub record Ended (fs : FileSystem) : Type 0 where
  pub work : fs.W → fs.W
  pub success : Bool
  pub message : Text

-- A worker that ends, if one is active.
abbrev pub ended_if : {fs : FileSystem} → Bool → Option (Ended fs) → State fs → State fs
ended_if true (some e) st = worker_ends e.work e.success e.message st
ended_if true none st = st
ended_if false e st = st

module _ {fs : FileSystem} (root : FilePath) (answers : ℕ → Answers fs)
    (ends : ℕ → Option (Ended fs)) where
  -- What a worker has done by the time the command of this number is executed: its thread runs beside
  -- that of the session, and clears `transferActive` when it ends.
  abbrev pub worker_may_end : ℕ → State fs → State fs
  worker_may_end n st = ended_if st.session.transfer_active (ends n) st

  -- One command: its number, for what the system answers in its course, and the session.
  unfoldable pub serve : Text → ℕ × State fs → ℕ × State fs
  unfolding execute_command worker_ends
  serve line (n, st) =
      let cmd = parse_command line in
      let current = worker_may_end n st in
      (
        suc n,
        if is_empty cmd.type
            then reply syntax_error [] current
            else execute_command root (answers n) cmd current,
      )

  -- `session.socket == INVALID_SOCKET`
  abbrev pub is_closed : Option ℕ → Bool
  is_closed none = true
  is_closed (some socket) = false

  -- The loop is over, too, once an exception has ended the process.
  abbrev pub has_left : ℕ × State fs → Bool
  has_left (n, st) = is_closed st.session.socket || has_thrown st.events

  -- `closesocket(clientSock)` where the client has not left by QUIT.
  abbrev pub hung_up : Bool → ℕ → State fs → State fs
  hung_up true socket st = st
  hung_up false socket st = emit (closed socket) st

  -- The end of `handleClient`, and its guard, which takes the client out of the table.
  unfoldable pub end_session : ℕ → ℕ × State fs → State fs
  unfolding shutdown_session worker_ends
  end_session socket (n, st) =
      let current = worker_may_end n st in
      let ended =
        hung_up (is_closed st.session.socket) socket (shutdown_session root (answers n) current) in
      if has_thrown st.events
      then st
      else record ended { registry = remove_client socket ended.registry }

  -- `handleClient`, on the pieces that `recv` returns.
  unfoldable pub handle_client : ℕ → Endpoint → Text → List Text → fs.W → Registry → ℕ → State fs
  unfolding receive_commands serve
  handle_client socket peer address pieces w registry next_id =
      let begin : State fs = record {
        session = new_session socket peer root;
        files = w;
        registry = add_client socket address registry;
        next_id = next_id;
        events = [];
      } in
      end_session socket (
        receive_commands serve has_left pieces []
          (0, reply service_ready (codes "Service ready.") begin))

  -- How the bytes of a connection are cut into pieces makes no difference to what the server does with
  -- them, given the same answers of the system to each command and the same ends of workers before it:
  -- not to its replies, nor to the files, nor to the table of clients.
  pub handle_client-pieces :
      (socket : ℕ) (peer : Endpoint) (address : Text) (pieces pieces' : List Text) (w : fs.W)
      (registry : Registry) (next_id : ℕ)
      → concat pieces ≡ concat pieces'
      → handle_client socket peer address pieces w registry next_id
        ≡ handle_client socket peer address pieces' w registry next_id
  unfolding handle_client
  handle_client-pieces socket peer address pieces pieces' w registry next_id same =
      let begin : State fs = record {
        session = new_session socket peer root;
        files = w;
        registry = add_client socket address registry;
        next_id = next_id;
        events = [];
      } in
      let greeted : ℕ × State fs = (0, reply service_ready (codes "Service ready.") begin) in
      ap (end_session socket) (
        receive_commands-on_bytes serve has_left pieces greeted refl
        ∙ ap (λ (t : Text). (on_bytes serve has_left t ([], greeted)).1) same
        ∙ sym (receive_commands-on_bytes serve has_left pieces' greeted refl))
