-- ===== src/Tests/Session.antt =====
-- Runs of a whole control connection and of the parser of commands.
use socket_programming.Base.{
  ℕ, ◌≡◌, refl, true, List, [], ◌∷◌, ◌++◌, Option, some, none, ◌==◌, if◌then◌else◌, All,
}
use socket_programming.Text.{Text, codes}
use socket_programming.Control.Parser.{parse_command}
use socket_programming.Control.Parser.Words.{IsWord, join_words, parse_command-join_words}
use socket_programming.Control.State.{
  State, Event, replied, replied_lines, closed, shut_down, threw, started,
}
use socket_programming.Control.Session.{Ended, end_session, handle_client, handle_client-pieces}
use socket_programming.Control.Dispatch.{run_command}
use socket_programming.Control.Login.{user, pass_command, noop, quit}
use socket_programming.Control.DataCommands.{port, stor}
use socket_programming.Control.Transfers.{start_upload_transfer}
use socket_programming.FileSystem.Resolver.{resolve}
use socket_programming.Tests.ControlData.{log, home, client, ready}

-- The commands of a session with an upload, and then QUIT.
abbrev line : Text → Text
line t = t ++ 13 ∷ 10 ∷ []

abbrev one_piece : List Text
one_piece =
    (line (codes "USER User1")
      ++ line (codes "PASS password")
      ++ line (codes "PORT 127,0,0,1,19,136")
      ++ line (codes "STOR f")
      ++ line (codes "NOOP")
      ++ line (codes "QUIT"))
    ∷ []

-- Cut in the middle of a name and between CR and LF.
abbrev four_pieces : List Text
four_pieces =
    codes "USER Us"
    ∷ (codes "er1" ++ 13 ∷ [])
    ∷ (10 ∷ line (codes "PASS password") ++ line (codes "PORT 127,0,0,1,19,136"))
    ∷ (line (codes "STOR f") ++ line (codes "NOOP") ++ line (codes "QUIT"))
    ∷ []

-- The upload's worker ends before the fifth command.
abbrev worker_end : ℕ → Option (Ended log)
worker_end n =
    if n == 4
    then some (record {
      work = λ w. (codes "srv" ∷ codes "f" ∷ []) ∷ w;
      success = true;
      message = codes "Transfer complete.";
    })
    else none

abbrev reply_codes : List Event → List ℕ
reply_codes [] = []
reply_codes (replied code message ∷ es) = code ∷ reply_codes es
reply_codes (replied_lines code message ∷ es) = code ∷ reply_codes es
reply_codes (closed socket ∷ es) = reply_codes es
reply_codes (shut_down ∷ es) = reply_codes es
reply_codes (threw ∷ es) = reply_codes es
reply_codes (started job ∷ es) = reply_codes es

abbrev codes_of : State log → List ℕ
codes_of st = reply_codes st.events

abbrev session_of : List Text → State log
session_of pieces = handle_client {fs = log} home (λ n. ready) worker_end 3 client [] pieces [] [] 1

-- The 226 of the worker comes between the 150 of STOR and the 250 of NOOP.
upload_replies :
    codes_of (session_of four_pieces) ≡ 220 ∷ 331 ∷ 230 ∷ 200 ∷ 150 ∷ 226 ∷ 250 ∷ 221 ∷ []
unfolding handle_client end_session parse_command run_command user pass_command port stor resolve
    start_upload_transfer noop quit
upload_replies = refl

handle_client-pieces_example : session_of one_piece ≡ session_of four_pieces
handle_client-pieces_example =
    handle_client-pieces home (λ n. ready) worker_end 3 client [] one_piece four_pieces [] [] 1 refl

user_words-IsWord : All IsWord (codes "user" ∷ codes "User1" ∷ [])
user_words-IsWord = (
  (refl, (refl, (refl, (refl, (refl, tt))))),
  ((refl, (refl, (refl, (refl, (refl, (refl, tt)))))), tt),
)

parse_command-join_words_example :
    parse_command (join_words (codes "user" ∷ codes "User1" ∷ []))
    ≡ record { raw_command = codes "user User1"; type = codes "USER"; args = codes "User1" ∷ [] }
parse_command-join_words_example =
    parse_command-join_words (codes "user") (codes "User1" ∷ []) user_words-IsWord
