-- ===== src/Control/InfoCommands.antt =====
-- TYPE, MODE and HELP: `commandMap` of server/src/control/CommandDispatcher.cpp.
use socket_programming.Base.{not, ◌&&◌, List, [], ◌∷◌, ◌++◌, Option, none, some, if◌then◌else◌}
use socket_programming.Text.{Text, codes, text_eq, uppercase}
use socket_programming.ReplyCode.{
  syntax_error, action_completed, command_okay, command_not_implemented_for_parameter, help_message,
}
use socket_programming.FileSystem.{FileSystem}
use socket_programming.FileSystem.Directory.{when_some}
use socket_programming.Control.ClientSession.{binary, ascii}
use socket_programming.Control.State.{State, reply, reply_lines}
use socket_programming.Control.HelpTexts.{help_map}

-- `args.size() == 1 ? uppercaseToken(args[0]) : ""`
abbrev pub one_upper : List Text → Text
one_upper [] = []
one_upper (a ∷ []) = uppercase a
one_upper (a ∷ b ∷ args) = []

abbrev pub command_list : Text
command_list =
    codes "The following commands are recognized:"
    ++ 10 ∷ codes "USER   PASS    QUIT    NOOP    PWD     CWD     CDUP    MKD "
    ++ 10 ∷ codes "RMD    LIST    NLST    STAT    SIZE    MDTM    TYPE    MODE"
    ++ 10 ∷ codes "PORT   PASV    RETR    STOR    STOU    APPE    DELE    RNFR"
    ++ 10 ∷ codes "RNTO   HASH    ABOR    HELP"

-- `find` in a map from texts to texts.
unfoldable pub lookup_text : Text → List (Text × Text) → Option Text
lookup_text k [] = none
lookup_text k ((j, v) ∷ m) = if text_eq j k then some v else lookup_text k m

module _ {fs : FileSystem} where
  unfoldable pub type_command : List Text → State fs → State fs
  type_command args st =
      let type = one_upper args in
      if not (text_eq type (codes "A")) && not (text_eq type (codes "I"))
      then reply syntax_error (codes "TYPE must be A or I.") st
      else reply action_completed (codes "Type set to " ++ type ++ codes ".") (record st {
        session = record st.session {
          transfer_mode = if text_eq type (codes "A") then ascii else binary;
        };
      })

  unfoldable pub mode_command : List Text → State fs → State fs
  mode_command args st =
      let mode = one_upper args in
      if not (text_eq mode (codes "S"))
        && not (text_eq mode (codes "B"))
        && not (text_eq mode (codes "C"))
      then reply syntax_error (codes "MODE must be S, B, or C.") st
      else if not (text_eq mode (codes "S"))
      then reply command_not_implemented_for_parameter (codes "Only MODE S is supported.") st
      else reply command_okay (codes "Stream mode enabled.") st

  unfoldable pub help : List Text → State fs → State fs
  unfolding lookup_text
  help [] st = reply_lines help_message command_list st
  help (name ∷ args) st =
      when_some (lookup_text (uppercase name) help_map)
        (reply syntax_error (codes "Command not found: " ++ name) st)
        λ text. reply_lines help_message text st
