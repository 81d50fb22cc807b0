-- ===== src/Control/HelpTexts.antt =====
-- The texts of HELP: `helpMap` of server/src/control/CommandDispatcher.cpp.
use socket_programming.Base.{List, [], ◌∷◌, ◌++◌}
use socket_programming.Text.{Text, codes}

-- A line, its newline, and another.
abbrev pub two_lines : Text → Text → Text
two_lines first second = first ++ 10 ∷ second

abbrev pub help_map : List (Text × Text)
help_map =
    (
      codes "USER",
      two_lines (codes "Syntax: USER <username>")
          (codes "Send the client's username to initiate an authentication session."),
    )
    ∷ (
      codes "PASS",
      two_lines (codes "Syntax: PASS <password>")
          (codes "Send the client's password to complete authentication."),
    )
    ∷ (
      codes "QUIT",
      two_lines (codes "Syntax: QUIT")
          (codes "Gracefully terminate the control connection and end the session."),
    )
    ∷ (
      codes "NOOP",
      two_lines (codes "Syntax: NOOP")
          (codes "No-operation; used as a keep-alive ping to prevent session timeout."),
    )
    ∷ (
      codes "PWD",
      two_lines (codes "Syntax: PWD") (codes "Print the server's current working directory path."),
    )
    ∷ (
      codes "CWD",
      two_lines (codes "Syntax: CWD <path>")
          (codes "Change the server's current working directory to the specified path."),
    )
    ∷ (
      codes "CDUP",
      two_lines (codes "Syntax: CDUP")
          (codes "Change the server's working directory to its parent directory."),
    )
    ∷ (
      codes "MKD",
      two_lines (codes "Syntax: MKD <dirname>")
          (codes "Create a new directory on the server at the current path."),
    )
    ∷ (
      codes "RMD",
      two_lines (codes "Syntax: RMD <dirname>")
          (codes "Remove an empty directory from the server."),
    )
    ∷ (
      codes "LIST",
      two_lines (codes "Syntax: LIST [path]") (
          codes
            "Return a detailed listing (name, size, type, permissions) of files and directories in the current or specified path."),
    )
    ∷ (
      codes "NLST",
      two_lines (codes "Syntax: NLST [path]")
          (codes "Return a plain name-only listing of files in the current or specified path."),
    )
    ∷ (
      codes "STAT",
      two_lines (codes "Syntax: STAT [path]")
          (codes "Return server status or, if a path is given, file/directory metadata."),
    )
    ∷ (
      codes "SIZE",
      two_lines (codes "Syntax: SIZE <filename>")
          (codes "Return the exact byte size of the specified file on the server."),
    )
    ∷ (
      codes "MDTM",
      two_lines (codes "Syntax: MDTM <filename>") (
          codes
            "Return the last modification timestamp of the specified file (format: YYYYMMDDhhmmss)."),
    )
    ∷ (
      codes "TYPE",
      two_lines (codes "Syntax: TYPE {A | I}")
          (codes "Set the data transfer type: A = ASCII (text), I = Image/Binary."),
    )
    ∷ (
      codes "MODE",
      two_lines (codes "Syntax: MODE {S | B | C}") (
          codes
            "Set the transfer mode. Stream (S) is supported; Block (B) and Compressed (C) return 504."),
    )
    ∷ (
      codes "PORT",
      two_lines (codes "Syntax: PORT <h1,h2,h3,h4,p1,p2>") (
          codes
            "Active Mode: Client specifies its IP and port for the server to open the data connection back to. "),
    )
    ∷ (
      codes "PASV",
      two_lines (codes "Syntax: PASV") (
          codes
            "Passive Mode: Server opens a random port and returns its IP + port for the client to connect to."),
    )
    ∷ (
      codes "RETR",
      two_lines (codes "Syntax: RETR <filename>") (
          codes
            "Retrieve (download) the specified file from the server to the client via the data channel."),
    )
    ∷ (
      codes "STOR",
      two_lines (codes "Syntax: STOR <filename>")
          (codes "Store (upload) a file from the client to the server using the current filename."),
    )
    ∷ (
      codes "STOU",
      two_lines (codes "Syntax: STOU") (
          codes
            "Store a file with a guaranteed unique server-generated filename to prevent overwrites."),
    )
    ∷ (
      codes "APPE",
      two_lines (codes "Syntax: APPE <filename>") (
          codes "Append the uploaded data to an existing file on the server; create it if absent."),
    )
    ∷ (
      codes "DELE",
      two_lines (codes "Syntax: DELE <filename>")
          (codes "Delete the specified file from the server."),
    )
    ∷ (
      codes "RNFR",
      two_lines (codes "Syntax: RNFR <oldname>")
          (codes "Rename From: specify the file to be renamed (must be followed by RNTO)."),
    )
    ∷ (
      codes "RNTO",
      two_lines (codes "Syntax: RNTO <newname>")
          (codes "Rename To: complete the rename operation initiated by RNFR."),
    )
    ∷ (
      codes "HASH",
      two_lines (codes "Syntax: HASH <filename>") (
          codes
            "Request a cryptographic hash (MD5 or SHA-256) of the specified file for post-transfer integrity verification."),
    )
    ∷ (
      codes "ABOR",
      two_lines (codes "Syntax: ABOR")
          (codes "Abort the current data transfer in progress; data channel is reset."),
    )
    ∷ (
      codes "HELP",
      two_lines (codes "Syntax: HELP [command]") (
          codes
            "Return help text for all supported commands, or detailed usage for a specific command."),
    )
    ∷ []
