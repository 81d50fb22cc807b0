-- ===== src/ReplyCode.antt =====
-- shared/protocol/ReplyCodes.h
use socket_programming.Base.{ℕ}

abbrev pub file_status_okay : ℕ
file_status_okay = 150

abbrev pub command_okay : ℕ
command_okay = 200

abbrev pub system_status : ℕ
system_status = 211

abbrev pub file_status : ℕ
file_status = 213

abbrev pub help_message : ℕ
help_message = 214

abbrev pub service_ready : ℕ
service_ready = 220

abbrev pub goodbye : ℕ
goodbye = 221

abbrev pub transfer_complete : ℕ
transfer_complete = 226

abbrev pub enter_pasv_mode : ℕ
enter_pasv_mode = 227

abbrev pub logged_in : ℕ
logged_in = 230

abbrev pub action_completed : ℕ
action_completed = 250

abbrev pub pathname_created : ℕ
pathname_created = 257

abbrev pub auth_need_pass : ℕ
auth_need_pass = 331

abbrev pub pending_rnto : ℕ
pending_rnto = 350

abbrev pub cant_open_data_connection : ℕ
cant_open_data_connection = 425

abbrev pub transfer_aborted : ℕ
transfer_aborted = 426

abbrev pub syntax_error : ℕ
syntax_error = 500

abbrev pub bad_sequence : ℕ
bad_sequence = 503

abbrev pub command_not_implemented_for_parameter : ℕ
command_not_implemented_for_parameter = 504

abbrev pub not_logged_in : ℕ
not_logged_in = 530

abbrev pub action_not_taken : ℕ
action_not_taken = 550

abbrev pub filename_not_allowed : ℕ
filename_not_allowed = 553
