-- ===== src/Tests/Replies.antt =====
-- The client reads a reply of two lines.
use socket_programming.Base.{◌≡◌, refl, [], ◌∷◌, ◌++◌, some, length, suc}
use socket_programming.Text.{Text, codes}
use socket_programming.Control.Session.{get_lines, stripped, multiline_response}
use socket_programming.Client.Replies.{Reply, read_reply}
use socket_programming.Client.Replies.RoundTrip.{Shown, wires}
use socket_programming.Client.Replies.Whole.{read_reply-multiline_response}
use socket_programming.Tests.ControlData.{log}

abbrev shown_214 : Shown log.to_string 214
shown_214 = record {
  a = 50;
  b = 49;
  c = 52;
  shown = refl;
  digits = refl;
  value = refl;
  positive = refl;
}

abbrev two_lines_sent : Text
two_lines_sent = codes "Syntax: NOOP" ++ 10 ∷ codes "Does nothing." ++ 10 ∷ []

read_reply-multiline_response_example :
    (r : Reply) × ((read_reply log.to_string []
          (multiline_response log 214 two_lines_sent ++ codes "221 ")
        ≡ (some r, codes "221 ", []))
      × ((r.code ≡ 214)
          × (r.lines
              ≡ wires log.to_string 214 shown_214
                  (stripped (get_lines (suc (length two_lines_sent)) two_lines_sent)))))
read_reply-multiline_response_example =
    read_reply-multiline_response log 214 shown_214 two_lines_sent (codes "221 ") []
