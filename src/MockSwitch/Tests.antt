-- ===== src/MockSwitch/Tests.antt =====
-- The theorems on the stand-in for a switch at concrete values.
use door_switch_svr.Prelude.{◌≡◌, List, [], ◌∷◌, false, not, ◌&&◌}
use door_switch_svr.Prelude.Int.{pos}
use door_switch_svr.Poco.{ok}
use door_switch_svr.MockSwitch.{Poll, timed_out, readable, new_connection, ok_reply, run}
use door_switch_svr.MockSwitch.Replies.{mock_answers}

abbrev two_reads : List Poll
two_reads =
    readable (ok (pos 10)) (ok tt)
    ∷ timed_out
    ∷ readable (ok (pos 20)) (ok tt)
    ∷ readable (ok (pos 0)) (ok tt)
    ∷ []

mock_answers_example :
    let c = run two_reads new_connection in
    (c.sent ≡ ok_reply ∷ ok_reply ∷ []) × (c.is_open && not c.left ≡ false)
mock_answers_example = mock_answers two_reads
