-- ===== src/Controller/Tests.antt =====
-- The theorems on the commands and on the watch of a controller at concrete values.
use door_switch_svr.Prelude.{
  All, map, ℕ, ◌≤◌, ◌<◌, ◌≡◌, refl, ◌⊎◌, List, [], ◌∷◌, true, false, none, arith,
}
use door_switch_svr.Prelude.Int.{pos, i16}
use door_switch_svr.Controller.Command.{make_open_command, make_close_command}
use door_switch_svr.Controller.Frame.{Reads, commands_drive_relay, commands_past_board}
use door_switch_svr.Controller.Watchdog.{never}
use door_switch_svr.Controller.{Controller, WriteResult}
use door_switch_svr.Controller.Watching.{
  writes, replies, checks, watch_refines, spec_step, one_reply_ends_watch, spec_run, deadline_of,
  unanswered_raises, IsRearmed, watch-IsRearmed,
}
use door_switch_svr.Controller.Watching
use door_switch_svr.Controller.Run.{new_worker}

commands_drive_relay_example :
    Reads (make_open_command (pos 8)) 128 128 × Reads (make_close_command (pos 8)) 0 128
commands_drive_relay_example = commands_drive_relay 8 (omega arith) (omega arith)

commands_past_board_example :
    ((16 < 32768)
      × (make_open_command (i16 (pos 16)) ≡ none)
      × (make_close_command (i16 (pos 16)) ≡ none))
    ⊎ ((32768 ≤ 16)
        × Reads (make_open_command (i16 (pos 16))) 0 0
        × Reads (make_close_command (i16 (pos 16))) 0 0)
commands_past_board_example = commands_past_board 16 (omega arith) (omega arith)

abbrev ready : Controller
ready = record {
  channel = 3;
  has_callback = true;
  watch = record { deadline = never; calls = [] };
  worker = new_worker;
}

abbrev written : WriteResult
written = record { error = false; len = 10 }

abbrev frame : List ℕ
frame = 1 ∷ 2 ∷ []

abbrev some_events : List Watching.Event
some_events =
    writes frame written 5
    ∷ checks 20
    ∷ replies false 3
    ∷ writes frame written 40
    ∷ checks 30000040
    ∷ []

watch_refines_example :
    ((Watching.run some_events ready).0.watch.deadline ≡ deadline_of (spec_run some_events []).0)
    × ((Watching.run some_events ready).1 ≡ (spec_run some_events []).1)
watch_refines_example = watch_refines some_events ready [] (tt, (tt, (refl, (tt, (tt, tt))))) refl

one_reply_ends_watch_example :
    let es = writes frame written 5 ∷ writes frame written 7 ∷ replies false 3 ∷ [] in
    ((spec_run es []).0 ≡ 7 ∷ [])
    × ((spec_step (checks 30000007) (spec_run es []).0).1 ≡ true)
    × ((Watching.run es ready).0.watch.deadline ≡ never)
    × All
        (λ b. b ≡ false)
        (Watching.run (map checks (30000007 ∷ 40000000 ∷ [])) (Watching.run es ready).0).1
one_reply_ends_watch_example =
    one_reply_ends_watch frame frame written written 5 7 2 (30000007 ∷ 40000000 ∷ []) 30000007 ready
      refl refl refl (omega arith)
