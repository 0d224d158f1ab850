-- ===== src/Examples/Boards.antt =====
-- Three tasks of the ARM64 port, and a timer interrupt.
use jericho_os.Base.{true, ℕ, ◌≡◌, ◌≢◌, refl, Option, none, some, List, [], ◌∷◌, arith}
use jericho_os.Arm64.Context.{TaskContext, ExceptionFrame, init, restore, save}
use jericho_os.Arm64.Context
use jericho_os.Arm64.Scheduler.{Scheduler, new, spawn, schedule, search, update, running}
use jericho_os.Arm64.Switch.{
  Interrupts, Resumed, switch_to_next, set_state, interrupt, frame_address, scheduler_switch_task,
}
use jericho_os.Arm64.Search.{IsValid, IsNearest, schedule-IsNearest}
use jericho_os.Arm64.Resume.{context_at}
use jericho_os.Arm64.Away.{here, later, Away-restores}
use jericho_os.Arm64.Choice.{SwitchEnds, switch_to_next-SwitchEnds}
use jericho_os.Arm64.Reach.{boot, spawns, starts_first, History, History-IsSound}
use jericho_os.Arm64.Sound.{IsSound}

abbrev stacks : List ℕ
stacks = 0 ∷ 16384 ∷ 32768 ∷ 49152 ∷ 65536 ∷ 81920 ∷ 98304 ∷ 114688 ∷ []

abbrev two_spawned : Scheduler
two_spawned = (spawn (spawn (new stacks) 4096).0 8192).0

abbrev board : Scheduler
board = record two_spawned { tasks = update 0 (set_state running) two_spawned.tasks }

board_History : History board
unfolding spawn new
board_History = starts_first (spawns 8192 (spawns 4096 (boot stacks refl))) refl

History-IsSound_example : IsSound board
History-IsSound_example = History-IsSound board_History

board-IsValid : IsValid board
board-IsValid = History-IsSound_example.valid

two_tasks : board.num_tasks ≡ 2
unfolding spawn new
two_tasks = refl

schedule-IsNearest_example :
    (k : ℕ) × (schedule board ≡ some (record board { current_task = k }))
    × IsNearest board board.current_task k
schedule-IsNearest_example = schedule-IsNearest board board-IsValid (omega (arith, two_tasks))

switch_to_next-SwitchEnds_example : SwitchEnds board (switch_to_next board)
switch_to_next-SwitchEnds_example = switch_to_next-SwitchEnds board board-IsValid

-- The interrupted registers of a task that has used 64 bytes of its stack.
abbrev frame : ExceptionFrame
frame = record (restore Context.new) {
  x0 = 1;
  x19 = 2;
  sp_el0 = 16320;
  elr_el1 = 4100;
  spsr_el1 = 5;
}

-- What a switch gave, or the frame at the scheduler as it was.
abbrev given : Scheduler → Option Resumed → Resumed
given s none = record { scheduler = s; address = 0; frame = frame }
given s (some r) = r

abbrev at_second : Resumed
at_second = given board (scheduler_switch_task board frame)

abbrev at_first : Resumed
at_first = given board (scheduler_switch_task at_second.scheduler (restore Context.new))

switches_to_second : scheduler_switch_task board frame ≡ some at_second
unfolding scheduler_switch_task interrupt schedule search spawn new update
switches_to_second = refl

switches_to_first : scheduler_switch_task at_second.scheduler (restore Context.new) ≡ some at_first
unfolding scheduler_switch_task interrupt schedule search spawn new update
switches_to_first = refl

runs_second : at_second.scheduler.current_task ≡ 1
unfolding scheduler_switch_task interrupt schedule search spawn new update
runs_second = refl

runs_first : at_first.scheduler.current_task ≡ board.current_task
unfolding scheduler_switch_task interrupt schedule search spawn new update
runs_first = refl

second-first : at_second.scheduler.current_task ≢ board.current_task
unfolding spawn new
second-first e = absurd (omega (arith, runs_second, e))

first_context : context_at board board.current_task ≡ some (init 4096 16384)
unfolding context_at spawn new update set_state
first_context = refl

Away-restores_example :
    (at_first.frame ≡ record frame { sp_el0 = (init 4096 16384).sp })
    × (at_first.address ≡ frame_address (init 4096 16384).sp)
Away-restores_example =
    Away-restores board frame (init 4096 16384) at_second at_first board-IsValid
      (omega (arith, two_tasks)) first_context switches_to_second
      (later (restore Context.new) here second-first switches_to_first) runs_first

abbrev before_tenth : Interrupts
before_tenth = record {
  timer_ticks = 9;
  scheduler_enabled = true;
  switch_counter = 0;
  scheduler = board;
}

abbrev after_tenth : Interrupts
after_tenth = record {
  timer_ticks = 10;
  scheduler_enabled = true;
  switch_counter = 1;
  scheduler = at_second.scheduler;
}
