-- ===== src/Isotp/Examples.antt =====
-- The theorems about ISO-TP at a bus with frames of 8 bytes, and tests.
use thingsetplusplus.Prelude.{
  ℕ, ◌+◌, ◌≡◌, refl, inl, inr, Bool, true, false, List, [], ◌∷◌, ◌++◌, none, some, ltb,
  if◌then◌else◌, arith,
}
use thingsetplusplus.Bytes.{Bytes}
use thingsetplusplus.Isotp.{
  wait_fc, timeout_bs, CanFrame, queued, again, Driver, buffer_overflow, Config, RecvCtx, SendCtx,
  wait_cf, send_ff, send_work, World, freed,
}
use thingsetplusplus.Isotp.Receive.{new_recv_ctx, fc_frame}
use thingsetplusplus.Isotp.Send.{send_state_machine, send_can_tx_callback, send_can_rx}
use thingsetplusplus.Isotp.Segments.{Begins, Documented, AreSegments}
use thingsetplusplus.Isotp.Send.Progress.{
  SendEvent, work_runs, flow_control, frame_completes, timer_expires, send_step, send_steps, Good,
}
use thingsetplusplus.Isotp.Send.Answered.{exchange-finishes}
use thingsetplusplus.Isotp.Send.Rounds.{exchange, ClearToSend}
use thingsetplusplus.Isotp.Calls.{isotp_fast_unbind}
use thingsetplusplus.Isotp.Bound.{Bound, find, fc_done}
use thingsetplusplus.Isotp.Bound.Arrival.{arrive, arrive_each, having}
use thingsetplusplus.Isotp.Bound.Balance.{Balanced, BalancedAfter}
use thingsetplusplus.Isotp.Bound.Delivered.{OnlyDelivers, arrive_each-delivers}
use thingsetplusplus.Isotp.Bound.Errors.{
  GivesUp, error_of, arrive-wrong, overflow-outstanding, refused-faults,
}
use thingsetplusplus.Isotp.Bound.Events.{on_events-Balanced}
use thingsetplusplus.Isotp.Bound.Handlers.{
  BusEvent, application_sends, frame_arrives, send_timer_expires, work_runs, frame_completes,
  on_event, on_events,
}
use thingsetplusplus.Isotp.Bound.Outstanding.{timeout-outstanding}
use thingsetplusplus.Isotp.Bound.Unbind.{Unbound, isotp_fast_unbind_lem}
use thingsetplusplus.Isotp.Carried.{Ready, send_steps-whole, carried}

-- The driver's state counts the frames that it was given.
abbrev bus : Driver ℕ
bus = record {
  max_dlen = 8;
  ff_dl_min = 8;
  bytes_to_dlc = λ n. n;
  dlc_to_bytes = λ dlc. if ltb dlc 8 then dlc else 8;
  can_send = λ frame n. (queued, n + 1);
  garbage = 0xAA ∷ [];
  meanwhile = λ d. [];
}

-- A driver whose queue is full.
abbrev full_bus : Driver ℕ
full_bus = record {
  max_dlen = 8;
  ff_dl_min = 8;
  bytes_to_dlc = λ n. n;
  dlc_to_bytes = λ dlc. if ltb dlc 8 then dlc else 8;
  can_send = λ frame n. (again, n);
  garbage = [];
  meanwhile = λ d. [];
}

bus-Documented : Documented bus
bus-Documented = record {
  some_room = omega arith;
  is_byte = omega arith;
  covers = λ n h. ground arith;
  bounded = λ dlc. ground arith;
  largest = refl;
}

abbrev config : Config
config = record {
  fd_mode = false;
  max_packet_count = 40;
  wft_max = 10;
  cr_timeout = 1000;
  bs_timeout = 1000;
  alloc_timeout = 900;
  bs = 8;
  stmin = 0;
  fdf = false;
  sa_mask = 0xFF;
  ta_mask = 0xFF00;
  prio_mask = 0x1C000000;
}

abbrev message : Bytes
message = 1 ∷ 2 ∷ 3 ∷ 4 ∷ 5 ∷ 6 ∷ 7 ∷ 8 ∷ 9 ∷ 10 ∷ []

abbrev sender : ℕ
sender = 0x18DA0201

abbrev idle_world : World ℕ
idle_world = record {
  free_recv = 4;
  free_send = 4;
  free_bufs = 40;
  queue = [];
  driver = 0;
  frames = [];
  delivered = [];
  failed = [];
  finished = [];
}

abbrev bound : Bound ℕ
bound = record {
  receiving = [];
  sending = [];
  recv_orphans = [];
  send_orphans = [];
  filter = true;
  world = idle_world;
}

abbrev first_frame : CanFrame
first_frame = record {
  id = sender;
  fdf = false;
  dlc = 8;
  bytes = 16 ∷ 10 ∷ 1 ∷ 2 ∷ 3 ∷ 4 ∷ 5 ∷ 6 ∷ 0xAA ∷ [];
}

abbrev second_frame : CanFrame
second_frame = record { id = sender; fdf = false; dlc = 5; bytes = 33 ∷ 7 ∷ 8 ∷ 9 ∷ 10 ∷ 0xAA ∷ [] }

abbrev cts : CanFrame
cts = record { id = 0x18DA0102; fdf = false; dlc = 3; bytes = 48 ∷ 8 ∷ 0 ∷ [] }

message-AreSegments : AreSegments bus sender message (first_frame ∷ second_frame ∷ [])
message-AreSegments = (
  refl,
  record { coded = refl; high = refl; low = refl; holds = refl },
  (refl, omega arith, record { marked = refl; room = omega arith; holds = refl }, refl),
)

arrive_each-delivers_example :
    (b' : Bound ℕ) × (arrive_each bus config 1 (first_frame ∷ second_frame ∷ []) bound ≡ some b')
    × OnlyDelivers sender message bound b'
unfolding find
arrive_each-delivers_example =
    arrive_each-delivers bus config bus-Documented (λ frame n. refl) 0 bound
      (first_frame ∷ second_frame ∷ []) message message-AreSegments refl refl refl (omega arith)
      (omega arith) (omega arith) (omega arith) (omega arith) (inl (omega arith))

abbrev context : SendCtx
context = record {
  tx_addr = sender;
  timer = none;
  sem = 0;
  source = message;
  rem_len = 10;
  state = send_ff;
  error = none;
  wft = 0;
  bs = 8;
  sn = 0;
  backlog = 0;
  stmin = 0;
  pending_cb = 0;
}

context-Ready :
    Ready bus config bus-Documented
      (λ frame n. refl)
      message
      (omega arith)
      (omega arith)
      sender
      context
context-Ready = record { address = refl; state = refl; source = refl; rem_len = refl }

abbrev course : List SendEvent
course =
    work_runs
    ∷ frame_completes false
    ∷ flow_control cts
    ∷ work_runs
    ∷ frame_completes false
    ∷ work_runs
    ∷ []

abbrev world_after : World ℕ
world_after = record {
  free_recv = 4;
  free_send = 5;
  free_bufs = 40;
  queue = send_work sender ∷ [];
  driver = 2;
  frames = first_frame ∷ second_frame ∷ [];
  delivered = [];
  failed = [];
  finished = (sender, none) ∷ [];
}

course-ends : send_steps bus config 4096 course context idle_world ≡ freed world_after
unfolding send_steps send_step send_state_machine send_can_tx_callback send_can_rx
course-ends = refl

carried_example :
    (frames : List CanFrame) × (b' : Bound ℕ) × (world_after.frames ≡ idle_world.frames ++ frames)
    × (arrive_each bus config 1 frames bound ≡ some b')
    × OnlyDelivers sender message bound b'
unfolding find
carried_example =
    carried bus config bus-Documented (λ frame n. refl) message (omega arith) (omega arith) 4096 0
      course context idle_world world_after config bound (omega arith) context-Ready course-ends
      refl refl refl refl (omega arith) (omega arith) (omega arith) (inl (omega arith))

send_steps-whole_example :
    Good bus config bus-Documented
      (λ frame n. refl)
      sender
      message
      (omega arith)
      (omega arith)
      []
      []
      (send_steps bus config 4096 (timer_expires ∷ course) context idle_world)
send_steps-whole_example =
    send_steps-whole bus config bus-Documented (λ frame n. refl) message (omega arith) (omega arith)
      4096 (timer_expires ∷ course) context idle_world (omega arith) context-Ready

cts-ClearToSend : ClearToSend cts
cts-ClearToSend = record { kind = refl; status = refl; at_once = refl }

exchange-finishes_example :
    (w' : World ℕ) × (exchange bus config 4096 cts 11 context idle_world ≡ freed w')
    × (w'.finished ≡ (sender, none) ∷ [])
exchange-finishes_example =
    exchange-finishes bus config bus-Documented (λ frame n. refl) 4096 cts cts-ClearToSend message
      11 context idle_world (omega arith) (omega arith) (omega arith) (omega arith) refl refl refl

bound-Balanced : Balanced 4 4 40 bound
bound-Balanced = record { recv_slab = refl; send_slab = refl; pool = refl }

abbrev events : List BusEvent
events =
    frame_arrives first_frame
    ∷ BusEvent.work_runs
    ∷ application_sends message 0x18DA0102
    ∷ frame_arrives cts
    ∷ frame_arrives second_frame
    ∷ []

on_events-Balanced_example : BalancedAfter 4 4 40 (on_events bus config 4096 events bound)
on_events-Balanced_example = on_events-Balanced bus config 4096 4 4 40 events bound bound-Balanced

-- A context in the middle of a message.
abbrev receiver : RecvCtx
receiver = record {
  rx_addr = sender;
  timer = some 1000;
  buffer = [];
  frag = 1 ∷ 2 ∷ 3 ∷ 4 ∷ 5 ∷ 6 ∷ [];
  rem_len = 4;
  state = wait_cf;
  error = none;
  wft = 255;
  bs = 8;
  sn_expected = 1;
  pending_cb = 1;
}

abbrev late_frame : CanFrame
late_frame = record { id = sender; fdf = false; dlc = 5; bytes = 35 ∷ 7 ∷ 8 ∷ 9 ∷ 10 ∷ [] }

arrive-wrong_example :
    (w' : World ℕ) × (arrive bus config 1 late_frame (having bound [] receiver idle_world)
      ≡ some (record bound { receiving = []; world = w' }))
    × GivesUp sender (error_of bus config 0 late_frame) 1 idle_world w'
unfolding find
arrive-wrong_example =
    arrive-wrong bus config 0 bound [] receiver idle_world late_frame refl refl refl refl
      (omega arith) (omega arith) refl (inr (omega arith))

-- A receiver without blocks, and without buffers for more than a first frame.
abbrev small : Config
small = record config { bs = 0; max_packet_count = 0 }

overflow-outstanding_example :
    (b' : Bound ℕ) × (arrive bus small 2 first_frame bound ≡ some b')
    × (b'.world.frames ≡ fc_frame bus small 2 (new_recv_ctx sender) ∷ [])
    × (b'.world.failed ≡ (sender, some buffer_overflow) ∷ [])
    × (b'.world.delivered ≡ [])
    × (b'.receiving ≡ [])
    × (b'.world.free_recv ≡ 4)
    × (b'.world.free_bufs ≡ 40)
    × ((error : Bool) → fc_done bus small error sender b' ≡ none)
unfolding find
overflow-outstanding_example =
    overflow-outstanding bus small bus-Documented message (omega arith) (omega arith) first_frame
      message-AreSegments.1 bound refl refl refl (omega arith) (omega arith) 0 refl (omega arith)
      refl

full_bus-Documented : Documented full_bus
full_bus-Documented = record {
  some_room = omega arith;
  is_byte = omega arith;
  covers = λ n h. ground arith;
  bounded = λ dlc. ground arith;
  largest = refl;
}

first_frame-Begins : Begins full_bus message first_frame
first_frame-Begins = record { coded = refl; high = refl; low = refl; holds = refl }

refused-faults_example : arrive full_bus config 2 first_frame bound ≡ none
unfolding find
refused-faults_example =
    refused-faults full_bus config full_bus-Documented message (omega arith) (omega arith)
      first_frame first_frame-Begins bound refl refl refl (omega arith) (omega arith) 0
      (inl (omega arith)) (λ e. cc)

-- A message whose first frame is queued.
abbrev begun_message : SendCtx
begun_message = record context { state = wait_fc; pending_cb = 1 }

timeout-outstanding_example :
    (b' : Bound ℕ) × (on_events bus config 2
        (send_timer_expires begun_message.tx_addr ∷ work_runs ∷ [])
        (record bound { sending = begun_message ∷ []; world = idle_world })
      ≡ some b')
    × (b'.sending ≡ [])
    × (b'.world.free_send ≡ 5)
    × (b'.world.finished ≡ (begun_message.tx_addr, some timeout_bs) ∷ [])
    × ((error : Bool)
        → on_event bus config 2 (frame_completes error begun_message.tx_addr) b' ≡ none)
unfolding find
timeout-outstanding_example =
    timeout-outstanding bus config 2 bound [] begun_message idle_world refl refl refl (omega arith)

abbrev in_use : Bound ℕ
in_use = record bound { receiving = receiver ∷ []; sending = context ∷ [] }

isotp_fast_unbind_lem_example : Unbound in_use (isotp_fast_unbind in_use)
isotp_fast_unbind_lem_example = isotp_fast_unbind_lem in_use
