-- ===== src/Capture/Process.antt =====
-- socket_server/capture.py, lines 81 to 296 and 339 to 479: the capture of one interface in its own
-- process, from the opening of the socket to the sorted file. What the kernel answers to each call is an
-- input; the writes to the file are taken to go well.
pub mod Written
pub mod Life
pub mod Recorded
use socket_server.Prelude.{
  take, ℕ, ◌+◌, ◌*◌, ◌/◌, ◌%◌, Bool, true, false, not, ◌&&◌, ◌||◌, Option, none, some, List, [],
  ◌∷◌, ◌++◌, ltb, ◌==◌, if◌then◌else◌, length, drop,
}
use socket_server.Prelude.Bytes.{Bytes, Text, eqb, le64, pack_le16, pack_le32}
use socket_server.Prelude.Int.{ℤ, pos, negsuc, eq_ℕ}
use socket_server.Prelude.Int.{to_signed_long, pos_part, neg_part, sub_ℕ}
use socket_server.Frame.{Cmsg, restore_vlan}
use socket_server.Capture.Sort.{sort_pcap}

pub data TsMode : Type 0 where
  hw_ts sw_ts ns_ts userspace : TsMode

-- What the kernel grants when the socket is opened, and whether the filter compiles.
pub record Kernel : Type 0 where
  pub timestamping_hardware : Bool
  pub timestamping_software : Bool
  pub timestampns : Bool
  pub filter_compiles : Bool
  pub binds : Bool

-- The fields of `AFPacketCapture` that change: `written` is the content of the file, `running` says
-- that the receive thread is alive, `exc` that it noted an exception.
pub record AfPacketCapture : Type 0 where
  pub ts_mode : TsMode
  pub hw_degraded_warned : Bool
  pub written : Bytes
  pub pkt_count : ℕ
  pub dropped : ℕ
  pub exc : Bool
  pub running : Bool

-- The degradation of the time stamps in `_open`.
unfoldable pub ts_mode_of : Kernel → TsMode
ts_mode_of k =
    if k.timestamping_hardware
    then hw_ts
    else if k.timestamping_software
    then sw_ts
    else if k.timestampns
    then ns_ts
    else userspace

-- `struct.pack("<IHHIIII", PCAP_MAGIC_NS_LE, 2, 4, 0, 0, 65535, DLT_EN10MB)`
abbrev pub global_header : Bytes
global_header =
    pack_le32 0xA1B23C4D
    ++ (pack_le16 2
        ++ (pack_le16 4 ++ (pack_le32 0 ++ (pack_le32 0 ++ (pack_le32 65535 ++ pack_le32 1)))))

-- `_open`, then the start of the thread; it raises if the filter does not compile or the interface
-- cannot be bound, before the file is opened.
unfoldable pub start : Text → Kernel → Option AfPacketCapture
start extended k =
    if not (eqb extended []) && not k.filter_compiles
    then none
    else if not k.binds
    then none
    else some (record {
      ts_mode = ts_mode_of k;
      hw_degraded_warned = false;
      written = global_header;
      pkt_count = 0;
      dropped = 0;
      exc = false;
      running = true;
    })

-- The first message of a level and a type.
unfoldable pub find_cmsg : ℕ → ℕ → List Cmsg → Option Bytes
find_cmsg level type [] = none
find_cmsg level type (c ∷ cs) =
    if (c.cmsg_level == level) && (c.cmsg_type == type)
    then some c.cmsg_data
    else find_cmsg level type cs

-- A C long of 64 bits.
abbrev long_at : ℕ → Bytes → ℤ
long_at i b = to_signed_long (le64 (drop i b))

-- `sec * 1_000_000_000 + nsec`
pub nanoseconds : ℤ → ℤ → ℤ
nanoseconds sec nsec =
    sub_ℕ (1000000000 * pos_part sec + pos_part nsec) (1000000000 * neg_part sec + neg_part nsec)

abbrev is_set : ℤ → ℤ → Bool
is_set sec nsec = not (eq_ℕ sec 0) || not (eq_ℕ nsec 0)

-- The stamps of one SCM_TIMESTAMPING message: hardware, software, or neither; the second part says
-- that a hardware stamp was missing.
pick_stamp : Bool → Bytes → Option (ℤ × Bool)
pick_stamp hardware stamps =
    if ltb (length stamps) 48
    then none
    else if hardware && is_set (long_at 0 stamps) (long_at 8 stamps)
    then some (nanoseconds (long_at 0 stamps) (long_at 8 stamps), false)
    else if is_set (long_at 16 stamps) (long_at 24 stamps)
    then some (nanoseconds (long_at 16 stamps) (long_at 24 stamps), hardware)
    else none

-- `time.monotonic_ns()` stands in for a stamp that is missing.
or_clock : ℕ → Option (ℤ × Bool) → ℤ × Bool
or_clock now none = (pos now, false)
or_clock now (some stamp) = stamp

pub stamped : Bool → ℕ → Option Bytes → ℤ × Bool
stamped hardware now none = (pos now, false)
stamped hardware now (some stamps) = or_clock now (pick_stamp hardware stamps)

-- `struct.unpack("@ll", cmsg_data)` raises on any length but 16.
pub stamped_ns : ℕ → Option Bytes → Option (ℤ × Bool)
stamped_ns now none = some (pos now, false)
stamped_ns now (some stamp) =
    if length stamp == 16
    then some (nanoseconds (long_at 0 stamp) (long_at 8 stamp), false)
    else none

-- `_decode_ts_ns` at the time `now`; SOL_SOCKET is 1, SCM_TIMESTAMPING 37 and SO_TIMESTAMPNS 35.
unfoldable pub decode_ts_ns : TsMode → List Cmsg → ℕ → Option (ℤ × Bool)
decode_ts_ns hw_ts ancdata now = some (stamped true now (find_cmsg 1 37 ancdata))
decode_ts_ns sw_ts ancdata now = some (stamped false now (find_cmsg 1 37 ancdata))
decode_ts_ns ns_ts ancdata now = stamped_ns now (find_cmsg 1 35 ancdata)
decode_ts_ns userspace ancdata now = some (pos now, false)

-- `_write_packet`: `struct.pack` raises on a time before 1970 or from 2106 on.
pub write_packet : Bytes → ℤ → AfPacketCapture → Option AfPacketCapture
write_packet bytes (negsuc _) c = none
write_packet bytes (pos ts_ns) c =
    if ltb (ts_ns / 1000000000) 4294967296 && ltb (length bytes) 4294967296
    then some (record c {
      written =
          c.written
          ++ (pack_le32 (ts_ns / 1000000000)
              ++ (pack_le32 (ts_ns % 1000000000)
                  ++ (pack_le32 (length bytes) ++ (pack_le32 (length bytes) ++ bytes))));
      pkt_count = c.pkt_count + 1;
    })
    else none

-- One frame: its time, its tag put back, its record written.
pub take_frame : Bytes → List Cmsg → ℕ → AfPacketCapture → Option AfPacketCapture
take_frame bytes ancdata now c = elim (decode_ts_ns c.ts_mode ancdata now) [
  | none ↦ none
  | some stamp ↦
      write_packet (restore_vlan bytes ancdata) stamp.0
        (record c { hw_degraded_warned = c.hw_degraded_warned || stamp.1 })
]

-- What `recvmsg` gives: a frame, with the clock when it is decoded; a time-out; or an error, with
-- whether it is ENETDOWN or ENODEV.
pub data Received : Type 0 where
  frame : Bytes → List Cmsg → ℕ → Received
  timed_out : Received
  failed : Bool → Received

abbrev pub break_off : AfPacketCapture → AfPacketCapture
break_off c = record c { running = false }

-- An exception that leaves the loop is noted.
pub or_raised : AfPacketCapture → Option AfPacketCapture → AfPacketCapture
or_raised c none = record c { exc = true; running = false }
or_raised c (some c') = c'

-- One turn of the loop of `_recv_loop`.
pub recv_turn : Received → AfPacketCapture → AfPacketCapture
recv_turn timed_out c = c
recv_turn (failed unavailable) c = record c { exc = c.exc || unavailable; running = false }
recv_turn (frame [] ancdata now) c = break_off c
recv_turn (frame (b ∷ bs) ancdata now) c = or_raised c (take_frame (b ∷ bs) ancdata now c)

-- The loop over what comes before the stop is seen.
pub recv_loop : List Received → AfPacketCapture → AfPacketCapture
recv_loop [] c = c
recv_loop (r ∷ rs) c = if c.running then recv_loop rs (recv_turn r c) else c

-- The drain after the stop: it ends at a time-out, an error, or an exception, which is dropped.
pub drain : List Received → AfPacketCapture → AfPacketCapture
drain [] c = c
drain (timed_out ∷ rs) c = c
drain (failed unavailable ∷ rs) c = c
drain (frame [] ancdata now ∷ rs) c = c
drain (frame (b ∷ bs) ancdata now ∷ rs) c = elim (take_frame (b ∷ bs) ancdata now c) [
  | none ↦ c
  | some c' ↦ drain rs c'
]

-- How the loop ends once the stop is set: the call under way returns `last`, the queue is drained.
pub wind_up : Received → List Received → AfPacketCapture → AfPacketCapture
wind_up last queue c =
    if c.running
    then (let c' = recv_turn last c in if c'.exc then break_off c' else break_off (drain queue c'))
    else c

-- `tp_drops`, if the kernel gives it.
pub read_stats : Option ℕ → AfPacketCapture → AfPacketCapture
read_stats none c = c
read_stats (some drops) c = record c { dropped = drops }

-- `stop`: a thread that does not end in time leaves the file open.
pub stop_capture : Bool → Option ℕ → AfPacketCapture → Bool × AfPacketCapture
stop_capture joined drops c = if joined then (true, read_stats drops c) else (false, c)

-- The life of a capture: what is received in the half second before it is declared ready, then until
-- the stop is seen, then by the call under way and from the queue; whether the thread ends in time,
-- what the kernel says of drops, how many bytes of the open file have reached the disk if it does not end,
-- and whether the calls on the file that is sorted go well.
pub record Story : Type 0 where
  pub early : List Received
  pub received : List Received
  pub last : Received
  pub queue : List Received
  pub joined : Bool
  pub drops : Option ℕ
  pub flushed : ℕ
  pub sortable : Bool

pub data Message : Type 0 where
  ready : Message
  error : Message

-- What the process sends, the file that it leaves, and its exit code.
pub record Ending : Type 0 where
  pub message : Message
  pub file : Option Bytes
  pub exit_code : ℕ

-- The end of the process, on the capture after `stop`. A file that is neither flushed nor closed may be cut.
pub end_process : ℕ → Bool → Bool × AfPacketCapture → Ending
end_process flushed sortable (false, c) = record {
  message = ready;
  file = some (take flushed c.written);
  exit_code = 1;
}
end_process flushed sortable (true, c) =
    if sortable
    then record { message = ready; file = some (sort_pcap c.written); exit_code = 0 }
    else record { message = ready; file = some c.written; exit_code = 1 }

-- `cap._exc is not None`, or the thread is not alive: the capture is stopped and the error sent.
pub after_start : Story → AfPacketCapture → Ending
after_start s c =
    if c.exc || not c.running
    then record { message = error; file = some c.written; exit_code = 0 }
    else end_process s.flushed s.sortable
        (stop_capture s.joined s.drops (wind_up s.last s.queue (recv_loop s.received c)))

-- `_capture_process_main`; the older file was removed before.
pub capture_process_main : Text → Kernel → Story → Ending
capture_process_main extended k s = elim (start extended k) [
  | none ↦ record { message = error; file = none; exit_code = 0 }
  | some c ↦ after_start s (recv_loop s.early c)
]
