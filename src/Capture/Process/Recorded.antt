-- ===== src/Capture/Process/Recorded.antt =====
-- socket_server/capture.py, lines 206 to 257 and 398 to 479: no frame of an undisturbed capture is lost.
use socket_server.Prelude.{
  either, either_by, All-append, All-imp, ℕ, ◌≡◌, refl, ap, ◌∙◌, subst, true, false, not, ◌&&◌,
  ◌||◌, Option, none, some, List, [], ◌∷◌, ◌++◌, if◌then◌else◌, All,
}
use socket_server.Prelude.Bytes.{Bytes, Text, eqb}
use socket_server.Capture.Sort.{little, sort, write_records, sort_pcap, endian_of}
use socket_server.Capture.Sort.Format.{Fits, renumber}
use socket_server.Capture.Sort.File.{records_of}
use socket_server.Capture.Sort.Built.{records_of-built, sort_pcap-built, sorted-Fits}
use socket_server.Capture.Process.{
  TsMode, Kernel, ts_mode_of, AfPacketCapture, global_header, start, Received, break_off, recv_turn,
  recv_loop, drain, wind_up, read_stats, stop_capture, Story, ready, end_process, after_start,
  capture_process_main,
}
use socket_server.Capture.Process.Written.{
  IsRecorded, IsCalm, packets_of, packets_of-append, packets_of-Fits, Writes, Writes-append,
  recv_turn-Writes, recv_loop-Writes, drain-Writes,
}

-- A story in which nothing goes wrong: frames and time-outs until the stop_capture, frames in the queue, an end
-- in time, and a file that can be sorted.
pub record IsCalmStory (m : TsMode) (s : Story) : Type 0 where
  pub early_calm : All (IsCalm m) s.early
  pub received_calm : All (IsCalm m) s.received
  pub last_calm : IsCalm m s.last
  pub queue_frames : All (IsRecorded m) s.queue
  pub in_time : s.joined ≡ true
  pub can_sort : s.sortable ≡ true

-- All that came to the socket, in its order.
abbrev pub all_received : Story → List Received
all_received s = s.early ++ (s.received ++ (s.last ∷ s.queue))

IsRecorded-IsCalm : (m : TsMode) (r : Received) → IsRecorded m r → IsCalm m r
IsRecorded-IsCalm m Received.timed_out h = absurd h
IsRecorded-IsCalm m (Received.failed unavailable) h = h
IsRecorded-IsCalm m (Received.frame bytes ancdata now) h = h

wind_up_calm :
    (last : Received) (queue : List Received) (c : AfPacketCapture)
    → c.running ≡ true
    → (recv_turn last c).exc ≡ false
    → wind_up last queue c ≡ break_off (drain queue (recv_turn last c))
unfolding wind_up
wind_up_calm last queue c on fine =
    let c' = recv_turn last c in
    either_by (λ d. d ≡ break_off (drain queue c')) c.running
      (if c'.exc then break_off c' else break_off (drain queue c')) c
      (λ _.
        either_by (λ d. d ≡ break_off (drain queue c')) c'.exc (break_off c') _ (λ bad. cc)
          (λ _. refl))
      (λ off. cc)

module _ (m : TsMode) (s : Story) (calm : IsCalmStory m s) (c : AfPacketCapture)
    (mode : c.ts_mode ≡ m) (on : c.running ≡ true) (fine : c.exc ≡ false) where
  -- The thread after each stage.
  abbrev first : AfPacketCapture
  first = recv_loop s.early c

  abbrev second : AfPacketCapture
  second = recv_loop s.received first

  abbrev third : AfPacketCapture
  third = recv_turn s.last second

  abbrev fourth : AfPacketCapture
  fourth = drain s.queue third

  early-Writes : Writes (packets_of m s.early) c first
  early-Writes = recv_loop-Writes m s.early c mode on calm.early_calm

  received-Writes : Writes (packets_of m s.received) first second
  received-Writes =
      recv_loop-Writes m s.received first (early-Writes.same_mode ∙ mode)
        (early-Writes.same_running ∙ on) calm.received_calm

  last-Writes : Writes (packets_of m (s.last ∷ [])) second third
  last-Writes =
      recv_turn-Writes m s.last second (received-Writes.same_mode ∙ early-Writes.same_mode ∙ mode)
        calm.last_calm

  queue-Writes : Writes (packets_of m s.queue) third fourth
  queue-Writes =
      drain-Writes m s.queue third
        (last-Writes.same_mode ∙ received-Writes.same_mode ∙ early-Writes.same_mode ∙ mode)
        calm.queue_frames

  all-Writes : Writes (packets_of m (all_received s)) c fourth
  all-Writes =
      rw
        (
          packets_of-append m s.early (s.received ++ (s.last ∷ s.queue)),
          packets_of-append m s.received (s.last ∷ s.queue),
          packets_of-append m (s.last ∷ []) s.queue,
        )
        (Writes-append _ _ c first fourth early-Writes (
          Writes-append _ _ first second fourth received-Writes
            (Writes-append _ _ second third fourth last-Writes queue-Writes)))

  still_on : second.running ≡ true
  still_on = received-Writes.same_running ∙ early-Writes.same_running ∙ on

  still_fine : third.exc ≡ false
  still_fine = last-Writes.same_exc ∙ received-Writes.same_exc ∙ early-Writes.same_exc ∙ fine

  wound_up : wind_up s.last s.queue second ≡ break_off fourth
  wound_up = wind_up_calm s.last s.queue second still_on still_fine

  All-IsCalm : All (IsCalm m) (all_received s)
  All-IsCalm = All-append (IsCalm m) s.early (s.received ++ (s.last ∷ s.queue)) calm.early_calm (
      All-append (IsCalm m) s.received (s.last ∷ s.queue) calm.received_calm (
        calm.last_calm,
        All-imp (IsRecorded m) (IsCalm m) s.queue (IsRecorded-IsCalm m) calm.queue_frames,
      ))

  -- A thread that wrote all this is alive and well when it is asked, so the process goes on to its end.
  after_start_calm :
      after_start s first ≡ end_process s.flushed true (true, read_stats s.drops (break_off fourth))
  unfolding after_start stop_capture
  after_start_calm =
      let going : (first.exc || not first.running) ≡ false =
        rw (early-Writes.same_exc ∙ fine, early-Writes.same_running ∙ on) in
      rw (going, wound_up, calm.in_time, calm.can_sort)

read_stats_written :
    (drops : Option ℕ) (c : AfPacketCapture) → (read_stats drops c).written ≡ c.written
unfolding read_stats
read_stats_written none c = refl
read_stats_written (some n) c = refl

-- The capture that `start` returns.
record IsFresh (k : Kernel) (c : AfPacketCapture) : Type 0 where
  fresh_mode : c.ts_mode ≡ ts_mode_of k
  alive : c.running ≡ true
  well : c.exc ≡ false
  header_only : c.written ≡ global_header

abbrev FreshIf : Kernel → Option AfPacketCapture → Type 0
FreshIf k none = Unit
FreshIf k (some c) = IsFresh k c

start-IsFresh : (extended : Text) (k : Kernel) → FreshIf k (start extended k)
unfolding start
start-IsFresh extended k =
    either (FreshIf k) (not (eqb extended []) && not k.filter_compiles) none _ tt (
      either (FreshIf k) (not k.binds) none _ tt
        (record { fresh_mode = refl; alive = refl; well = refl; header_only = refl }))

-- A capture that starts, whose frames all have a stamp from 1970 to 2106, that meets no error and is
-- stopped in time: the process reports that it is ready and exits with 0, and the file, read again, has
-- exactly one record for each frame that came to the socket until it was empty, with the frame's stamp
-- and its tag put back, sorted by time.
pub capture_process_main-records :
    (extended : Text) (k : Kernel) (s : Story) (c : AfPacketCapture)
    → start extended k ≡ some c
    → IsCalmStory (ts_mode_of k) s
    → ((capture_process_main extended k s).message ≡ ready)
      × ((capture_process_main extended k s).exit_code ≡ 0)
      × ((file : Bytes) × ((capture_process_main extended k s).file ≡ some file)
          × (records_of little file
              ≡ renumber 0 (sort (renumber 0 (packets_of (ts_mode_of k) (all_received s))))))
unfolding capture_process_main end_process endian_of
capture_process_main-records extended k s c started calm =
    let m = ts_mode_of k in
    let new : IsFresh k c = subst (FreshIf k) started (start-IsFresh extended k) in
    let whole = all-Writes m s calm c new.fresh_mode new.alive new.well in
    let ps = packets_of m (all_received s) in
    let fit : All Fits ps =
      packets_of-Fits m (all_received s)
        (All-IsCalm m s calm c new.fresh_mode new.alive new.well) in
    let last = break_off (fourth m s calm c new.fresh_mode new.alive new.well) in
    let file = sort_pcap (read_stats s.drops last).written in
    let written : (read_stats s.drops last).written ≡ global_header ++ write_records little ps =
      read_stats_written s.drops last
      ∙ whole.written_lem
      ∙ ap (λ (b : Bytes). b ++ write_records little ps) new.header_only in
    let sorted : file ≡ global_header ++ write_records little (sort (renumber 0 ps)) =
      ap sort_pcap written ∙ sort_pcap-built little global_header ps refl fit refl in
    let end = after_start_calm m s calm c new.fresh_mode new.alive new.well in
    let main : capture_process_main extended k s ≡ after_start s (recv_loop s.early c) =
      rw (started, capture_process_main) in
    rw (main, end)
      (
        refl,
        refl,
        (
          file,
          refl,
          ap (records_of little) sorted
              ∙ records_of-built little global_header (sort (renumber 0 ps)) refl
                  (sorted-Fits ps fit),
        ),
      )
