-- ===== src/Tests/Started.antt =====
-- Runs of the capture process and of the choice of a processor.
use socket_server.Prelude.{◌≡◌, refl, true, false, none, some, [], ◌∷◌, arith, ltb}
use socket_server.Prelude.Bytes.{Bytes, codes, eqb}
use socket_server.Capture.Sort.{little, sort}
use socket_server.Capture.Sort.Format.{renumber}
use socket_server.Capture.Sort.File.{records_of}
use socket_server.Capture.Process.{
  TsMode, ts_mode_of, Kernel, AfPacketCapture, global_header, start, decode_ts_ns, frame, timed_out,
  failed, Story, ready, capture_process_main,
}
use socket_server.Capture.Process.Written.{packets_of}
use socket_server.Capture.Process.Recorded.{IsCalmStory, all_received, capture_process_main-records}
use socket_server.Capture.Cpu.{Bindings, Processors, Interface}

-- A kernel without time stamps.
abbrev plain_kernel : Kernel
plain_kernel = record {
  timestamping_hardware = false;
  timestamping_software = false;
  timestampns = false;
  filter_compiles = false;
  binds = true;
}

-- Two frames, one of them still in the queue at the stop.
abbrev two_frames : Story
two_frames = record {
  early = timed_out ∷ [];
  received = frame (1 ∷ 2 ∷ []) [] 5000000000 ∷ timed_out ∷ [];
  last = timed_out;
  queue = frame (3 ∷ []) [] 2000000007 ∷ [];
  joined = true;
  drops = some 0;
  flushed = 24;
  sortable = true;
}

-- The interface goes down before the capture is ready.
abbrev went_down : Story
went_down = record two_frames { early = failed true ∷ [] }

abbrev begun : AfPacketCapture
begun = record {
  ts_mode = TsMode.userspace;
  hw_degraded_warned = false;
  written = global_header;
  pkt_count = 0;
  dropped = 0;
  exc = false;
  running = true;
}

plain_kernel-start : start [] plain_kernel ≡ some begun
unfolding start ts_mode_of eqb
plain_kernel-start = refl

two_frames-IsCalmStory : IsCalmStory (ts_mode_of plain_kernel) two_frames
unfolding ts_mode_of decode_ts_ns
two_frames-IsCalmStory = record {
  early_calm = (tt, tt);
  received_calm = (
    record {
      ts_ns = 5000000000;
      degraded = false;
      decoded = refl;
      early_enough = omega arith;
      short = omega arith;
    },
    (tt, tt),
  );
  last_calm = tt;
  queue_frames = (
    record {
      ts_ns = 2000000007;
      degraded = false;
      decoded = refl;
      early_enough = omega arith;
      short = omega arith;
    },
    tt,
  );
  in_time = refl;
  can_sort = refl;
}

capture_process_main-records_example :
    ((capture_process_main [] plain_kernel two_frames).message ≡ ready)
    × ((capture_process_main [] plain_kernel two_frames).exit_code ≡ 0)
    × ((file : Bytes) × ((capture_process_main [] plain_kernel two_frames).file ≡ some file)
        × (records_of little file
            ≡ renumber 0 (
                sort
                  (renumber 0 (packets_of (ts_mode_of plain_kernel) (all_received two_frames))))))
capture_process_main-records_example =
    capture_process_main-records [] plain_kernel two_frames begun plain_kernel-start
      two_frames-IsCalmStory

-- Of four processors the second is allocated and the third is at work.
abbrev four_cpus : Processors
four_cpus = record {
  cpu_count = some 4;
  stat =
      some (record { cpu_id = 2; user = 999; nice = 0; system = 0; idle = 1; more = 0 ∷ [] })
      ∷ none
      ∷ [];
  irq_exists = λ irq. ltb irq 40;
  affinity = λ irq. none;
  rps_writable = λ eth. true;
  rfs_writable = λ eth. false;
  rps_off = λ eth. false;
  rfs_off = λ eth. false;
}

abbrev one_bound : Bindings
one_bound = record { nic_cpu_binding = (codes "eth0", 1) ∷ []; allocated_cpus = 1 ∷ [] }

abbrev eth1 : Interface
eth1 = record { is_there = true; msi_irqs = 33 ∷ 31 ∷ 50 ∷ []; named_irqs = []; proc_irqs = [] }
