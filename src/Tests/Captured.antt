-- ===== src/Tests/Captured.antt =====
-- Runs of the capture registry, of the sort of capture files and of the tags of captured frames.
use socket_server.Prelude.{
  ℕ, ◌+◌, ◌-◌, ◌≡◌, refl, false, none, some, [], ◌∷◌, ◌++◌, arith, ltb, replicate, All,
}
use socket_server.Prelude.Bytes.{Bytes, Text, codes, IsByte, eqb, pack_le32}
use socket_server.Prelude.Int.{pos}
use socket_server.Prelude.Dict.{lookup}
use socket_server.Capture.Registry.{
  ready, Processes, Captures, choose_iface, tcpdump_start, tcpdump_stop,
}
use socket_server.Capture.Registry.Calls.{
  StartLeaves, StopLeaves, tcpdump_start-StartLeaves, tcpdump_stop-StopLeaves,
}
use socket_server.Capture.Sort.{Packet, little, endian_of, sort, sort_pcap}
use socket_server.Capture.Sort.Order.{IsSorted, sort-Sorts}
use socket_server.Capture.Sort.Format.{renumber}
use socket_server.Capture.Sort.File.{records_of, records_of-sort_pcap}
use mathlib.Core.List.{Perm}

-- Processes whose world is the number of those that run; each stops when it is told to.
abbrev obedient : Processes ℕ
obedient = record {
  default_iface = λ w. some (codes "eth0");
  remove_file = λ path w. w;
  spawn = λ eth path w. (some w, w + 1);
  await_ready = λ proc w. (ready, w);
  is_alive = λ proc w. ltb 0 w;
  stop_join = λ proc w. w - 1;
  terminate_join = λ proc w. 0;
  exitcode = λ proc w. some (pos 0);
}

abbrev one_capture : Captures ℕ
one_capture = record { captures = (codes "a.pcap", 0) ∷ []; world = 1 }

tcpdump_start-StartLeaves_example :
    let started = tcpdump_start obedient none (codes "b.pcap") one_capture in
    StartLeaves obedient (codes "b.pcap") started
    × ((other : Text)
        → eqb other (codes "b.pcap") ≡ false
        → lookup other started.1.captures ≡ lookup other one_capture.captures)
unfolding choose_iface eqb
tcpdump_start-StartLeaves_example =
    tcpdump_start-StartLeaves obedient none (codes "b.pcap") (codes "eth0") one_capture refl

tcpdump_stop-StopLeaves_example :
    StopLeaves obedient
      (codes "a.pcap")
      (codes "b.pcap")
      one_capture
      (tcpdump_stop obedient (codes "a.pcap") one_capture)
tcpdump_stop-StopLeaves_example =
    tcpdump_stop-StopLeaves obedient (codes "a.pcap") (codes "b.pcap") one_capture

-- Two records, the later one first, in a nanosecond file.
abbrev early : Packet
early = record { ts_sec = 1; ts_frac = 5; idx = 1; captured = 9 ∷ [] }

abbrev late : Packet
late = record { ts_sec = 2; ts_frac = 0; idx = 0; captured = [] }

abbrev pcap_file : Bytes
pcap_file =
    pack_le32 0xA1B23C4D
    ++ (replicate 20 0
        ++ (pack_le32 2
            ++ (replicate 12 0
                ++ (pack_le32 1 ++ (pack_le32 5 ++ (pack_le32 1 ++ (pack_le32 1 ++ (9 ∷ []))))))))

sort-Sorts_example :
    IsSorted (sort (late ∷ early ∷ [])) × Perm (sort (late ∷ early ∷ [])) (late ∷ early ∷ [])
sort-Sorts_example = sort-Sorts (late ∷ early ∷ [])

pcap_file-AreBytes : All IsByte pcap_file
pcap_file-AreBytes = ground arith

records_of-sort_pcap_example :
    records_of little (sort_pcap pcap_file) ≡ renumber 0 (sort (records_of little pcap_file))
unfolding endian_of
records_of-sort_pcap_example =
    records_of-sort_pcap little pcap_file pcap_file-AreBytes (omega arith) refl
