-- ===== src/Capture/Process/Life.antt =====
-- socket_server/capture.py, lines 368 to 479: the file that a capture process leaves, whatever the
-- kernel delivers and whichever step fails.
use socket_server.Prelude.{ℕ, ◌≡◌, ◌⊎◌, Option, none, some, List, ◌++◌, take, All}
use socket_server.Prelude.Bytes.{Bytes}
use socket_server.Capture.Sort.{Packet, little, write_records}
use socket_server.Capture.Sort.Order.{IsSorted}
use socket_server.Capture.Sort.Format.{Fits}
use socket_server.Capture.Process.{AfPacketCapture, global_header, ready, error, Ending}

-- A capture file: the global header, and records whose numbers fit.
pub record IsPcap (file : Bytes) : Type 0 where
  pub records : List Packet
  pub content : file ≡ global_header ++ write_records little records
  pub fits : All Fits records

abbrev HoldsPcap : AfPacketCapture → Type 0
HoldsPcap c = IsPcap c.written

-- What a step that may raise leaves.
abbrev OnSome : Option AfPacketCapture → Type 0
OnSome none = Unit
OnSome (some c) = HoldsPcap c

-- What a process leaves: no file and an error; a capture file in the order of arrival, with an error
-- or the exit code 1; the front part of one, with the exit code 1; or a sorted capture file with the exit
-- code 0.
pub data Leaves (o : Ending) : Type 0 where
  no_file : o.message ≡ error → o.file ≡ none → Leaves o
  unsorted_file :
      (file : Bytes)
      → o.file ≡ some file
      → IsPcap file
      → (o.message ≡ error) ⊎ (o.exit_code ≡ 1)
      → Leaves o
  cut_file :
      (whole : Bytes) (n : ℕ)
      → o.file ≡ some (take n whole)
      → IsPcap whole
      → o.message ≡ ready
      → o.exit_code ≡ 1
      → Leaves o
  sorted_file :
      (file : Bytes)
      → o.file ≡ some file
      → (p : IsPcap file) → IsSorted p.records
      → o.message ≡ ready
      → o.exit_code ≡ 0
      → Leaves o
