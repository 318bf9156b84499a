-- ===== src/Tests/Conversations.antt =====
-- Runs of socket_server/pcap_flow.py.
use socket_server.Prelude.{true, [], ◌∷◌, ◌++◌, drop, replicate, All}
use socket_server.Prelude.Bytes.{Bytes, codes, pack_le32}
use socket_server.Replayer.Packet.{Inet}
use socket_server.PcapFlow.{tcp, Flows, flows_of, read_records}
use socket_server.PcapFlow.Clients.{NamesClient, flows_of-NamesClient}
use socket_server.PcapFlow.Locked.{Keeps, read_records-Keeps}

abbrev plain_inet : Inet
plain_inet = record { ntoa = λ b. b; ntop = λ b. b }

-- A SYN from 1.1.1.1 to 2.2.2.2, and its answer, in one file.
abbrev syn : Bytes
syn =
    replicate 12 0
    ++ (8 ∷ 0 ∷ 69 ∷ replicate 8 0
        ++ (6 ∷ 0 ∷ 0 ∷ replicate 4 1
            ++ (replicate 4 2 ++ (0 ∷ 9 ∷ 0 ∷ 80 ∷ replicate 9 0 ++ (2 ∷ [])))))

abbrev capture : Bytes
capture = replicate 24 0 ++ (replicate 8 0 ++ (pack_le32 48 ++ (pack_le32 48 ++ syn)))

flows_of-NamesClient_example : All (NamesClient (codes "a.pcap")) (flows_of plain_inet capture)
flows_of-NamesClient_example = flows_of-NamesClient plain_inet (codes "a.pcap") capture

abbrev decided : Flows
decided =
    (
      ((codes "1", codes "9"), ((codes "2", codes "80"), tcp)),
      record {
        first_src = (codes "1", codes "9");
        first_dst = (codes "2", codes "80");
        client = (codes "2", codes "80");
        finalized = true;
        proto_type = tcp;
      },
    )
    ∷ []

read_records-Keeps_example : Keeps decided (read_records plain_inet 100 (drop 24 capture) decided)
read_records-Keeps_example = read_records-Keeps plain_inet 100 (drop 24 capture) decided
