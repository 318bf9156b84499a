-- ===== src/Replayer/Build/Run.antt =====
-- A run of `rewrite_v4`: a UDP packet gets other addresses and another source port.
use socket_server.Prelude.{◌≡◌, refl, none, some, [], ◌∷◌, length}
use socket_server.Prelude.Bytes.{Bytes, codes}
use socket_server.Frame.{checksum, fold_carries, sum_words}
use socket_server.Replayer.Build.{
  Addresses, Target, write_address, write_port, write_ports, write_checksum, pack_h, pseudo_v4,
  transport_checksum, header_v4, transport_v4, rewrite_v4,
}

-- Every address is parsed as 10.0.0.n, n the length of the text.
abbrev pub by_length : Addresses
by_length = record { aton = λ s. some (10 ∷ 0 ∷ 0 ∷ length s ∷ []); pton = λ s. none }

abbrev pub udp_target : Target
udp_target = record {
  modified_ip_src = some (codes "a");
  modified_ip_dst = some (codes "bb");
  modified_sport = some 1000;
  modified_dport = none;
}

abbrev pub udp_rest : Bytes
udp_rest =
    0 ∷ 0 ∷ 28 ∷ 0 ∷ 1 ∷ 0 ∷ 0 ∷ 64 ∷ 17 ∷ 9 ∷ 9 ∷ 1 ∷ 1 ∷ 1 ∷ 1 ∷ 2 ∷ 2 ∷ 2 ∷ 2 ∷ 0 ∷ 80 ∷ 0 ∷ 90
    ∷ 0 ∷ 8 ∷ 7 ∷ 7 ∷ []

abbrev pub udp_new : Bytes
udp_new =
    69 ∷ 0 ∷ 0 ∷ 28 ∷ 0 ∷ 1 ∷ 0 ∷ 0 ∷ 64 ∷ 17 ∷ 102 ∷ 206 ∷ 10 ∷ 0 ∷ 0 ∷ 1 ∷ 10 ∷ 0 ∷ 0 ∷ 2 ∷ 3
    ∷ 232 ∷ 0 ∷ 90 ∷ 0 ∷ 8 ∷ 231 ∷ 153 ∷ []

pub rewrite_v4_run : rewrite_v4 by_length udp_target (69 ∷ udp_rest) ≡ some udp_new
unfolding rewrite_v4 header_v4 transport_v4 write_address write_port write_ports write_checksum
    pack_h pseudo_v4 transport_checksum checksum fold_carries sum_words
rewrite_v4_run = refl
