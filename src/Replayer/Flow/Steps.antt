-- ===== src/Replayer/Flow/Steps.antt =====
-- socket_server/replayer.py, lines 229 to 292: the flow table and the answer of `get_direction`.
use socket_server.Prelude.{
  ℕ, ◌+◌, ◌≡◌, refl, inl, inr, Bool, true, false, ◌&&◌, Option, none, some, arith, ◌==◌,
  if◌then◌else◌, Bool-cases, Option-cases,
}
use socket_server.Replayer.Packet.{FiveTuple}
use socket_server.Replayer.Flow.{
  Direction, FlowInfo, FlowTable, Hints, Flows, key_eqb, find_flow, reversed, opposite, given,
  is_syn, by_packet, new_direction, enter_flow, get_direction,
}
use socket_server.Replayer.Flow.Keys.{key_eqb_refl, key_eqb→eq, find-add_flow}

-- The direction that the table has for a key.
abbrev its_direction : Option FlowInfo → Option Direction
its_direction none = none
its_direction (some f) = some f.direction

abbrev pub direction_of : FiveTuple → FlowTable → Option Direction
direction_of k t = its_direction (find_flow k t)

-- Whether the table knows a conversation, in either direction.
pub known : FiveTuple → FlowTable → Bool
known k t = elim (find_flow k t) [
  | some _ ↦ true
  | none ↦ elim (find_flow (reversed k) t) [ some _ ↦ true | none ↦ false ]
]

-- A flow of the same key has no direction before the first of its packets.
missing :
    (key : FiveTuple) (t : FlowTable) (d : Direction) (k : FiveTuple)
    → key_eqb k key ≡ true
    → find_flow key t ≡ none
    → ¬ (direction_of k t ≡ some d)
missing key t d k same new = rw (key_eqb→eq k key same, new) (λ e. cc)

module _ (h : Hints) (key : FiveTuple) (proto flags : ℕ) (ts : ℕ × ℕ) (s : Flows) where
  entered :
      find_flow key s.flow_table ≡ none
      → let d = new_direction h key proto flags s.flow_table in
        let t = (enter_flow d key ts s).flow_table in
        (direction_of key t ≡ some d)
        × ((k : FiveTuple) (d' : Direction)
            → direction_of k s.flow_table ≡ some d'
            → direction_of k t ≡ some d')
  unfolding enter_flow
  entered new =
      let f : FlowInfo = record {
        direction = new_direction h key proto flags s.flow_table;
        first_seen_time = ts;
      } in
      (
        rw (find-add_flow key key f s.flow_table, key_eqb_refl key) refl,
        λ k d' e. elim (Bool-cases (key_eqb k key)) [
          | inl same ↦ absurd (missing key s.flow_table d' k same new e)
          | inr other_key ↦ rw (find-add_flow k key f s.flow_table, other_key) e
        ],
      )

  -- The answer stands in the table afterwards, and every flow that was there has kept its direction:
  -- a direction is decided once.
  pub get_direction_kept :
      let (d, s') = get_direction h key proto flags ts s in
      (direction_of key s'.flow_table ≡ some d)
      × ((k : FiveTuple) (d' : Direction)
          → direction_of k s.flow_table ≡ some d'
          → direction_of k s'.flow_table ≡ some d')
  unfolding get_direction enter_flow
  get_direction_kept = elim (Option-cases (find_flow key s.flow_table)) [
    | inl new ↦ rw (new, get_direction) (entered new)
    | inr (f, there) ↦ rw (there, get_direction) (rw there refl, λ k d' e. e)
  ]

  -- Exactly a conversation that the table knows in neither direction is counted.
  get_direction_counts :
      (get_direction h key proto flags ts s).1.flow_count
      ≡ (if known key s.flow_table then s.flow_count else s.flow_count + 1)
  unfolding get_direction known enter_flow
  get_direction_counts = ground arith

  -- Without a hint for the client, a packet of a new flow that is no SYN goes the opposite way of
  -- a flow in the table whose reverse it is.
  get_direction-opposite :
      (d : Direction)
      → given h.client_ip_hint ≡ none
      → (proto == 6) && is_syn flags ≡ false
      → find_flow key s.flow_table ≡ none
      → direction_of (reversed key) s.flow_table ≡ some d
      → (get_direction h key proto flags ts s).0 ≡ opposite d
  unfolding get_direction new_direction by_packet
  get_direction-opposite d no_hint no_syn new rev = ground arith
