-- ===== src/Mesh/Fragments/Stamps.antt =====
-- `handle_fragment` keeps the rescued transfers and their times together.
use bit_chat_pi.Prelude.{
  Bool-cases, List, Option-cases, [], inl, inr, leb, length, ltb, not, ℕ, ◌+◌, ◌-◌, ◌==◌, ◌||◌, ◌∷◌,
  list_eq, nat_eq, pair_eq,
}
use bit_chat_pi.Text.{Text}
use bit_chat_pi.Text.Hex.{hex}
use bit_chat_pi.Dict.{Dict, find_or, get, has, keys, remove}
use bit_chat_pi.Dict.Keys.{remove-IsDict}
use bit_chat_pi.Protocol.Packet.{Packet}
use bit_chat_pi.Protocol.Constants.{
  max_active_fragment_sets, max_fragment_total_bytes, max_fragments_per_id,
  max_global_fragment_bytes,
}
use bit_chat_pi.Mesh.Fragments.Payload.{FragmentPayload, decode_fragment_payload}
use bit_chat_pi.Mesh.Fragments.Manager.{
  Event, FragmentSet, Manager, RescueKey, remove_set, remove_sets, rescue_key,
}
use bit_chat_pi.Mesh.Fragments.Receive.{
  Outside, clear_transfer, complete, handle_decoded, handle_fragment, join_from, open_set,
  stale_sets, store, store_at, stored,
}
use bit_chat_pi.Mesh.Fragments.Cleanup.Evicted.{Fresh-remove_both, IsStamped}

-- What else the manager holds does not matter.
IsStamped-with :
    (m : Manager) (sets : Dict Text FragmentSet) (bytes : ℕ) (attempts : Dict RescueKey ℕ)
    → IsStamped m
    → IsStamped (record m { sets = sets; global_bytes = bytes; attempt_count = attempts })
IsStamped-with m sets bytes attempts h = record {
  stamped = h.stamped;
  times = h.times;
  transfers = h.transfers;
}

remove_set-IsStamped : (key : Text) (m : Manager) → IsStamped m → IsStamped (remove_set key m)
unfolding remove_set
remove_set-IsStamped key m h = elim (Option-cases (get key m.sets)) [
  | inl e ↦ rw (e, remove_set) h
  | inr (s, e) ↦
      rw (e, remove_set)
        (IsStamped-with m (remove key m.sets) (m.global_bytes - s.cumulative_bytes) m.attempt_count
          h)
]

remove_sets-IsStamped :
    (keys : List Text) (m : Manager) → IsStamped m → IsStamped (remove_sets keys m)
remove_sets-IsStamped [] m h = h
remove_sets-IsStamped (key ∷ keys) m h =
    remove_sets-IsStamped keys (remove_set key m) (remove_set-IsStamped key m h)

clear_transfer-IsStamped :
    (key : Text) (s : FragmentSet) (m : Manager) → IsStamped m → IsStamped (clear_transfer key s m)
unfolding clear_transfer
clear_transfer-IsStamped key s m h =
    let m1 = remove_set key m in
    let m2 = remove_sets (stale_sets s m1.sets) m1 in
    let h2 = remove_sets-IsStamped (stale_sets s m1.sets) m1 (remove_set-IsStamped key m h) in
    elim (Bool-cases (has (rescue_key s) m2.rescue)) [
      | inr gone ↦ rw (gone, clear_transfer) h2
      | inl there ↦
          rw (there, clear_transfer)
            (record {
              stamped = λ j.
                  Fresh-remove_both (rescue_key s) j m2.rescue m2.rescue_ts h2.transfers
                    (h2.stamped j);
              times = remove-IsDict (rescue_key s) m2.rescue_ts h2.times;
              transfers = remove-IsDict (rescue_key s) m2.rescue h2.transfers;
            })
    ]

complete-IsStamped :
    (o : Outside) (key : Text) (s : FragmentSet) (m : Manager) (events : List Event)
    → IsStamped m
    → IsStamped (complete o key s m events).manager
unfolding complete
complete-IsStamped o key s m events h = elim (Bool-cases (not (length s.fragments == s.total))) [
  | inl partly ↦ rw (partly, complete) h
  | inr full ↦ elim (Option-cases (join_from 0 s.total s.fragments)) [
    | inl e ↦ rw (full, e, complete) h
    | inr (xs, e) ↦ rw (full, e, complete) (clear_transfer-IsStamped key s m h)
  ]
]

store-IsStamped :
    (o : Outside) (key : Text) (f : FragmentPayload) (s : FragmentSet) (m : Manager)
    (events : List Event)
    → IsStamped m
    → IsStamped (store o key f s m events).manager
unfolding store
store-IsStamped o key f s m events h =
    let old_size = length (find_or f.index [] s.fragments) in
    let removed = remove_set-IsStamped key m h in
    elim (Bool-cases
      (ltb max_fragment_total_bytes (s.cumulative_bytes + length f.chunk - old_size))) [
        | inl large ↦ rw (large, store) removed
        | inr small ↦
            elim (Bool-cases
              (ltb (max_global_fragment_bytes + old_size) (m.global_bytes + length f.chunk))) [
                | inl large ↦ rw (small, large, store) removed
                | inr room ↦
                    rw (small, room, store)
                      (complete-IsStamped o key (stored o f s) _ events
                        (IsStamped-with m _ _ m.attempt_count h))
              ]
      ]

store_at-IsStamped :
    (o : Outside) (key : Text) (f : FragmentPayload) (m : Manager) (events : List Event)
    → IsStamped m
    → IsStamped (store_at o key f m events).manager
unfolding store_at
store_at-IsStamped o key f m events h = elim (Option-cases (get key m.sets)) [
  | inl e ↦ rw (e, store_at) h
  | inr (s, e) ↦ rw (e, store_at) (store-IsStamped o key f s m events h)
]

handle_decoded-IsStamped :
    (o : Outside) (sender_hex : Text) (f : FragmentPayload) (m : Manager)
    → IsStamped m
    → IsStamped (handle_decoded o sender_hex f m).manager
unfolding handle_decoded open_set
handle_decoded-IsStamped o sender_hex f m h =
    let key = hex f.frag_id in
    elim (Option-cases (get key m.sets)) [
      | inr (s, e) ↦
          elim (Bool-cases (not (s.total == f.total) || not (s.original_type == f.original_type))) [
            | inl other ↦ rw (e, other, handle_decoded) (remove_set-IsStamped key m h)
            | inr same ↦ rw (e, same, handle_decoded) (store_at-IsStamped o key f m [] h)
          ]
      | inl e ↦ elim (Bool-cases (leb max_active_fragment_sets (length m.sets))) [
        | inl full ↦ rw (e, full, handle_decoded) h
        | inr room ↦
            let (m', events) = open_set o key sender_hex f m in
            rw (e, room, handle_decoded)
              (store_at-IsStamped o key f m' events (IsStamped-with m _ _ _ h))
      ]
    ]

-- Whatever arrives, every rescued transfer keeps its time, and all keys stay distinct.
pub handle_fragment-IsStamped :
    (o : Outside) (p : Packet) (m : Manager)
    → IsStamped m
    → IsStamped (handle_fragment o p m).manager
unfolding handle_fragment
handle_fragment-IsStamped o p m h = elim (Option-cases (decode_fragment_payload p.payload)) [
  | inl e ↦ rw (e, handle_fragment) h
  | inr (f, e) ↦ elim (Bool-cases (ltb max_fragments_per_id f.total || length f.chunk == 0)) [
    | inl bad ↦ rw (e, bad, handle_fragment) h
    | inr good ↦ rw (e, good, handle_fragment) (handle_decoded-IsStamped o (hex p.sender_id) f m h)
  ]
]
