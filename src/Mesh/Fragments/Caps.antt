-- ===== src/Mesh/Fragments/Caps.antt =====
-- `handle_fragment` keeps the byte count exact, and the caps.
use bit_chat_pi.Prelude.{
  Bool-cases, List, Option-cases, [], ap, arith, inl, inr, leb, length, ltb, none, not, ℕ, ◌+◌, ◌-◌,
  ◌<◌, ◌==◌, ◌||◌, ◌≡◌, list_eq, nat_eq, pair_eq,
}
use bit_chat_pi.Text.{Text}
use bit_chat_pi.Dict.{find_or, get}
use bit_chat_pi.Dict.Keys.{IsDict, get-set_self, set-IsDict}
use bit_chat_pi.Dict.Laws.{length-set}
use bit_chat_pi.Dict.News.{remove-set_new}
use bit_chat_pi.Dict.Sums.{AllValues-get, AllValues-remove, AllValues-set, sum-set_new}
use bit_chat_pi.Protocol.Constants.{max_active_fragment_sets, max_fragments_per_id}
use bit_chat_pi.Mesh.Fragments.Payload.{FragmentPayload, decode_fragment_payload}
use bit_chat_pi.Mesh.Fragments.Manager.{
  Event, FragmentSet, Fragments, Manager, RescueKey, content_of, merge, remove_set, rescue_ttl_ms,
  total_bytes,
}
use bit_chat_pi.Mesh.Fragments.Merge.{merge-nil}
use bit_chat_pi.Mesh.Fragments.Receive.{
  Outside, handle_decoded, handle_fragment, inherited, open_set, store_at,
}
use bit_chat_pi.Mesh.Fragments.Bounds.{IsCounted, IsCountedSet, remove_set-IsBounded}
use bit_chat_pi.Mesh.Fragments.Accounting.{IsReady, IsValid, remove_set-IsValid, store-IsValid}
use bit_chat_pi.Text.Hex.{hex}
use bit_chat_pi.Protocol.Packet.{Packet}

store_at-IsValid :
    (o : Outside) (key : Text) (f : FragmentPayload) (s : FragmentSet) (m : Manager)
    (events : List Event)
    → IsReady key s m
    → IsValid (store_at o key f m events).manager
unfolding store_at
store_at-IsValid o key f s m events r = rw (r.here, store_at) (store-IsValid o key f s m events r)

inherited-IsDict :
    (now_ms : ℕ) (key : RescueKey) (m : Manager) → IsCounted m → IsDict (inherited now_ms key m)
unfolding inherited
inherited-IsDict now_ms key m c = elim (Option-cases (get key m.rescue)) [
  | inl e ↦ rw (e, inherited) tt
  | inr (d, e) ↦ elim (Bool-cases (ltb (now_ms - find_or key 0 m.rescue_ts) rescue_ttl_ms)) [
    | inl recent ↦
        rw (e, inherited, recent) (AllValues-get (λ x. IsDict x) key m.rescue d c.rescue e)
    | inr old ↦ rw (e, inherited, old) tt
  ]
]

module _ (o : Outside) (key sender_hex : Text) (f : FragmentPayload) (m : Manager) where
  abbrev old : Fragments
  old = inherited o.start_ms (sender_hex, (f.total, f.original_type)) m

  abbrev attempt : ℕ
  attempt = find_or (sender_hex, (f.total, f.original_type)) 0 m.attempt_count + 1

  abbrev pub opened : FragmentSet
  opened = record {
    original_type = f.original_type;
    total = f.total;
    timestamp_ms = o.start_ms;
    sender_hex = sender_hex;
    frag_id = key;
    attempt = attempt;
    last_fragment_ms = o.start_ms;
    fragments = merge [] old;
    cumulative_bytes = total_bytes old;
    content_id = content_of o.hash old;
  }

  open_set-IsReady :
      IsValid m
      → length m.sets < max_active_fragment_sets
      → get key m.sets ≡ none
      → IsReady key opened (open_set o key sender_hex f m).0
  unfolding open_set remove_set
  open_set-IsReady v room fresh =
      let d = inherited-IsDict o.start_ms (sender_hex, (f.total, f.original_type)) m v.counts in
      let there = get-set_self key opened m.sets in
      record {
        counts = record {
          distinct = set-IsDict key opened m.sets v.counts.distinct;
          sets =
              AllValues-set IsCountedSet key opened m.sets
                (record { counted = rw (merge-nil old d); distinct = rw (merge-nil old d) d })
                (AllValues-remove IsCountedSet key m.sets v.counts.sets);
          counted = omega (
            arith,
            v.counts.counted,
            sum-set_new (λ t. t.cumulative_bytes) key m.sets opened fresh,
          );
          rescue = v.counts.rescue;
        };
        here = there;
        others =
            rw (there, remove_set)
              (record {
                sets = rw (remove-set_new key opened m.sets fresh) v.bounds.sets;
                total = omega (arith, v.bounds.total);
                number = omega (arith, ap length (remove-set_new key opened m.sets fresh), room);
              });
        number = ground (arith, length-set key opened m.sets, fresh);
      }

handle_decoded-IsValid :
    (o : Outside) (sender_hex : Text) (f : FragmentPayload) (m : Manager)
    → IsValid m
    → IsValid (handle_decoded o sender_hex f m).manager
unfolding handle_decoded
handle_decoded-IsValid o sender_hex f m v =
    let key = hex f.frag_id in
    elim (Option-cases (get key m.sets)) [
      | inr (s, e) ↦
          let r : IsReady key s m = record {
            counts = v.counts;
            here = e;
            others = remove_set-IsBounded key m v.bounds;
            number = v.bounds.number;
          } in
          elim (Bool-cases (not (s.total == f.total) || not (s.original_type == f.original_type))) [
            | inl other ↦ rw (e, other, handle_decoded) (remove_set-IsValid key m v)
            | inr same ↦ rw (e, same, handle_decoded) (store_at-IsValid o key f s m [] r)
          ]
      | inl e ↦ elim (Bool-cases (leb max_active_fragment_sets (length m.sets))) [
        | inl full ↦ rw (e, full, handle_decoded) v
        | inr room ↦
            let (m', events) = open_set o key sender_hex f m in
            rw (e, room, handle_decoded)
              (store_at-IsValid o key f (opened o key sender_hex f m) m' events
                (open_set-IsReady o key sender_hex f m v (ground arith) e))
      ]
    ]

-- Whatever arrives, the manager's byte count stays exact, and it holds at most 64 sets of at most
-- 1 MiB each and 4 MiB in all.
pub handle_fragment-IsValid :
    (o : Outside) (p : Packet) (m : Manager) → IsValid m → IsValid (handle_fragment o p m).manager
unfolding handle_fragment
handle_fragment-IsValid o p m v = elim (Option-cases (decode_fragment_payload p.payload)) [
  | inl e ↦ rw (e, handle_fragment) v
  | inr (f, e) ↦ elim (Bool-cases (ltb max_fragments_per_id f.total || length f.chunk == 0)) [
    | inl bad ↦ rw (e, bad, handle_fragment) v
    | inr good ↦ rw (e, good, handle_fragment) (handle_decoded-IsValid o (hex p.sender_id) f m v)
  ]
]
