-- ===== src/Mesh/Fragments/Receive.antt =====
-- `FragmentManager.handle_fragment`.
use bit_chat_pi.Prelude.{
  Bool, List, Option, [], if◌then◌else◌, leb, length, ltb, none, not, some, suc, zero, ℕ, ◌&&◌,
  ◌++◌, ◌+◌, ◌-◌, ◌==◌, ◌=?◌, ◌>>=◌, ◌||◌, ◌∷◌, list_eq, nat_eq, pair_eq,
}
use bit_chat_pi.Bytes.{Bytes}
use bit_chat_pi.Text.{Text}
use bit_chat_pi.Text.Hex.{hex}
use bit_chat_pi.Zlib.{Zlib}
use bit_chat_pi.Dict.Select.{keys_where}
use bit_chat_pi.Dict.{Dict, find_or, get, has, remove, set}
use bit_chat_pi.Protocol.Packet.{Packet, with_ttl}
use bit_chat_pi.Protocol.Codec.Decode.{decode}
use bit_chat_pi.Protocol.Constants.{
  max_active_fragment_sets, max_fragment_total_bytes, max_fragments_per_id,
  max_global_fragment_bytes,
}
use bit_chat_pi.Mesh.Fragments.Payload.{FragmentPayload, decode_fragment_payload}
use bit_chat_pi.Mesh.Fragments.Manager.{
  Event, FragmentSet, Fragments, Manager, RescueKey, completed, content_of, merge, remove_set,
  remove_sets, rescue_key, rescue_saved, rescue_ttl_ms, set_started, total_bytes,
}

-- What a call answers: `raised` is the KeyError of the join over a missing index.
pub data Answer : Type 0 where
  nothing : Answer
  reassembled : Packet → Answer
  raised : Answer

pub record Result : Type 0 where
  pub manager : Manager
  pub answer : Answer
  pub events : List Event

-- What a call finds outside: the clock at its two reads, and the functions it calls.
pub record Outside : Type 0 where
  pub zlib : Zlib
  pub hash : Bytes → Text
  pub start_ms : ℕ
  pub now_ms : ℕ

-- The fragments that a new set takes over from the rescue cache.
unfoldable pub inherited : ℕ → RescueKey → Manager → Fragments
inherited now_ms key m = elim (get key m.rescue) [
  | none ↦ []
  | some d ↦ if ltb (now_ms - find_or key 0 m.rescue_ts) rescue_ttl_ms then d else []
]

abbrev pub started_events : FragmentSet → Fragments → List Event
started_events s [] = []
started_events s (x ∷ d) = set_started s (length (x ∷ d)) ∷ []

-- A new set, with its number of attempt and what it inherits; the event is for the end of the call.
unfoldable pub open_set : Outside → Text → Text → FragmentPayload → Manager → Manager × List Event
unfolding inherited
open_set o key sender_hex f m =
    let transfer : RescueKey = (sender_hex, (f.total, f.original_type)) in
    let old = inherited o.start_ms transfer m in
    let attempt = find_or transfer 0 m.attempt_count + 1 in
    let s : FragmentSet = record {
      original_type = f.original_type;
      total = f.total;
      timestamp_ms = o.start_ms;
      sender_hex = sender_hex;
      frag_id = key;
      attempt = attempt;
      last_fragment_ms = o.start_ms;
      fragments = merge [] old;
      cumulative_bytes = total_bytes old;
      content_id = content_of o.hash old;
    } in
    (
      record m {
        sets = set key s m.sets;
        global_bytes = m.global_bytes + total_bytes old;
        attempt_count = set transfer attempt m.attempt_count;
      },
      started_events s old,
    )

-- `b"".join(s.fragments[i] for i in range(total))`, from `i` on; `none` is the KeyError.
unfoldable pub join_from : ℕ → ℕ → Fragments → Option Bytes
join_from i zero d = some []
join_from i (suc n) d = do xs ← get i d; rest ← join_from (i + 1) n d; some (xs ++ rest)

-- The sets of the same transfer that are left.
abbrev pub same_transfer : FragmentSet → FragmentSet → Bool
same_transfer s t =
    t.sender_hex =? s.sender_hex && t.total == s.total && t.original_type == s.original_type

abbrev pub stale_sets : FragmentSet → Dict Text FragmentSet → List Text
stale_sets s = keys_where (same_transfer s)

-- The set `s` is complete: it goes, with the sets and the rescued fragments of its transfer.
unfoldable pub clear_transfer : Text → FragmentSet → Manager → Manager
clear_transfer key s m =
    let m1 = remove_set key m in
    let m2 = remove_sets (stale_sets s m1.sets) m1 in
    if has (rescue_key s) m2.rescue
    then record m2 {
      rescue = remove (rescue_key s) m2.rescue;
      rescue_ts = remove (rescue_key s) m2.rescue_ts;
    }
    else m2

abbrev pub saved_events : FragmentSet → Manager → List Event
saved_events s m =
    if has (rescue_key s) m.rescue && m.has_rescue_path then rescue_saved ∷ [] else []

unfoldable pub completion_events : FragmentSet → Manager → Answer → List Event
completion_events s m nothing = saved_events s m
completion_events s m raised = saved_events s m
completion_events s m (reassembled p) =
    saved_events s m ++ (if ltb 1 s.attempt then completed s ∷ [] else [])

unfoldable pub decoded : Zlib → Bytes → Answer
decoded z xs = elim (decode z xs) [ none ↦ nothing | some p ↦ reassembled (with_ttl p 0) ]

-- The check for completeness. The exception leaves the call at once, before its events.
unfoldable pub complete : Outside → Text → FragmentSet → Manager → List Event → Result
complete o key s m events =
    if not (length s.fragments == s.total)
    then record { manager = m; answer = nothing; events = events }
    else elim (join_from 0 s.total s.fragments) [
      | none ↦ record { manager = m; answer = raised; events = [] }
      | some xs ↦
          let answer = decoded o.zlib xs in
          record {
            manager = clear_transfer key s m;
            answer = answer;
            events = events ++ completion_events s m answer;
          }
    ]

-- The set with the fragment stored.
unfoldable pub stored : Outside → FragmentPayload → FragmentSet → FragmentSet
stored o f s = record s {
  fragments = set f.index f.chunk s.fragments;
  cumulative_bytes = s.cumulative_bytes + length f.chunk - length (find_or f.index [] s.fragments);
  last_fragment_ms = o.now_ms;
  content_id = if f.index == 0 && s.content_id =? [] then o.hash f.chunk else s.content_id;
}

-- The caps, and the fragment in its set. The differences of the source, which add before they
-- subtract here, do not get negative: a set counts the bytes it holds.
unfoldable pub store :
    Outside → Text → FragmentPayload → FragmentSet → Manager → List Event → Result
unfolding stored complete
store o key f s m events =
    let old_size = length (find_or f.index [] s.fragments) in
    if ltb (max_fragment_total_bytes) (s.cumulative_bytes + length f.chunk - old_size)
    then record { manager = remove_set key m; answer = nothing; events = [] }
    else if ltb (max_global_fragment_bytes + old_size) (m.global_bytes + length f.chunk)
    then record { manager = remove_set key m; answer = nothing; events = [] }
    else complete o key (stored o f s)
        (record m {
          sets = set key (stored o f s) m.sets;
          global_bytes = m.global_bytes + length f.chunk - old_size;
        })
        events

-- `store` in the set that `key` names now.
unfoldable pub store_at : Outside → Text → FragmentPayload → Manager → List Event → Result
unfolding store
store_at o key f m events = elim (get key m.sets) [
  | none ↦ record { manager = m; answer = nothing; events = [] }
  | some s ↦ store o key f s m events
]

unfoldable pub handle_decoded : Outside → Text → FragmentPayload → Manager → Result
unfolding open_set store_at
handle_decoded o sender_hex f m =
    let key = hex f.frag_id in
    elim (get key m.sets) [
      | some s ↦
          if not (s.total == f.total) || not (s.original_type == f.original_type)
          then record { manager = remove_set key m; answer = nothing; events = [] }
          else store_at o key f m []
      | none ↦
          if leb max_active_fragment_sets (length m.sets)
          then record { manager = m; answer = nothing; events = [] }
          else let (m', events) = open_set o key sender_hex f m in store_at o key f m' events
    ]

unfoldable pub handle_fragment : Outside → Packet → Manager → Result
unfolding handle_decoded
handle_fragment o p m = elim (decode_fragment_payload p.payload) [
  | none ↦ record { manager = m; answer = nothing; events = [] }
  | some f ↦
      if ltb max_fragments_per_id f.total || length f.chunk == 0
      then record { manager = m; answer = nothing; events = [] }
      else handle_decoded o (hex p.sender_id) f m
]
