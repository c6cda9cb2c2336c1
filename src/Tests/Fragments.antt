-- ===== src/Tests/Fragments.antt =====
-- A packet of 822 bytes through the fragment manager.
use bit_chat_pi.Prelude.{
  All, Bool-cases, List, Option, [], arith, drop, inl, inr, length, list_beq, none, refl, replicate,
  some, take, true, ℕ, ◌++◌, ◌=?◌, ◌∷◌, ◌≡◌, ◌≤◌, list_eq, nat_eq, pair_eq,
}
use bit_chat_pi.Bytes.{Bytes, pack, to_be}
use bit_chat_pi.Tests.Zlibs.{storing, storing-ZlibLaws}
use bit_chat_pi.Tests.Codecs.{ident}
use bit_chat_pi.Protocol.Packet.{Packet, new_packet, with_ttl}
use bit_chat_pi.Protocol.Padding.{pad, unpad}
use bit_chat_pi.Protocol.Padding.Laws.{unpad-pad}
use bit_chat_pi.Protocol.Codec.Encode.{
  compresses, encode, encode_flags, encode_header, encode_payload, encode_raw, encode_route,
  pad_peer_id,
}
use bit_chat_pi.Protocol.Codec.RoundTrip.{IsSendable, received, sent_bytes}
use bit_chat_pi.Mesh.Fragments.Payload.{
  FragmentPayload, decode-encode_fragment_payload, decode_fragment_payload, encode_fragment_payload,
}
use bit_chat_pi.Mesh.Fragments.Split.{
  chunks_from, create_fragments, fragment_packet, fragments_from, max_data, overhead,
}
use bit_chat_pi.Mesh.Fragments.Fit.{create_fragments_fit}
use bit_chat_pi.Mesh.Fragments.Stamps.{handle_fragment-IsStamped}
use bit_chat_pi.Mesh.Fragments.Cut.{IsSplit}
use bit_chat_pi.Mesh.Fragments.RoundTrip.{handle_fragment-create_fragments}
use bit_chat_pi.Dict.{get}
use bit_chat_pi.Mesh.Fragments.Manager.{
  Event, FragmentSet, Manager, rescue_max_bytes, rescue_max_entries,
}
use bit_chat_pi.Mesh.Fragments.Receive.{Outside, handle_fragment, nothing, reassembled}
use bit_chat_pi.Mesh.Fragments.Accounting.{IsValid}
use bit_chat_pi.Mesh.Fragments.Caps.{handle_fragment-IsValid}
use bit_chat_pi.Mesh.Fragments.Cleanup.{cleanup_old, evict_rescue_if_needed, rescue_bytes_total}
use bit_chat_pi.Mesh.Fragments.Cleanup.Evicted.{IsStamped, evict_rescue_if_needed-ends}
use bit_chat_pi.Mesh.Fragments.Cleanup.Expired.{active_sets, cleanup_old-active}
use bit_chat_pi.Mesh.Fragments.Deliver.{Delivery, answers, deliver}

abbrev large : Packet
large = record (new_packet 0x01 (ident 9) (replicate 800 65)) { timestamp = 5 }

large-IsSendable : IsSendable 0 large
large-IsSendable = record {
  version = inl refl;
  type_byte = omega arith;
  ttl_byte = omega arith;
  stamp = omega arith;
  sender = refl;
  recipient = tt;
  route = tt;
  signature = tt;
  size = omega arith;
}

large-IsSplit : IsSplit storing 0 large
unfolding max_data overhead chunks_from to_be pad_peer_id encode_route encode_flags compresses
large-IsSplit = record {
  sendable = large-IsSendable;
  whole = (unpad-pad (sent_bytes storing 0 large) (inr (inr (inl (omega arith, omega arith))))).0;
  long = omega arith;
  room = omega arith;
  few = omega arith;
}

abbrev raw : Bytes
raw = sent_bytes storing 0 large

abbrev number : ℕ → Bytes → Packet
number i c = fragment_packet large (ident 4 ++ (0 ∷ i ∷ 0 ∷ 2 ∷ 1 ∷ c))

abbrev both : List Packet
both = number 0 (take 461 raw) ∷ number 1 (drop 461 raw) ∷ []

create-large : create_fragments storing 0 (ident 4) large ≡ some both
unfolding create_fragments fragments_from max_data overhead chunks_from to_be pad_peer_id
    encode_route encode_flags compresses encode_fragment_payload pack encode encode_raw
    encode_payload encode_header pad unpad list_beq
create-large = refl

abbrev pub empty_manager : Manager
empty_manager = record {
  sets = [];
  global_bytes = 0;
  rescue = [];
  rescue_ts = [];
  attempt_count = [];
  has_rescue_path = true;
}

abbrev pub outside : Outside
outside = record { zlib = storing; hash = λ xs. []; start_ms = 100; now_ms = 101 }

abbrev nth_delivery : ℕ → Bytes → Delivery
nth_delivery i c = record { outside = outside; packet = number i c; index = i }

handle_fragment-create_fragments_example :
    All (λ a. a ≡ nothing) (answers empty_manager (nth_delivery 1 (drop 461 raw) ∷ []))
    × ((handle_fragment outside
          (number 0 (take 461 raw))
          (deliver empty_manager (nth_delivery 1 (drop 461 raw) ∷ []))).answer
        ≡ reassembled (with_ttl (received storing 0 large) 0))
handle_fragment-create_fragments_example =
    handle_fragment-create_fragments storing 0 large (ident 4) both large-IsSplit refl create-large
      empty_manager (nth_delivery 1 (drop 461 raw) ∷ []) (nth_delivery 0 (take 461 raw))
      storing-ZlibLaws
      (record {
        fresh = unfold get in refl;
        number = omega arith;
        unrescued = unfold get in refl;
        bytes = omega arith;
      })
      (record { zlib = refl; packet = refl }, (record { zlib = refl; packet = refl }, tt)) refl
      (λ j below. ground arith)

abbrev piece : FragmentPayload
piece = record {
  frag_id = ident 4;
  index = 300;
  total = 301;
  original_type = 2;
  chunk = 7 ∷ 8 ∷ [];
}

decode-encode_fragment_payload_example :
    (xs : Bytes) × (encode_fragment_payload piece ≡ some xs)
    × (decode_fragment_payload xs ≡ some piece)
decode-encode_fragment_payload_example = decode-encode_fragment_payload piece (record {
  frag_id = refl;
  index = omega arith;
  total = omega arith;
  original_type = omega arith;
})

pub empty_manager-IsValid : IsValid empty_manager
empty_manager-IsValid = record {
  counts = record { distinct = tt; sets = tt; counted = refl; rescue = tt };
  bounds = record { sets = tt; total = omega arith; number = omega arith };
}

handle_fragment-IsValid_example :
    IsValid (handle_fragment outside (number 1 (drop 461 raw)) empty_manager).manager
handle_fragment-IsValid_example =
    handle_fragment-IsValid outside (number 1 (drop 461 raw)) empty_manager empty_manager-IsValid

abbrev half_done : ℕ → ℕ → FragmentSet
half_done last index = record {
  original_type = 2;
  total = 2;
  timestamp_ms = 0;
  sender_hex = 97 ∷ [];
  frag_id = last ∷ [];
  attempt = 1;
  last_fragment_ms = last;
  fragments = (index, 1 ∷ 2 ∷ 3 ∷ []) ∷ [];
  cumulative_bytes = 3;
  content_id = [];
}

-- Of the two sets the first has expired at 60,000 ms.
abbrev two_sets : Manager
two_sets = record {
  sets = (10 ∷ [], half_done 10 0) ∷ (59_000 ∷ [], half_done 59_000 1) ∷ [];
  global_bytes = 6;
  rescue = ((97 ∷ [], (2, 2)), (0, 5 ∷ []) ∷ []) ∷ [];
  rescue_ts = ((97 ∷ [], (2, 2)), 7) ∷ [];
  attempt_count = [];
  has_rescue_path = true;
}

two_sets-IsValid : IsValid two_sets
unfolding get list_beq
two_sets-IsValid = record {
  counts = record {
    distinct = (refl, (refl, tt));
    sets = (
      record { counted = refl; distinct = (refl, tt) },
      (record { counted = refl; distinct = (refl, tt) }, tt),
    );
    counted = refl;
    rescue = ((refl, tt), tt);
  };
  bounds = record {
    sets = (omega arith, (omega arith, tt));
    total = omega arith;
    number = omega arith;
  };
}

two_sets-IsStamped : IsStamped two_sets
unfolding get
two_sets-IsStamped = record {
  stamped = λ key h. elim (Bool-cases (key =? (97 ∷ [], (2, 2)))) [
    | inl same ↦ let e : ◌≡◌ {A = Option ℕ} (some 7) none = rw same at h in cc
    | inr other ↦ rw other refl
  ];
  times = (refl, tt);
  transfers = (refl, tt);
}

cleanup_old-active_example :
    (m' : Manager) × (events : List Event) × (cleanup_old (λ xs. []) 60_000 two_sets
      ≡ some (m', events))
    × IsValid m'
    × IsStamped m'
    × (m'.sets ≡ active_sets 60_000 two_sets.sets)
cleanup_old-active_example =
    cleanup_old-active (λ xs. []) 60_000 two_sets two_sets-IsValid two_sets-IsStamped

evict_rescue_if_needed-ends_example :
    (m' : Manager) × (evict_rescue_if_needed two_sets ≡ some m')
    × (length m'.rescue ≤ rescue_max_entries)
    × (rescue_bytes_total m'.rescue ≤ rescue_max_bytes)
evict_rescue_if_needed-ends_example = evict_rescue_if_needed-ends two_sets two_sets-IsStamped

create_fragments_fit_example :
    (xs : Bytes) × (encode storing 0 (number 1 (drop 461 raw)) true ≡ some xs) × (length xs ≤ 512)
create_fragments_fit_example =
    create_fragments_fit storing 0 large (ident 4) both large-IsSplit refl create-large 1
      (number 1 (drop 461 raw)) refl

handle_fragment-IsStamped_example :
    IsStamped (handle_fragment outside (number 1 (drop 461 raw)) two_sets).manager
handle_fragment-IsStamped_example =
    handle_fragment-IsStamped outside (number 1 (drop 461 raw)) two_sets two_sets-IsStamped
