-- ===== src/Mesh/Fragments/Accounting.antt =====
-- The handlers keep the byte count exact, and the caps.
use bit_chat_pi.Prelude.{
  Bool-cases, List, Option-cases, [], ap, arith, inl, inr, length, ltb, not, some, ℕ, ◌+◌, ◌-◌,
  ◌==◌, ◌∷◌, ◌≡◌, ◌≤◌, list_eq, nat_eq, pair_eq,
}
use bit_chat_pi.Bytes.{Bytes}
use bit_chat_pi.Text.{Text}
use bit_chat_pi.Dict.{find_or, get, has, keys, remove, set}
use bit_chat_pi.Dict.Keys.{IsDict, set-IsDict}
use bit_chat_pi.Dict.Sums.{
  AllValues-get, AllValues-remove, AllValues-set, sum-remove, sum-set, sum-set_new,
}
use bit_chat_pi.Mesh.Fragments.Payload.{FragmentPayload}
use bit_chat_pi.Mesh.Fragments.Manager.{
  Event, FragmentSet, Fragments, Manager, remove_set, remove_sets, rescue_key, total_bytes,
}
use bit_chat_pi.Mesh.Fragments.Receive.{
  Outside, clear_transfer, complete, join_from, stale_sets, store, stored,
}
use bit_chat_pi.Mesh.Fragments.Bounds.{
  IsBounded, IsCounted, IsCountedSet, IsSmall, remove_set-IsBounded, remove_set-IsCounted,
}
use bit_chat_pi.Protocol.Constants.{
  max_active_fragment_sets, max_fragment_total_bytes, max_global_fragment_bytes,
}
use bit_chat_pi.Dict.Laws.{find_or-none, find_or-some, length-set}

pub record IsValid (m : Manager) : Type 0 where
  pub counts : IsCounted m
  pub bounds : IsBounded m

pub remove_set-IsValid : (key : Text) (m : Manager) → IsValid m → IsValid (remove_set key m)
remove_set-IsValid key m v = record {
  counts = remove_set-IsCounted key m v.counts;
  bounds = remove_set-IsBounded key m v.bounds;
}

pub remove_sets-IsValid :
    (keys : List Text) (m : Manager) → IsValid m → IsValid (remove_sets keys m)
remove_sets-IsValid [] m v = v
remove_sets-IsValid (key ∷ keys) m v =
    remove_sets-IsValid keys (remove_set key m) (remove_set-IsValid key m v)

pub clear_transfer-IsValid :
    (key : Text) (s : FragmentSet) (m : Manager) → IsValid m → IsValid (clear_transfer key s m)
unfolding clear_transfer
clear_transfer-IsValid key s m v =
    let m1 = remove_set key m in
    let m2 = remove_sets (stale_sets s m1.sets) m1 in
    let v2 = remove_sets-IsValid (stale_sets s m1.sets) m1 (remove_set-IsValid key m v) in
    elim (Bool-cases (has (rescue_key s) m2.rescue)) [
      | inr open_still ↦ rw (open_still, clear_transfer) v2
      | inl full ↦
          rw (full, clear_transfer)
            (record {
              counts = record {
                distinct = v2.counts.distinct;
                sets = v2.counts.sets;
                counted = v2.counts.counted;
                rescue = AllValues-remove (λ d. IsDict d) (rescue_key s) m2.rescue v2.counts.rescue;
              };
              bounds = record {
                sets = v2.bounds.sets;
                total = v2.bounds.total;
                number = v2.bounds.number;
              };
            })
    ]

complete-IsValid :
    (o : Outside) (key : Text) (s : FragmentSet) (m : Manager) (events : List Event)
    → IsValid m
    → IsValid (complete o key s m events).manager
unfolding complete
complete-IsValid o key s m events v = elim (Bool-cases (not (length s.fragments == s.total))) [
  | inl open_still ↦ rw (open_still, complete) v
  | inr full ↦ elim (Option-cases (join_from 0 s.total s.fragments)) [
    | inl e ↦ rw (full, e, complete) v
    | inr (xs, e) ↦ rw (full, e, complete) (clear_transfer-IsValid key s m v)
  ]
]

-- An entry that is set, with what it replaces.
total_bytes-set :
    (i : ℕ) (xs : Bytes) (d : Fragments)
    → total_bytes (set i xs d) + length (find_or i [] d) ≡ total_bytes d + length xs
total_bytes-set i xs d = elim (Option-cases (get i d)) [
  | inl e ↦
      omega
        (arith, sum-set_new {K = ℕ} {V = Bytes} length i d xs e, ap length (find_or-none i [] d e))
  | inr (ys, e) ↦
      omega (
        arith,
        sum-set {K = ℕ} {V = Bytes} length i d ys xs e,
        ap length (find_or-some i [] ys d e),
      )
]

stored-IsCountedSet :
    (o : Outside) (f : FragmentPayload) (s : FragmentSet)
    → IsCountedSet s
    → IsCountedSet (stored o f s)
unfolding stored
stored-IsCountedSet o f s c = record {
  counted = omega (arith, c.counted, total_bytes-set f.index f.chunk s.fragments);
  distinct = set-IsDict f.index f.chunk s.fragments c.distinct;
}

length-find_or-le : (i : ℕ) (d : Fragments) → length (find_or i [] d) ≤ total_bytes d
length-find_or-le i d = elim (Option-cases (get i d)) [
  | inl e ↦ omega (arith, ap length (find_or-none i [] d e))
  | inr (xs, e) ↦
      omega (
        arith,
        ap length (find_or-some i [] xs d e),
        sum-remove {K = ℕ} {V = Bytes} length i d xs e,
      )
]

-- What the caps are checked for: every set but the one that takes the fragment is within them.
pub record IsReady (key : Text) (s : FragmentSet) (m : Manager) : Type 0 where
  pub counts : IsCounted m
  pub here : get key m.sets ≡ some s
  pub others : IsBounded (remove_set key m)
  pub number : length m.sets ≤ max_active_fragment_sets

remove_set-IsReady :
    (key : Text) (s : FragmentSet) (m : Manager) → IsReady key s m → IsValid (remove_set key m)
remove_set-IsReady key s m r = record {
  counts = remove_set-IsCounted key m r.counts;
  bounds = r.others;
}

module _ (o : Outside) (key : Text) (f : FragmentPayload) (s : FragmentSet) (m : Manager)
    (r : IsReady key s m) where
  abbrev old_size : ℕ
  old_size = length (find_or f.index [] s.fragments)

  abbrev with_stored : Manager
  with_stored = record m {
    sets = set key (stored o f s) m.sets;
    global_bytes = m.global_bytes + length f.chunk - old_size;
  }

  with_stored-IsCounted : IsCounted with_stored
  unfolding stored
  with_stored-IsCounted =
      let c = AllValues-get IsCountedSet key m.sets s r.counts.sets r.here in
      let c' = stored-IsCountedSet o f s c in
      record {
        distinct = set-IsDict key (stored o f s) m.sets r.counts.distinct;
        sets =
            AllValues-set IsCountedSet key (stored o f s) m.sets c'
              (AllValues-remove IsCountedSet key m.sets r.counts.sets);
        counted = omega (
          arith,
          r.counts.counted,
          c.counted,
          length-find_or-le f.index s.fragments,
          sum-set (λ t. t.cumulative_bytes) key m.sets s (stored o f s) r.here,
        );
        rescue = r.counts.rescue;
      }

  with_stored-IsBounded :
      s.cumulative_bytes + length f.chunk - old_size ≤ max_fragment_total_bytes
      → m.global_bytes + length f.chunk ≤ max_global_fragment_bytes + old_size
      → IsBounded with_stored
  unfolding stored remove_set
  with_stored-IsBounded small room =
      let b : IsBounded (record m {
        sets = remove key m.sets;
        global_bytes = m.global_bytes - s.cumulative_bytes;
      }) =
        rw (r.here, remove_set) at r.others in
      record {
        sets = AllValues-set IsSmall key (stored o f s) m.sets small b.sets;
        total = omega (arith, room);
        number = ground (arith, length-set key (stored o f s) m.sets, r.here, r.number);
      }

pub store-IsValid :
    (o : Outside) (key : Text) (f : FragmentPayload) (s : FragmentSet) (m : Manager)
    (events : List Event)
    → IsReady key s m
    → IsValid (store o key f s m events).manager
unfolding store
store-IsValid o key f s m events r =
    let old_size = length (find_or f.index [] s.fragments) in
    elim (Bool-cases
      (ltb max_fragment_total_bytes (s.cumulative_bytes + length f.chunk - old_size))) [
        | inl large ↦ rw (large, store) (remove_set-IsReady key s m r)
        | inr small ↦
            elim (Bool-cases
              (ltb (max_global_fragment_bytes + old_size) (m.global_bytes + length f.chunk))) [
                | inl large ↦ rw (small, large, store) (remove_set-IsReady key s m r)
                | inr room ↦
                    rw (small, room, store)
                      (complete-IsValid o key (stored o f s) (with_stored o key f s m r) events
                        (record {
                          counts = with_stored-IsCounted o key f s m r;
                          bounds =
                              with_stored-IsBounded o key f s m r (ground arith) (ground arith);
                        }))
              ]
      ]
