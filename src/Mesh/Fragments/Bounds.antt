-- ===== src/Mesh/Fragments/Bounds.antt =====
-- What the manager holds, and that its byte count is exact.
use bit_chat_pi.Prelude.{Option-cases, arith, inl, inr, length, ◌≡◌, ◌≤◌, list_eq, nat_eq, pair_eq}
use bit_chat_pi.Text.{Text}
use bit_chat_pi.Dict.{get}
use bit_chat_pi.Dict.Keys.{IsDict, remove-IsDict}
use bit_chat_pi.Dict.Laws.{length-remove}
use bit_chat_pi.Dict.Sums.{AllValues, AllValues-remove, sum-remove, sum_values}
use bit_chat_pi.Protocol.Constants.{
  max_active_fragment_sets, max_fragment_total_bytes, max_global_fragment_bytes,
}
use bit_chat_pi.Mesh.Fragments.Manager.{FragmentSet, Manager, remove_set, total_bytes}

-- A set counts the bytes it holds.
pub record IsCountedSet (s : FragmentSet) : Type 0 where
  pub counted : s.cumulative_bytes ≡ total_bytes s.fragments
  pub distinct : IsDict s.fragments

-- The manager counts the bytes of its sets.
pub record IsCounted (m : Manager) : Type 0 where
  pub distinct : IsDict m.sets
  pub sets : AllValues IsCountedSet m.sets
  pub counted : m.global_bytes ≡ sum_values (λ s. s.cumulative_bytes) m.sets
  pub rescue : AllValues (λ d. IsDict d) m.rescue

abbrev pub IsSmall : FragmentSet → Type 0
IsSmall s = s.cumulative_bytes ≤ max_fragment_total_bytes

-- At most 64 sets of at most 1 MiB each, and 4 MiB in all.
pub record IsBounded (m : Manager) : Type 0 where
  pub sets : AllValues IsSmall m.sets
  pub total : m.global_bytes ≤ max_global_fragment_bytes
  pub number : length m.sets ≤ max_active_fragment_sets

pub remove_set-IsCounted : (key : Text) (m : Manager) → IsCounted m → IsCounted (remove_set key m)
unfolding remove_set
remove_set-IsCounted key m c = elim (Option-cases (get key m.sets)) [
  | inl e ↦ rw (e, remove_set) c
  | inr (s, e) ↦
      rw (e, remove_set)
        (record {
          distinct = remove-IsDict key m.sets c.distinct;
          sets = AllValues-remove IsCountedSet key m.sets c.sets;
          counted = omega (arith, c.counted, sum-remove (λ t. t.cumulative_bytes) key m.sets s e);
          rescue = c.rescue;
        })
]

pub remove_set-IsBounded : (key : Text) (m : Manager) → IsBounded m → IsBounded (remove_set key m)
unfolding remove_set
remove_set-IsBounded key m b = elim (Option-cases (get key m.sets)) [
  | inl e ↦ rw (e, remove_set) b
  | inr (s, e) ↦
      rw (e, remove_set)
        (record {
          sets = AllValues-remove IsSmall key m.sets b.sets;
          total = omega (arith, b.total);
          number = omega (arith, b.number, length-remove key m.sets);
        })
]
