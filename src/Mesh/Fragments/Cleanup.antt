-- ===== src/Mesh/Fragments/Cleanup.antt =====
-- `FragmentManager._cleanup_old` and `_evict_rescue_if_needed`.
pub mod Evicted
pub mod Kept
pub mod Expired
use bit_chat_pi.Prelude.{
  Bool, List, Option, [], false, if◌then◌else◌, leb, length, ltb, max, none, not, some, suc, true,
  zero, ℕ, ◌&&◌, ◌*◌, ◌++◌, ◌+◌, ◌-◌, ◌=?◌, ◌>>=◌, ◌||◌, ◌∷◌, list_eq, nat_eq, pair_eq,
}
use bit_chat_pi.Bytes.{Bytes}
use bit_chat_pi.Text.{Text}
use bit_chat_pi.Dict.{Dict, find_or, get, has, keys, remove, set}
use bit_chat_pi.Dict.Select.{keys_where}
use bit_chat_pi.Dict.Sums.{sum_values}
use bit_chat_pi.Mesh.Fragments.Manager.{
  Event, FragmentSet, Fragments, Manager, RescueKey, content_of, expired, merge, remove_set,
  rescue_key, rescue_max_bytes, rescue_max_entries, rescue_saved, rescue_ttl_ms, total_bytes,
}

-- `_RESCUE_MIN_FRACTION` is 0.75.
abbrev pub is_rescued : ℕ → ℕ → Bool
is_rescued received total = leb (3 * total) (4 * received)

-- 1.5 thirtieths of a second for each fragment, and 30 seconds at least.
abbrev pub inactivity_limit_ms : FragmentSet → ℕ
inactivity_limit_ms s = max (50 * s.total) 30_000

-- The keys of the entries that are older than the limit.
abbrev pub stale_rescue : ℕ → Dict RescueKey ℕ → List RescueKey
stale_rescue now_ms = keys_where (λ ts. ltb rescue_ttl_ms (now_ms - ts))

unfoldable pub drop_rescue : RescueKey → Manager → Manager
drop_rescue key m = record m {
  rescue = remove key m.rescue;
  rescue_ts = remove key m.rescue_ts;
  attempt_count = remove key m.attempt_count;
}

abbrev pub drop_rescues : List RescueKey → Manager → Manager
drop_rescues [] m = m
drop_rescues (key ∷ keys) m = drop_rescues keys (drop_rescue key m)

abbrev pub expired_sets : ℕ → Dict Text FragmentSet → List Text
expired_sets now_ms = keys_where (λ s. ltb (inactivity_limit_ms s) (now_ms - s.last_fragment_ms))

-- `sorted(set(range(n)) - set(d.keys()))`, counted from `i` on.
unfoldable pub missing_from : ℕ → ℕ → Fragments → List ℕ
missing_from i zero d = []
missing_from i (suc n) d = let rest = missing_from (i + 1) n d in if has i d then rest else i ∷ rest

abbrev pub missing : ℕ → Fragments → List ℕ
missing n d = missing_from 0 n d

-- The name of what the set holds, if it has none yet.
abbrev pub named : (Bytes → Text) → FragmentSet → FragmentSet
named hash s =
    if s.content_id =? [] then record s { content_id = content_of hash s.fragments } else s

-- An expired set with a sender: its fragments join the rescued ones of its transfer, which are kept
-- where the set itself has three quarters, and what is missing is reported.
unfoldable pub rescue_set : ℕ → FragmentSet → Manager → Manager × List Event
unfolding missing_from
rescue_set now_ms s m =
    let merged = merge (find_or (rescue_key s) [] m.rescue) s.fragments in
    let combined_missing = missing s.total merged in
    let events : List Event = elim combined_missing [
      | [] ↦ []
      | i ∷ is ↦ expired s (missing s.total s.fragments) (length merged) (i ∷ is) ∷ []
    ] in
    if is_rescued (length s.fragments) s.total
    then (
      record m {
        rescue = set (rescue_key s) merged m.rescue;
        rescue_ts = set (rescue_key s) now_ms m.rescue_ts;
      },
      events,
    )
    else (m, events)

unfoldable pub expire_set : (Bytes → Text) → ℕ → Text → Manager → Manager × List Event
unfolding rescue_set
expire_set hash now_ms key m = elim (get key m.sets) [
  | none ↦ (m, [])
  | some s ↦
      let (m', events) =
        (if s.sender_hex =? [] then (m, []) else rescue_set now_ms (named hash s) m) in
      (remove_set key m', events)
]

unfoldable pub expire_sets : (Bytes → Text) → ℕ → List Text → Manager → Manager × List Event
unfolding expire_set
expire_sets hash now_ms [] m = (m, [])
expire_sets hash now_ms (key ∷ keys) m =
    let (m1, events) = expire_set hash now_ms key m in
    let (m2, more) = expire_sets hash now_ms keys m1 in (m2, events ++ more)

-- `min(self._rescue_ts, key=self._rescue_ts.__getitem__)`: the first of the oldest.
unfoldable pub oldest {ℓ} : {K : Type ℓ} → Dict K ℕ → Option (K × ℕ)
oldest [] = none
oldest ((key, ts) ∷ d) = elim (oldest d) [
  | none ↦ some (key, ts)
  | some (key', ts') ↦ if leb ts ts' then some (key, ts) else some (key', ts')
]

abbrev pub rescue_bytes_total : Dict RescueKey Fragments → ℕ
rescue_bytes_total = sum_values total_bytes

abbrev pub is_over_limit : Manager → Bool
is_over_limit m =
    ltb rescue_max_entries (length m.rescue) || ltb rescue_max_bytes (rescue_bytes_total m.rescue)

-- `_evict_rescue_if_needed`: every round drops an entry of `rescue_ts`, so their number is enough
-- fuel. `none` is the ValueError of `min` over no entry.
unfoldable pub evict_rescue : ℕ → Manager → Option Manager
unfolding oldest drop_rescue
evict_rescue zero m = if is_over_limit m then none else some m
evict_rescue (suc fuel) m = elim (oldest m.rescue_ts) [
  | none ↦ if is_over_limit m then none else some m
  | some (key, ts) ↦
      let rest = evict_rescue fuel (drop_rescue key m) in if is_over_limit m then rest else some m
]

unfoldable pub evict_rescue_if_needed : Manager → Option Manager
unfolding evict_rescue
evict_rescue_if_needed m = evict_rescue (length m.rescue_ts) m

abbrev pub is_nil {ℓ} : {A : Type ℓ} → List A → Bool
is_nil [] = true
is_nil (x ∷ xs) = false

-- The manager and what the call reports; the callbacks come last.
unfoldable pub cleanup_old : (Bytes → Text) → ℕ → Manager → Option (Manager × List Event)
unfolding expire_sets evict_rescue_if_needed
cleanup_old hash now_ms m =
    let stale = stale_rescue now_ms m.rescue_ts in
    let m1 = drop_rescues stale m in
    let over = expired_sets now_ms m1.sets in
    let (m2, events) = expire_sets hash now_ms over m1 in
    if m.has_rescue_path && not (is_nil stale && is_nil over)
    then (do m3 ← evict_rescue_if_needed m2; some (m3, rescue_saved ∷ events))
    else some (m2, events)
