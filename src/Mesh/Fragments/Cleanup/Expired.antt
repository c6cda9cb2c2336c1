-- ===== src/Mesh/Fragments/Cleanup/Expired.antt =====
-- What `_cleanup_old` drops, and what it leaves.
use bit_chat_pi.Prelude.{
  Bool-cases, List, [], ap, arith, inl, inr, leb, ltb, max, not, refl, some, ℕ, ◌&&◌, ◌*◌, ◌-◌, ◌∙◌,
  ◌∷◌, ◌≡◌, list_eq, nat_eq, pair_eq,
}
use bit_chat_pi.Text.{Text}
use bit_chat_pi.Dict.{Dict, keys, remove}
use bit_chat_pi.Dict.Select.{entries_where, entries_where-ext, pop_all, pop_all-keys_where}
use bit_chat_pi.Dict.Keys.{IsDict}
use bit_chat_pi.Mesh.Fragments.Manager.{Event, FragmentSet, Manager, rescue_saved}
use bit_chat_pi.Mesh.Fragments.Accounting.{IsValid}
use bit_chat_pi.Mesh.Fragments.Cleanup.{
  cleanup_old, drop_rescues, expire_set, expire_sets, expired_sets, inactivity_limit_ms, is_nil,
  stale_rescue,
}
use bit_chat_pi.Mesh.Fragments.Cleanup.Evicted.{IsStamped, evict_rescue_if_needed-keeps}
use bit_chat_pi.Bytes.{Bytes}
use bit_chat_pi.Mesh.Fragments.Cleanup.Kept.{
  IsKept, drop_rescue-IsKept, drop_rescues-IsKept, expire_set-IsKept,
}

expire_sets-IsKept :
    (hash : Bytes → Text) (now_ms : ℕ) (keys : List Text) (sets : Dict Text FragmentSet)
    (m : Manager)
    → IsKept sets m
    → IsKept (pop_all keys sets) (expire_sets hash now_ms keys m).0
unfolding expire_sets
expire_sets-IsKept hash now_ms [] sets m h = h
expire_sets-IsKept hash now_ms (key ∷ keys) sets m h =
    expire_sets-IsKept hash now_ms keys (remove key sets) (expire_set hash now_ms key m).0
      (expire_set-IsKept hash now_ms key sets m h)

-- The sets that are not expired: the last fragment came at most 30 seconds ago, or 50 ms for each
-- fragment of the transfer.
abbrev pub active_sets : ℕ → Dict Text FragmentSet → Dict Text FragmentSet
active_sets now_ms =
    entries_where (λ s. leb (now_ms - s.last_fragment_ms) (max (50 * s.total) 30_000))

pop_all-active :
    (now_ms : ℕ) (sets : Dict Text FragmentSet)
    → IsDict sets
    → pop_all (expired_sets now_ms sets) sets ≡ active_sets now_ms sets
pop_all-active now_ms sets h =
    pop_all-keys_where (λ s. ltb (inactivity_limit_ms s) (now_ms - s.last_fragment_ms)) sets h
    ∙ entries_where-ext _ _ sets (λ s. ground arith)

-- The cleanup never fails, keeps the byte count, the caps and the times of the rescued fragments,
-- and drops exactly the sets whose last fragment came more than 30 seconds ago, or more than 50 ms
-- for each fragment of the transfer.
pub cleanup_old-active :
    (hash : Bytes → Text) (now_ms : ℕ) (m : Manager)
    → IsValid m
    → IsStamped m
    → (m' : Manager) × (events : List Event) × (cleanup_old hash now_ms m ≡ some (m', events))
      × IsValid m'
      × IsStamped m'
      × (m'.sets ≡ active_sets now_ms m.sets)
unfolding cleanup_old
cleanup_old-active hash now_ms m v h =
    let stale = stale_rescue now_ms m.rescue_ts in
    let m1 = drop_rescues stale m in
    let k1 = drop_rescues-IsKept stale m.sets m (record { valid = v; stamped = h; same = refl }) in
    let m2 = (expire_sets hash now_ms (expired_sets now_ms m1.sets) m1).0 in
    let k2 = expire_sets-IsKept hash now_ms (expired_sets now_ms m1.sets) m.sets m1 k1 in
    let same =
      k2.same
      ∙ ap (λ d. pop_all (expired_sets now_ms d) m.sets) k1.same
      ∙ pop_all-active now_ms m.sets v.counts.distinct in
    let events = (expire_sets hash now_ms (expired_sets now_ms m1.sets) m1).1 in
    elim (Bool-cases
      (m.has_rescue_path && not (is_nil stale && is_nil (expired_sets now_ms m1.sets)))) [
        | inl saved ↦
            let (m3, r, k3, _, _) =
              evict_rescue_if_needed-keeps (IsKept m2.sets) (λ key. drop_rescue-IsKept key m2.sets)
                m2 k2.stamped (record { valid = k2.valid; stamped = k2.stamped; same = refl }) in
            (m3, rescue_saved ∷ events, rw (saved, r) refl, k3.valid, k3.stamped, k3.same ∙ same)
        | inr quiet ↦ (m2, events, rw quiet refl, k2.valid, k2.stamped, same)
      ]
