-- ===== src/Mesh/Fragments/Cleanup/Evicted.antt =====
-- The eviction of rescued fragments comes to an end within the limits.
use bit_chat_pi.Prelude.{
  =?-refl, Bool-cases, Eq, Option-cases, [], arith, false, inl, inr, length, nil_length, none, refl,
  some, subst, suc, sym, true, zero, ℕ, ◌=?◌, ◌∙◌, ◌∷◌, ◌≡◌, ◌≤◌, list_eq, nat_eq, pair_eq,
}
use bit_chat_pi.Dict.{Dict, get, has, remove}
use bit_chat_pi.Dict.Keys.{Fresh, IsDict, get-remove_ne, get-remove_self, remove-IsDict}
use bit_chat_pi.Mesh.Fragments.Manager.{Manager, RescueKey, rescue_max_bytes, rescue_max_entries}
use bit_chat_pi.Mesh.Fragments.Cleanup.{
  drop_rescue, evict_rescue, evict_rescue_if_needed, is_over_limit, oldest, rescue_bytes_total,
}
use bit_chat_pi.Dict.Laws.{length-remove-has}

-- Every rescued transfer has its time, and all keys are distinct.
pub record IsStamped (m : Manager) : Type 0 where
  pub stamped : (key : RescueKey) → get key m.rescue_ts ≡ none → get key m.rescue ≡ none
  pub times : IsDict m.rescue_ts
  pub transfers : IsDict m.rescue

module _ {ℓ} {K : Type ℓ} ⦃e : Eq K⦄ where
  get-oldest : (d : Dict K ℕ) (key : K) (ts : ℕ) → oldest d ≡ some (key, ts) → has key d ≡ true
  unfolding oldest get
  get-oldest [] key ts h = cc
  get-oldest ((j, t) ∷ d) key ts h = ground (arith, get-oldest d key ts, e.beq_iff key j)

  oldest-none : (d : Dict K ℕ) → oldest d ≡ none → d ≡ []
  unfolding oldest
  oldest-none [] h = refl
  oldest-none ((j, t) ∷ d) h = ground arith

  Dict-empty {κ} : {V : Type κ} (d : Dict K V) → ((key : K) → get key d ≡ none) → d ≡ []
  unfolding get
  Dict-empty [] h = refl
  Dict-empty ((j, v) ∷ d) h = cc (h j, =?-refl j)

  pub Fresh-remove_both {κ ι} :
      {V : Type κ} {W : Type ι} (k j : K) (d : Dict K V) (d' : Dict K W)
      → IsDict d
      → (Fresh j d' → Fresh j d)
      → Fresh j (remove k d')
      → Fresh j (remove k d)
  Fresh-remove_both k j d d' h sub fresh = elim (Bool-cases (j =? k)) [
    | inl same ↦
        subst (λ x. Fresh x (remove k d)) (sym ((e.beq_iff j k).0 same)) (get-remove_self k d h)
    | inr other ↦ get-remove_ne k j d other ∙ sub (sym (get-remove_ne k j d' other) ∙ fresh)
  ]

pub drop_rescue-IsStamped :
    (key : RescueKey) (m : Manager) → IsStamped m → IsStamped (drop_rescue key m)
unfolding drop_rescue
drop_rescue-IsStamped key m h = record {
  stamped = λ j. Fresh-remove_both key j m.rescue m.rescue_ts h.transfers (h.stamped j);
  times = remove-IsDict key m.rescue_ts h.times;
  transfers = remove-IsDict key m.rescue h.transfers;
}

untimed-small : (m : Manager) → IsStamped m → m.rescue_ts ≡ [] → is_over_limit m ≡ false
unfolding get
untimed-small m h empty =
    let nothing_left : m.rescue ≡ [] = Dict-empty m.rescue (λ key. h.stamped key (rw empty)) in
    rw (is_over_limit, nothing_left)

-- With any property that holds on from drop to drop.
module _ {ℓ} (P : Manager → Type ℓ)
    (kept : (key : RescueKey) (m : Manager) → P m → P (drop_rescue key m)) where
  evict_rescue_ends :
      (fuel : ℕ) (m : Manager)
      → IsStamped m
      → P m
      → length m.rescue_ts ≤ fuel
      → (m' : Manager) × (evict_rescue fuel m ≡ some m') × P m' × (is_over_limit m' ≡ false)
  unfolding evict_rescue
  evict_rescue_ends zero m h holds enough =
      let small = untimed-small m h (nil_length m.rescue_ts enough) in
      (m, rw small refl, holds, small)
  evict_rescue_ends (suc fuel) m h holds enough = elim (Option-cases (oldest m.rescue_ts)) [
    | inl e ↦
        let small = untimed-small m h (oldest-none m.rescue_ts e) in
        (m, rw (e, small, evict_rescue) refl, holds, small)
    | inr ((key, ts), e) ↦ elim (Bool-cases (is_over_limit m)) [
      | inr small ↦ (m, rw (e, small, evict_rescue) refl, holds, small)
      | inl over ↦
          let (m', r, holds', small) =
            evict_rescue_ends fuel (drop_rescue key m) (drop_rescue-IsStamped key m h)
              (kept key m holds)
              (omega (
                arith,
                enough,
                length-remove-has key m.rescue_ts (get-oldest m.rescue_ts key ts e),
              )) in
          (m', rw (e, over, evict_rescue) r, holds', small)
    ]
  ]

  pub evict_rescue_if_needed-keeps :
      (m : Manager)
      → IsStamped m
      → P m
      → (m' : Manager) × (evict_rescue_if_needed m ≡ some m')
        × P m'
        × (length m'.rescue ≤ rescue_max_entries)
        × (rescue_bytes_total m'.rescue ≤ rescue_max_bytes)
  unfolding evict_rescue_if_needed
  evict_rescue_if_needed-keeps m h holds =
      let (m', r, holds', small) = evict_rescue_ends (length m.rescue_ts) m h holds (omega arith) in
      (m', r, holds', ground arith, ground arith)

-- The loop over the oldest entries comes to an end without an error, with at most 20 transfers and
-- 4 MiB left, where every rescued transfer has its time.
pub evict_rescue_if_needed-ends :
    (m : Manager)
    → IsStamped m
    → (m' : Manager) × (evict_rescue_if_needed m ≡ some m')
      × (length m'.rescue ≤ rescue_max_entries)
      × (rescue_bytes_total m'.rescue ≤ rescue_max_bytes)
evict_rescue_if_needed-ends m h =
    let (m', r, _, few, small) =
      evict_rescue_if_needed-keeps IsStamped drop_rescue-IsStamped m h h in
    (m', r, few, small)
