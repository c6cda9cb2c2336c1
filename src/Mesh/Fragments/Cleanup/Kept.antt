-- ===== src/Mesh/Fragments/Cleanup/Kept.antt =====
-- What the steps of `_cleanup_old` leave as it is.
use bit_chat_pi.Prelude.{
  Bool-cases, Eq, List, Option-cases, [], ap, inl, inr, length, refl, subst, sym, ℕ, ◌=?◌, ◌∙◌, ◌∷◌,
  ◌≡◌, list_eq, nat_eq, pair_eq,
}
use bit_chat_pi.Text.{Text}
use bit_chat_pi.Dict.{Dict, find_or, get, keys, remove, set}
use bit_chat_pi.Dict.Keys.{Fresh, IsDict, get-set_ne, get-set_self, remove_missing, set-IsDict}
use bit_chat_pi.Dict.Sums.{AllValues-get, AllValues-remove, AllValues-set}
use bit_chat_pi.Mesh.Fragments.Manager.{
  FragmentSet, Manager, RescueKey, merge, remove_set, rescue_key,
}
use bit_chat_pi.Mesh.Fragments.Accounting.{IsValid, remove_set-IsValid}
use bit_chat_pi.Mesh.Fragments.Cleanup.{
  drop_rescue, drop_rescues, expire_set, is_rescued, named, rescue_set,
}
use bit_chat_pi.Mesh.Fragments.Cleanup.Evicted.{IsStamped, drop_rescue-IsStamped}
use bit_chat_pi.Bytes.{Bytes}
use bit_chat_pi.Mesh.Fragments.Merge.{merge-IsDict}
use bit_chat_pi.Mesh.Fragments.Bounds.{IsCounted}

-- The sets are as before, and what the manager holds is well formed.
pub record IsKept (sets : Dict Text FragmentSet) (m : Manager) : Type 0 where
  pub valid : IsValid m
  pub stamped : IsStamped m
  pub same : m.sets ≡ sets

module _ {ℓ κ ι} {K : Type ℓ} {V : Type κ} {W : Type ι} ⦃e : Eq K⦄ where
  Fresh-set_both :
      (k j : K) (v : V) (w : W) (d : Dict K V) (d' : Dict K W)
      → (Fresh j d' → Fresh j d)
      → Fresh j (set k w d')
      → Fresh j (set k v d)
  Fresh-set_both k j v w d d' sub fresh = elim (Bool-cases (j =? k)) [
    | inl same ↦
        let j_is : j ≡ k = (e.beq_iff j k).0 same in
        cc (fresh, ap (λ x. get x (set k w d')) j_is, get-set_self k w d')
    | inr other ↦ get-set_ne k j v d other ∙ sub (sym (get-set_ne k j w d' other) ∙ fresh)
  ]

pub drop_rescue-IsKept :
    (key : RescueKey) (sets : Dict Text FragmentSet) (m : Manager)
    → IsKept sets m
    → IsKept sets (drop_rescue key m)
unfolding drop_rescue
drop_rescue-IsKept key sets m h = record {
  valid = record {
    counts = record {
      distinct = h.valid.counts.distinct;
      sets = h.valid.counts.sets;
      counted = h.valid.counts.counted;
      rescue = AllValues-remove (λ d. IsDict d) key m.rescue h.valid.counts.rescue;
    };
    bounds = record {
      sets = h.valid.bounds.sets;
      total = h.valid.bounds.total;
      number = h.valid.bounds.number;
    };
  };
  stamped = drop_rescue-IsStamped key m h.stamped;
  same = h.same;
}

pub drop_rescues-IsKept :
    (keys : List RescueKey) (sets : Dict Text FragmentSet) (m : Manager)
    → IsKept sets m
    → IsKept sets (drop_rescues keys m)
drop_rescues-IsKept [] sets m h = h
drop_rescues-IsKept (key ∷ keys) sets m h =
    drop_rescues-IsKept keys sets (drop_rescue key m) (drop_rescue-IsKept key sets m h)

-- The rescued fragments of one more set.
rescued : ℕ → FragmentSet → Manager → Manager
rescued now_ms s m = record m {
  rescue = set (rescue_key s) (merge (find_or (rescue_key s) [] m.rescue) s.fragments) m.rescue;
  rescue_ts = set (rescue_key s) now_ms m.rescue_ts;
}

found-IsDict : (key : RescueKey) (m : Manager) → IsCounted m → IsDict (find_or key [] m.rescue)
found-IsDict key m c = elim (Option-cases (get key m.rescue)) [
  | inl e ↦ rw (e, find_or) tt
  | inr (d, e) ↦ rw (e, find_or) (AllValues-get (λ x. IsDict x) key m.rescue d c.rescue e)
]

rescued-IsKept :
    (now_ms : ℕ) (s : FragmentSet) (sets : Dict Text FragmentSet) (m : Manager)
    → IsKept sets m
    → IsKept sets (rescued now_ms s m)
unfolding rescued
rescued-IsKept now_ms s sets m h = record {
  valid = record {
    counts = record {
      distinct = h.valid.counts.distinct;
      sets = h.valid.counts.sets;
      counted = h.valid.counts.counted;
      rescue =
          AllValues-set (λ d. IsDict d) (rescue_key s) _ m.rescue
            (merge-IsDict (find_or (rescue_key s) [] m.rescue) s.fragments
              (found-IsDict (rescue_key s) m h.valid.counts))
            (AllValues-remove (λ d. IsDict d) (rescue_key s) m.rescue h.valid.counts.rescue);
    };
    bounds = record {
      sets = h.valid.bounds.sets;
      total = h.valid.bounds.total;
      number = h.valid.bounds.number;
    };
  };
  stamped = record {
    stamped =
        λ j. Fresh-set_both (rescue_key s) j _ now_ms m.rescue m.rescue_ts (h.stamped.stamped j);
    times = set-IsDict (rescue_key s) now_ms m.rescue_ts h.stamped.times;
    transfers = set-IsDict (rescue_key s) _ m.rescue h.stamped.transfers;
  };
  same = h.same;
}

remove_set-same : (key : Text) (m : Manager) → (remove_set key m).sets ≡ remove key m.sets
unfolding remove_set
remove_set-same key m = elim (Option-cases (get key m.sets)) [
  | inl e ↦ rw (e, remove_set) (sym (remove_missing key m.sets e))
  | inr (s, e) ↦ rw (e, remove_set) refl
]

remove_set-IsKept :
    (key : Text) (sets : Dict Text FragmentSet) (m : Manager)
    → IsKept sets m
    → IsKept (remove key sets) (remove_set key m)
unfolding remove_set
remove_set-IsKept key sets m h = record {
  valid = remove_set-IsValid key m h.valid;
  stamped = elim (Option-cases (get key m.sets)) [
    | inl e ↦ rw (e, remove_set) h.stamped
    | inr (s, e) ↦
        rw (e, remove_set)
          (record {
            stamped = h.stamped.stamped;
            times = h.stamped.times;
            transfers = h.stamped.transfers;
          })
  ];
  same = remove_set-same key m ∙ ap (remove key) h.same;
}

rescue_set-IsKept :
    (now_ms : ℕ) (s : FragmentSet) (sets : Dict Text FragmentSet) (m : Manager)
    → IsKept sets m
    → IsKept sets (rescue_set now_ms s m).0
unfolding rescue_set rescued
rescue_set-IsKept now_ms s sets m h = elim (Bool-cases (is_rescued (length s.fragments) s.total)) [
  | inl most ↦ rw (most, rescue_set) (rescued-IsKept now_ms s sets m h)
  | inr few ↦ rw (few, rescue_set) h
]

pub expire_set-IsKept :
    (hash : Bytes → Text) (now_ms : ℕ) (key : Text) (sets : Dict Text FragmentSet) (m : Manager)
    → IsKept sets m
    → IsKept (remove key sets) (expire_set hash now_ms key m).0
unfolding expire_set
expire_set-IsKept hash now_ms key sets m h = elim (Option-cases (get key m.sets)) [
  | inl e ↦
      rw (e, expire_set)
        (subst (λ d. IsKept d m) (sym (remove_missing key sets (sym (ap (get key) h.same) ∙ e))) h)
  | inr (s, e) ↦ elim (Bool-cases (s.sender_hex =? [])) [
    | inl anonymous ↦ rw (e, anonymous, expire_set) (remove_set-IsKept key sets m h)
    | inr sent ↦
        rw (e, sent, expire_set)
          (remove_set-IsKept key sets (rescue_set now_ms (named hash s) m).0
            (rescue_set-IsKept now_ms (named hash s) sets m h))
  ]
]
