-- ===== src/Mesh/Fragments/Gather.antt =====
-- A set that gathers the fragments of one packet, one arrival after the other.
use bit_chat_pi.Prelude.{
  ==_iff, Bool, Bool-cases, List, [], ap, arith, false, inl, inr, is_some, length, ltb, not, refl,
  some, subst, suc, sym, true, zero, ℕ, ◌*◌, ◌++◌, ◌+◌, ◌-◌, ◌<◌, ◌==◌, ◌||◌, ◌∙◌, ◌∷◌, ◌≡◌, ◌≤◌,
  list_eq, nat_eq, pair_eq,
}
use bit_chat_pi.Bytes.{Bytes}
use bit_chat_pi.Text.{Text}
use bit_chat_pi.Dict.{find_or, get, has, set}
use bit_chat_pi.Dict.Keys.{Fresh-has, IsDict, get-set_ne, get-set_self, set-IsDict}
use bit_chat_pi.Dict.Laws.{find_or-none, find_or-some, length-set}
use bit_chat_pi.Dict.Range.{AllBelow, AllBelow-full, AllBelow-length, AllBelow-set, length-full}
use bit_chat_pi.Protocol.Constants.{max_global_fragment_bytes}
use bit_chat_pi.Mesh.Fragments.Payload.{FragmentPayload}
use bit_chat_pi.Mesh.Fragments.Manager.{Event, FragmentSet, Fragments, Manager}
use bit_chat_pi.Mesh.Fragments.Receive.{
  Outside, Result, complete, decoded, join_from, nothing, store, stored,
}

-- The data of the fragments `i` to `i + n`, joined.
abbrev pub joined : (ℕ → Bytes) → ℕ → ℕ → Bytes
joined chunk i zero = []
joined chunk i (suc n) = chunk i ++ joined chunk (i + 1) n

join_from-joined :
    (chunk : ℕ → Bytes) (i n : ℕ) (d : Fragments)
    → ((j : ℕ) → i ≤ j → j < i + n → get j d ≡ some (chunk j))
    → join_from i n d ≡ some (joined chunk i n)
unfolding join_from
join_from-joined chunk i zero d h = refl
join_from-joined chunk i (suc n) d h =
    rw
      (
        h i (omega arith) (omega arith),
        join_from-joined chunk (i + 1) n d (λ j above below. h j (omega arith) (omega arith)),
      )
      refl

-- `i in seen`
abbrev pub among : ℕ → List ℕ → Bool
among i [] = false
among i (j ∷ js) = i == j || among i js

module _ (frag_id : Bytes) (n type : ℕ) (chunk : ℕ → Bytes) where
  abbrev pub nth_payload : ℕ → FragmentPayload
  nth_payload i = record {
    frag_id = frag_id;
    index = i;
    total = n;
    original_type = type;
    chunk = chunk i;
  }

  -- A set that holds the fragments `seen`, and the room that the others need.
  pub record Gathering (key : Text) (seen : List ℕ) (s : FragmentSet) (m : Manager) : Type 0 where
    pub here : get key m.sets ≡ some s
    pub total : s.total ≡ n
    pub type_same : s.original_type ≡ type
    pub distinct : IsDict s.fragments
    pub below : AllBelow n s.fragments
    pub right : (j : ℕ) → has j s.fragments ≡ true → get j s.fragments ≡ some (chunk j)
    pub held : (j : ℕ) → has j s.fragments ≡ among j seen
    pub size : s.cumulative_bytes ≤ 469 * length s.fragments
    pub room : m.global_bytes + 469 * (n - length s.fragments) ≤ max_global_fragment_bytes

  module _ (o : Outside) (key : Text) (i : ℕ) (seen : List ℕ) (s : FragmentSet) (m : Manager)
      (few : n ≤ 256) (small : length (chunk i) ≤ 469) (in_range : i < n)
      (g : Gathering key seen s m) where
    abbrev s' : FragmentSet
    s' = stored o (nth_payload i) s

    abbrev old_size : ℕ
    old_size = length (find_or i [] s.fragments)

    abbrev m' : Manager
    m' = record m {
      sets = set key s' m.sets;
      global_bytes = m.global_bytes + length (chunk i) - old_size;
    }

    -- What the fragment replaces is itself, or nothing.
    fits :
        (s.cumulative_bytes + length (chunk i) - old_size
          ≤ 469 * length (set i (chunk i) s.fragments))
        × (length (set i (chunk i) s.fragments) ≤ n)
        × (m.global_bytes + length (chunk i) + 469 * (n - length (set i (chunk i) s.fragments))
            ≤ max_global_fragment_bytes + old_size)
    fits =
        let most =
          AllBelow-length n (set i (chunk i) s.fragments)
            (set-IsDict i (chunk i) s.fragments g.distinct)
            (AllBelow-set n i (chunk i) s.fragments in_range g.below) in
        let len = length-set i (chunk i) s.fragments in
        elim (Bool-cases (has i s.fragments)) [
          | inl there ↦
              let same = ap length (find_or-some i [] (chunk i) s.fragments (g.right i there)) in
              let len' : length (set i (chunk i) s.fragments) ≡ length s.fragments =
                ground (arith, len, there) in
              (omega (arith, same, len', g.size), most, omega (arith, same, len', g.room))
          | inr new ↦
              let zero_size =
                ap length (find_or-none i [] s.fragments (Fresh-has i s.fragments new)) in
              let len' : length (set i (chunk i) s.fragments) ≡ length s.fragments + 1 =
                ground (arith, len, new) in
              (
                omega (arith, zero_size, len', g.size),
                most,
                omega (arith, zero_size, len', most, g.room),
              )
        ]

    Gathering-stored : Gathering key (i ∷ seen) s' m'
    unfolding stored
    Gathering-stored = record {
      here = get-set_self key s' m.sets;
      total = g.total;
      type_same = g.type_same;
      distinct = set-IsDict i (chunk i) s.fragments g.distinct;
      below = AllBelow-set n i (chunk i) s.fragments in_range g.below;
      right = λ j there. elim (Bool-cases (j == i)) [
        | inl same ↦
            let e : j ≡ i = ground arith in
            subst (λ k. get k (set i (chunk i) s.fragments) ≡ some (chunk k)) (sym e)
              (get-set_self i (chunk i) s.fragments)
        | inr other ↦
            let apart = get-set_ne i j (chunk i) s.fragments other in
            apart ∙ g.right j (ap is_some (sym apart) ∙ there)
      ];
      held = λ j. elim (Bool-cases (j == i)) [
        | inl same ↦
            let e : j ≡ i = ground arith in
            let there =
              subst (λ k. has k (set i (chunk i) s.fragments) ≡ true) (sym e)
                (ap is_some (get-set_self i (chunk i) s.fragments)) in
            there ∙ sym (ap (λ b. b || among j seen) same)
        | inr other ↦
            ap is_some (get-set_ne i j (chunk i) s.fragments other)
            ∙ g.held j
            ∙ sym (ap (λ b. b || among j seen) other)
      ];
      size = fits.0;
      room = omega (arith, fits.2);
    }

    abbrev stored_result : List Event → Result
    stored_result events = store o key (nth_payload i) s m events

    store_completes : (events : List Event) → stored_result events ≡ complete o key s' m' events
    unfolding store
    store_completes events =
        let large : ltb 1_048_576 (s.cumulative_bytes + length (chunk i) - old_size) ≡ false =
          ground (arith, fits.0, fits.1, few) in
        let full : ltb (max_global_fragment_bytes + old_size) (m.global_bytes + length (chunk i))
            ≡ false =
          ground (arith, fits.2) in
        rw (store, large, full) refl

    -- Not every index has been seen: the fragment is kept and nothing is answered.
    pub store-Gathering :
        (j : ℕ) (events : List Event)
        → j < n
        → among j (i ∷ seen) ≡ false
        → (t : FragmentSet) × (stored_result events).answer ≡ nothing
          × Gathering key (i ∷ seen) t (stored_result events).manager
    unfolding complete
    store-Gathering j events below absent =
        let g' = Gathering-stored in
        let unequal : not (length s'.fragments == s'.total) ≡ true =
          elim (Bool-cases (length s'.fragments == s'.total)) [
            | inr other ↦ ap not other
            | inl same ↦
                let full : length s'.fragments ≡ n =
                  (==_iff (length s'.fragments) s'.total).0 same ∙ g'.total in
                cc (
                  AllBelow-full n s'.fragments j g'.distinct g'.below full below,
                  g'.held j,
                  absent,
                )
          ] in
        let e : complete o key s' m' events
            ≡ record { manager = m'; answer = nothing; events = events } =
          rw (unequal, complete) refl in
        subst
          (λ (r : Result).
            (t : FragmentSet) × (r.answer ≡ nothing) × Gathering key (i ∷ seen) t r.manager)
          (sym (store_completes events ∙ e)) (s', refl, g')

    -- Every index has been seen: the answer is the packet that the joined data decode to.
    pub store_joined :
        (events : List Event)
        → ((j : ℕ) → j < n → among j (i ∷ seen) ≡ true)
        → (stored_result events).answer ≡ decoded o.zlib (joined chunk 0 n)
    unfolding complete
    store_joined events all =
        let g' = Gathering-stored in
        let there : (j : ℕ) → j < n → has j s'.fragments ≡ true =
          λ j below. g'.held j ∙ all j below in
        let most = AllBelow-length n s'.fragments g'.distinct g'.below in
        let least = length-full n s'.fragments there in
        let full : not (length s'.fragments == s'.total) ≡ false =
          ground (arith, most, least, g'.total) in
        let whole : join_from 0 s'.total s'.fragments ≡ some (joined chunk 0 n) =
          subst (λ k. join_from 0 k s'.fragments ≡ some (joined chunk 0 n)) (sym g'.total)
            (join_from-joined chunk 0 n s'.fragments
              (λ j _ below. g'.right j (there j (omega arith)))) in
        let e : (complete o key s' m' events).answer ≡ decoded o.zlib (joined chunk 0 n) =
          rw (full, whole, complete) refl in
        ap (λ (r : Result). r.answer) (store_completes events) ∙ e
