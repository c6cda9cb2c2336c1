-- ===== src/Mesh/Fragments/Deliver.antt =====
-- The fragments of one packet, delivered in any order.
use bit_chat_pi.Prelude.{
  All, List, [], ap, arith, false, inl, inr, leb, length, ltb, none, not, refl, some, subst, sym,
  true, ℕ, ◌*◌, ◌+◌, ◌<◌, ◌==◌, ◌||◌, ◌∙◌, ◌∷◌, ◌≡◌, ◌≤◌, ◌⊎◌, list_eq, nat_eq, pair_eq,
}
use bit_chat_pi.Bytes.{Bytes}
use bit_chat_pi.Text.{Text}
use bit_chat_pi.Text.Hex.{hex}
use bit_chat_pi.Zlib.{Zlib}
use bit_chat_pi.Dict.{get, has}
use bit_chat_pi.Protocol.Packet.{Packet}
use bit_chat_pi.Protocol.Constants.{
  max_active_fragment_sets, max_fragments_per_id, max_global_fragment_bytes,
}
use bit_chat_pi.Mesh.Fragments.Payload.{FragmentPayload, decode_fragment_payload}
use bit_chat_pi.Mesh.Fragments.Manager.{Event, FragmentSet, Fragments, Manager, merge, total_bytes}
use bit_chat_pi.Mesh.Fragments.Receive.{
  Answer, Outside, Result, decoded, handle_decoded, handle_fragment, inherited, nothing, open_set,
  store, store_at,
}
use bit_chat_pi.Mesh.Fragments.Caps.{opened}
use bit_chat_pi.Mesh.Fragments.Gather.{
  Gathering, among, joined, nth_payload, store-Gathering, store_joined,
}
use bit_chat_pi.Dict.Range.{AllBelow}
use bit_chat_pi.Dict.Keys.{IsDict, get-set_self}

-- A call of `handle_fragment` with the fragment of number `index`.
pub record Delivery : Type 0 where
  pub outside : Outside
  pub packet : Packet
  pub index : ℕ

abbrev pub indices : List Delivery → List ℕ
indices [] = []
indices (d ∷ ds) = d.index ∷ indices ds

unfoldable pub deliver : Manager → List Delivery → Manager
deliver m [] = m
deliver m (d ∷ ds) = deliver (handle_fragment d.outside d.packet m).manager ds

unfoldable pub answers : Manager → List Delivery → List Answer
answers m [] = []
answers m (d ∷ ds) =
    (handle_fragment d.outside d.packet m).answer
    ∷ answers (handle_fragment d.outside d.packet m).manager ds

-- Room for a new set, and nothing left from an earlier attempt.
pub record HasRoom (frag_id sender_id : Bytes) (n type : ℕ) (m : Manager) : Type 0 where
  pub fresh : get (hex frag_id) m.sets ≡ none
  pub number : length m.sets < max_active_fragment_sets
  pub unrescued : get (hex sender_id, (n, type)) m.rescue ≡ none
  pub bytes : m.global_bytes + 469 * n ≤ max_global_fragment_bytes

module _ (z : Zlib) (frag_id sender_id : Bytes) (n type : ℕ) (chunk : ℕ → Bytes) where
  abbrev key : Text
  key = hex frag_id

  abbrev nth : ℕ → FragmentPayload
  nth i = nth_payload frag_id n type chunk i

  -- The packet of the delivery carries the fragment of that number.
  pub record IsFragment (d : Delivery) : Type 0 where
    pub zlib : d.outside.zlib ≡ z
    pub sender : d.packet.sender_id ≡ sender_id
    pub payload :
        decode_fragment_payload d.packet.payload ≡ some (nth_payload frag_id n type chunk d.index)
    pub in_range : d.index < n

  abbrev Progress : List ℕ → Manager → Type 0
  Progress seen m =
      (seen ≡ []) × HasRoom frag_id sender_id n type m
      ⊎ ((s : FragmentSet) × Gathering frag_id n type chunk key seen s m)

  Gathering-opened :
      (o : Outside) (i : ℕ) (m : Manager)
      → HasRoom frag_id sender_id n type m
      → Gathering frag_id n type chunk key []
          (opened o key (hex sender_id) (nth i) m)
          (open_set o key (hex sender_id) (nth i) m).0
  unfolding open_set get
  Gathering-opened o i m h =
      let no_old : inherited o.start_ms (hex sender_id, (n, type)) m ≡ [] =
        rw (h.unrescued, inherited) refl in
      let empty : merge [] (inherited o.start_ms (hex sender_id, (n, type)) m) ≡ [] =
        ap (merge []) no_old in
      let nothing_yet = ap length empty in
      let no_bytes = ap total_bytes no_old in
      record {
        here = get-set_self key (opened o key (hex sender_id) (nth i) m) m.sets;
        total = refl;
        type_same = refl;
        distinct = subst (λ (d : Fragments). IsDict d) (sym empty) tt;
        below = subst (λ (d : Fragments). AllBelow n d) (sym empty) tt;
        right =
            subst (λ (d : Fragments). (j : ℕ) → has j d ≡ true → get j d ≡ some (chunk j))
              (sym empty) (λ j there. cc);
        held = subst (λ (d : Fragments). (j : ℕ) → has j d ≡ false) (sym empty) (λ j. refl);
        size = omega (arith, no_bytes);
        room = omega (arith, no_bytes, nothing_yet, h.bytes);
      }

  -- A call comes down to `store` in the set of the fragments.
  handle-store :
      (o : Outside) (i : ℕ) (seen : List ℕ) (m : Manager)
      → Progress seen m
      → (s : FragmentSet) × (m0 : Manager) × (events : List Event) × (handle_decoded o
            (hex sender_id)
            (nth i)
            m
          ≡ store o key (nth i) s m0 events)
        × Gathering frag_id n type chunk key seen s m0
  unfolding handle_decoded store_at
  handle-store o i seen m (inl (e, h)) =
      let room : leb max_active_fragment_sets (length m.sets) ≡ false = ground (arith, h.number) in
      let s = opened o key (hex sender_id) (nth i) m in
      let (m0, events) = open_set o key (hex sender_id) (nth i) m in
      let g = Gathering-opened o i m h in
      (
        s,
        m0,
        events,
        rw (h.fresh, room, handle_decoded, g.here, store_at) refl,
        subst (λ xs. Gathering frag_id n type chunk key xs s m0) (sym e) g,
      )
  handle-store o i seen m (inr (s, g)) =
      let same : (not (s.total == n) || not (s.original_type == type)) ≡ false =
        ground (arith, g.total, g.type_same) in
      (s, m, [], rw (g.here, same, handle_decoded, g.here, store_at) refl, g)

  module _ (few : n ≤ max_fragments_per_id)
      (sized : (i : ℕ) → i < n → (0 < length (chunk i)) × (length (chunk i) ≤ 469)) where
    handle-decoded :
        (d : Delivery) (m : Manager)
        → IsFragment d
        → handle_fragment d.outside d.packet m
          ≡ handle_decoded d.outside (hex sender_id) (nth d.index) m
    unfolding handle_fragment
    handle-decoded d m f =
        let good : (ltb max_fragments_per_id n || length (chunk d.index) == 0) ≡ false =
          ground (arith, few, (sized d.index f.in_range).0) in
        rw (f.payload, good, f.sender, handle_fragment) refl

    step-Progress :
        (d : Delivery) (seen : List ℕ) (m : Manager) (j : ℕ)
        → IsFragment d
        → Progress seen m
        → j < n
        → among j (d.index ∷ seen) ≡ false
        → ((handle_fragment d.outside d.packet m).answer ≡ nothing)
          × Progress (d.index ∷ seen) (handle_fragment d.outside d.packet m).manager
    step-Progress d seen m j f h below absent =
        let (s, m0, events, e, g) = handle-store d.outside d.index seen m h in
        let (t, quiet, g') =
          store-Gathering frag_id n type chunk d.outside key d.index seen s m0 few
            (sized d.index f.in_range).1 f.in_range g j events below absent in
        subst (λ (r : Result). (r.answer ≡ nothing) × Progress (d.index ∷ seen) r.manager)
          (sym (handle-decoded d m f ∙ e)) (quiet, inr (t, g'))

    step_joined :
        (d : Delivery) (seen : List ℕ) (m : Manager)
        → IsFragment d
        → Progress seen m
        → ((j : ℕ) → j < n → among j (d.index ∷ seen) ≡ true)
        → (handle_fragment d.outside d.packet m).answer ≡ decoded z (joined chunk 0 n)
    step_joined d seen m f h all =
        let (s, m0, events, e, g) = handle-store d.outside d.index seen m h in
        let done =
          store_joined frag_id n type chunk d.outside key d.index seen s m0 few
            (sized d.index f.in_range).1 f.in_range g events all in
        ap (λ (r : Result). r.answer) (handle-decoded d m f ∙ e)
        ∙ done
        ∙ ap (λ w. decoded w (joined chunk 0 n)) f.zlib

    deliver_on :
        (ds : List Delivery) (last : Delivery) (seen : List ℕ) (m : Manager)
        → All IsFragment ds
        → IsFragment last
        → Progress seen m
        → (among last.index (indices ds) || among last.index seen) ≡ false
        → ((j : ℕ) → j < n → (among j (last.index ∷ indices ds) || among j seen) ≡ true)
        → All (λ a. a ≡ nothing) (answers m ds)
          × ((handle_fragment last.outside last.packet (deliver m ds)).answer
              ≡ decoded z (joined chunk 0 n))
    unfolding deliver answers
    deliver_on [] last seen m fs f h new all =
        (tt, step_joined last seen m f h (λ j below. ground (arith, all j below)))
    deliver_on (d ∷ ds) last seen m (fd, fs) f h new all =
        let (quiet, h') = step-Progress d seen m last.index fd h f.in_range (ground (arith, new)) in
        let (rest, done) =
          deliver_on ds last (d.index ∷ seen) (handle_fragment d.outside d.packet m).manager fs f h'
            (ground (arith, new)) (λ j below. ground (arith, all j below)) in
        ((quiet, rest), done)

    -- Fragments of a transfer that come in any order, some of them perhaps more than once, into a
    -- manager with room for them are gathered without an answer until the last missing one comes;
    -- that one is answered by what the joined data decode to.
    pub deliver-joined :
        (ds : List Delivery) (last : Delivery) (m : Manager)
        → All IsFragment ds
        → IsFragment last
        → HasRoom frag_id sender_id n type m
        → among last.index (indices ds) ≡ false
        → ((j : ℕ) → j < n → among j (last.index ∷ indices ds) ≡ true)
        → All (λ a. a ≡ nothing) (answers m ds)
          × ((handle_fragment last.outside last.packet (deliver m ds)).answer
              ≡ decoded z (joined chunk 0 n))
    deliver-joined ds last m fs f h new all =
        deliver_on ds last [] m fs f (inl (refl, h)) (ground (arith, new))
          (λ j below. ground (arith, all j below))
