-- ===== src/Mesh/Relay/Decision.antt =====
-- `_should_relay` of relay_engine.py.
use bit_chat_pi.Prelude.{Bool, arith, if◌then◌else◌, leb, ltb, true, ℕ, ◌<◌, ◌^◌, ◌≡◌, ◌≤◌, ◌⊎◌}
use bit_chat_pi.Protocol.Constants.{relay_high_ttl_threshold, relay_small_net_max}
use bit_chat_pi.Protocol.Packet.{Packet, with_ttl}

-- The doubles 1.0, 0.85, 0.7, 0.55 and 0.4 are these fractions of 2 ^ 53, and `random.random()` is
-- a multiple of 2 ^ -53 below 1: the comparison of the doubles is that of the numerators.
abbrev pub relay_prob_le10 : ℕ
relay_prob_le10 = 9007199254740992

abbrev pub relay_prob_le30 : ℕ
relay_prob_le30 = 7656119366529843

abbrev pub relay_prob_le50 : ℕ
relay_prob_le50 = 6305039478318694

abbrev pub relay_prob_le100 : ℕ
relay_prob_le100 = 4953959590107546

abbrev pub relay_prob_large : ℕ
relay_prob_large = 3602879701896397

unfoldable pub relay_prob : ℕ → ℕ
relay_prob size =
    if leb size 10
    then relay_prob_le10
    else if leb size 30
    then relay_prob_le30
    else if leb size 50
    then relay_prob_le50
    else if leb size 100
    then relay_prob_le100
    else relay_prob_large

-- `roll` is the numerator of `random.random()` over 2 ^ 53.
unfoldable pub should_relay : ℕ → ℕ → Packet → Bool
unfolding relay_prob
should_relay roll size p =
    if leb relay_high_ttl_threshold p.ttl
    then true
    else if leb size relay_small_net_max
    then true
    else ltb roll (relay_prob size)

-- With four hops left, or in a network of at most ten peers, the roll does not matter.
pub should_relay_surely :
    (roll size : ℕ) (p : Packet)
    → roll < 2 ^ 53
    → (4 ≤ p.ttl) ⊎ (size ≤ 10)
    → should_relay roll size p ≡ true
unfolding should_relay
should_relay_surely roll size p h sure = ground arith

-- A smaller network, a packet with more hops left and a lower roll are never relayed less.
pub should_relay_mono :
    (roll roll' size size' : ℕ) (p : Packet) (ttl : ℕ)
    → roll' ≤ roll
    → size' ≤ size
    → p.ttl ≤ ttl
    → should_relay roll size p ≡ true
    → should_relay roll' size' (with_ttl p ttl) ≡ true
unfolding should_relay
should_relay_mono roll roll' size size' p ttl hr hs ht e = ground arith
