-- ===== src/Messages/Fields.antt =====
-- The fields of a message, written and read.
use bit_chat_pi.Text.Utf8.RoundTrip.{utf8_decode-utf8_encode}
use bit_chat_pi.Text.Utf8.{utf8_encode}
use bit_chat_pi.Text.{Text}
use bit_chat_pi.Bytes.{Bytes}
use bit_chat_pi.Prelude.{
  All, IsOptional, List, Option, [], ap, append_assoc, arith, drop-append, leb, length,
  length-append, ltb, none, refl, some, suc, take, take-append, take_whole, true, ℕ, ◌++◌, ◌>>=◌,
  ◌∙◌, ◌∷◌, ◌≡◌, ◌≤◌,
}
use bit_chat_pi.Messages.{is_given}
use bit_chat_pi.Messages.Encode.{write_each, write_field, write_mentions, write_u8_str}
use bit_chat_pi.Messages.Decode.{
  listed_mention, read_each, read_field, read_mentions, read_u8_str, unless_empty,
}

-- A text that has at most `n` bytes in UTF-8.
pub record IsShort (n : ℕ) (s : Text) : Type 0 where
  pub bytes : Bytes
  pub made : utf8_encode s ≡ some bytes
  pub small : length bytes ≤ n

-- `written` is what a writer made of a value, and a reader gets `value` from it, whatever follows.
pub record Read {A : Type 0} (written : Option Bytes) (least : ℕ)
    (reader : Bytes → Option (A × Bytes)) (value : A) : Type 0 where
  pub bytes : Bytes
  pub made : written ≡ some bytes
  pub long : least ≤ length bytes
  pub back : (rest : Bytes) → reader (bytes ++ rest) ≡ some (value, rest)

pub write_u8_str-Read : (s : Text) → IsShort 255 s → Read (write_u8_str s) 1 read_u8_str (some s)
unfolding write_u8_str read_u8_str
write_u8_str-Read s h =
    let b = h.bytes in
    let whole = take_whole 255 b h.small in
    record {
      bytes = length b ∷ b;
      made = rw (h.made, whole) refl;
      long = omega arith;
      back = λ rest.
          let fits : leb (length b) (length (b ++ rest)) ≡ true =
            ground (arith, length-append b rest) in
          rw
            (
              fits,
              take-append (length b) b rest refl,
              drop-append (length b) b rest refl,
              utf8_decode-utf8_encode s b h.made,
            )
            refl;
    }

-- An empty text is sent as no text.
unfoldable pub carried_text : Option Text → Option Text
carried_text none = none
carried_text (some []) = none
carried_text (some (c ∷ cs)) = some (c ∷ cs)

pub write_field-Read :
    (o : Option Text)
    → IsOptional (IsShort 255) o
    → Read (write_field o) 0 (read_field (is_given o)) (carried_text o)
unfolding write_field read_field carried_text
write_field-Read none h = record {
  bytes = [];
  made = refl;
  long = omega arith;
  back = λ rest. refl;
}
write_field-Read (some []) h = record {
  bytes = [];
  made = refl;
  long = omega arith;
  back = λ rest. refl;
}
write_field-Read (some (c ∷ cs)) h =
    let r = write_u8_str-Read (c ∷ cs) h in
    record {
      bytes = r.bytes;
      made = r.made;
      long = omega arith;
      back = λ rest.
          let more : ltb 0 (length (r.bytes ++ rest)) ≡ true =
            ground (arith, length-append r.bytes rest, r.long) in
          rw more (r.back rest);
    }

-- A round of the loop that reads the mentions.
read_each_next :
    (n : ℕ) (bytes : Bytes)
    → 1 ≤ length bytes
    → read_each (suc n) bytes ≡ (do
      (m, bytes) ← read_u8_str bytes
      (ms, bytes) ← read_each n bytes
      some (listed_mention m ms, bytes))
unfolding read_each
read_each_next n [] h = absurd (omega arith)
read_each_next n (b ∷ bs) h = refl

write_each-Read :
    (ms : List Text) → All (IsShort 255) ms → Read (write_each ms) 0 (read_each (length ms)) ms
unfolding write_each read_each
write_each-Read [] h = record { bytes = []; made = refl; long = omega arith; back = λ rest. refl }
write_each-Read (m ∷ ms) h =
    let r = write_u8_str-Read m h.0 in
    let q = write_each-Read ms h.1 in
    record {
      bytes = r.bytes ++ q.bytes;
      made = rw (r.made, q.made) refl;
      long = omega arith;
      back = λ rest.
          let step =
            read_each_next (length ms) (r.bytes ++ (q.bytes ++ rest))
              (omega (arith, r.long, length-append r.bytes (q.bytes ++ rest))) in
          ap (read_each (suc (length ms))) (append_assoc r.bytes q.bytes rest)
          ∙ (step ∙ rw (r.back (q.bytes ++ rest), q.back rest) refl);
    }

unfoldable pub carried_mentions : Option (List Text) → Option (List Text)
carried_mentions none = none
carried_mentions (some ms) = unless_empty ms

-- At most 255 texts, each of at most 255 bytes.
pub record IsMentions (ms : List Text) : Type 0 where
  pub few : length ms ≤ 255
  pub short : All (IsShort 255) ms

pub write_mentions-Read :
    (o : Option (List Text))
    → IsOptional IsMentions o
    → Read (write_mentions o) 0 (read_mentions (is_given o)) (carried_mentions o)
unfolding write_mentions read_mentions carried_mentions
write_mentions-Read none h = record {
  bytes = [];
  made = refl;
  long = omega arith;
  back = λ rest. refl;
}
write_mentions-Read (some []) h = record {
  bytes = [];
  made = refl;
  long = omega arith;
  back = λ rest. refl;
}
write_mentions-Read (some (m ∷ ms)) h =
    let r = write_each-Read (m ∷ ms) h.short in
    let whole : take 255 (m ∷ ms) ≡ m ∷ ms = take_whole 255 (m ∷ ms) h.few in
    record {
      bytes = length (m ∷ ms) ∷ r.bytes;
      made =
          ap (λ xs. do written ← write_each xs; some (length xs ∷ written)) whole ∙ rw r.made refl;
      long = omega arith;
      back = λ rest. rw (r.back rest) refl;
    }
