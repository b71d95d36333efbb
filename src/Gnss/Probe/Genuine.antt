-- ===== src/Gnss/Probe/Genuine.antt =====
-- Where a success of the probe of main/gnss.c comes from.
use esp32_wifi_gnss.Prelude.{
  ℕ, ◌<◌, ◌≡◌, refl, sym, ap, ◌∙◌, append-nil, subst, Bool, true, false, not, ◌&&◌, [], ◌∷◌, ◌++◌,
  Bytes, length, append_assoc, leb, ◌==◌, if◌then◌else◌, inl, inr, Bool-cases, arith, on_test,
}
use esp32_wifi_gnss.Nmea.{max_sentence_len}
use esp32_wifi_gnss.Gnss.{ProbeState}
use esp32_wifi_gnss.Gnss.Probe.{probe_reset, probe_append, probe_valid, probe_byte, probe_feed}
use esp32_wifi_gnss.Gnss.Probe.Reading.{
  Assembled, start-Assembled, append-Assembled, Valid, probe_valid-line,
}

-- A valid line, up to its line feed, stands in `heard` as it is.
pub record HasValidLine (heard : Bytes) : Type 0 where
  pub before : Bytes
  pub body : Bytes
  pub after : Bytes
  pub valid : Valid (body ++ b'\n' ∷ [])
  pub found : heard ≡ before ++ ((body ++ b'\n' ∷ []) ++ after)

-- The sentence in the array is the end of what has been heard.
pub record Heard (heard : Bytes) (s : ProbeState) : Type 0 where
  pub size : length s.sentence ≡ max_sentence_len
  pub line :
      s.in_sentence ≡ true
      → (before : Bytes) × (text : Bytes) × (heard ≡ before ++ text) × Assembled text s

abbrev Outcome : Bytes → Bool × ProbeState → Type 0
Outcome heard r = (r.0 ≡ true → HasValidLine heard) × Heard heard r.1

pub reset-Heard :
    (heard : Bytes) (s : ProbeState)
    → length s.sentence ≡ max_sentence_len
    → Heard heard (probe_reset s)
reset-Heard heard s size = record { size = size; line = λ h. absurd cc }

valid_split : (a b : Bool) → a && b ≡ true → (a ≡ true) × (b ≡ true)
valid_split a b h = (ground arith, ground arith)

-- The line feed ends the line.
ended-Outcome :
    (heard : Bytes) (s : ProbeState) (before text : Bytes)
    → heard ≡ before ++ text
    → Assembled text s
    → length text < max_sentence_len
    → Outcome
        (heard ++ b'\n' ∷ [])
        (probe_valid (probe_append s b'\n'), probe_reset (probe_append s b'\n'))
ended-Outcome heard s before text e r l =
    let k = append-Assembled s text b'\n' r l in
    (
      λ ok. record {
        before = before;
        body = text;
        after = [];
        valid = valid_split _ _ (sym (probe_valid-line (text ++ b'\n' ∷ []) _ k) ∙ ok);
        found =
            ap (λ t. t ++ b'\n' ∷ []) e
            ∙ append_assoc before text (b'\n' ∷ [])
            ∙ ap (λ t. before ++ t) (sym (append-nil (text ++ b'\n' ∷ [])));
      },
      reset-Heard _ (probe_append s b'\n') k.size,
    )

append-Outcome :
    (heard : Bytes) (s : ProbeState) (byte : ℕ) (before text : Bytes)
    → heard ≡ before ++ text
    → Assembled text s
    → length text < max_sentence_len
    → Outcome (heard ++ byte ∷ []) (false, probe_append s byte)
append-Outcome heard s byte before text e r l =
    let k = append-Assembled s text byte r l in
    (
      λ ok. absurd cc,
      record {
        size = k.size;
        line = λ h. (
          before,
          text ++ byte ∷ [],
          ap (λ t. t ++ byte ∷ []) e ∙ append_assoc before text (byte ∷ []),
          k,
        );
      },
    )

byte-Outcome :
    (heard : Bytes) (s : ProbeState) (byte : ℕ)
    → Heard heard s
    → Outcome (heard ++ byte ∷ []) (probe_byte s byte)
unfolding probe_byte
byte-Outcome heard s byte h =
    on_test (Outcome (heard ++ byte ∷ [])) (byte == b'$') _ _
      (λ dollar. (
        λ ok. absurd cc,
        let k = start-Assembled s byte h.size in
            record { size = k.size; line = λ o. (heard, byte ∷ [], refl, k) },
      ))
      (λ other.
        on_test (Outcome (heard ++ byte ∷ [])) (not s.in_sentence) _ _
          (λ out. (
            λ ok. absurd cc,
            record { size = h.size; line = λ o. absurd (ground (arith, o, out)) },
          ))
          (λ within.
            let (before, text, e, r) = h.line (ground arith) in
            on_test (Outcome (heard ++ byte ∷ [])) (leb max_sentence_len s.sentence_len) _ _
              (λ full. (λ ok. absurd cc, reset-Heard _ s h.size))
              (λ room.
                let l : length text < max_sentence_len = ground (arith, r.len) in
                on_test (Outcome (heard ++ byte ∷ [])) (byte == b'\n') _ _
                  (λ line_feed.
                    subst
                      (λ b.
                        Outcome (heard ++ b ∷ [])
                          (probe_valid (probe_append s b), probe_reset (probe_append s b)))
                      {x = b'\n'} {y = byte} (ground arith)
                      (ended-Outcome heard s before text e r l))
                  (λ on. append-Outcome heard s byte before text e r l))))

more-HasValidLine : (heard more : Bytes) → HasValidLine heard → HasValidLine (heard ++ more)
more-HasValidLine heard more v = record {
  before = v.before;
  body = v.body;
  after = v.after ++ more;
  valid = v.valid;
  found =
      ap (λ t. t ++ more) v.found
      ∙ append_assoc v.before ((v.body ++ b'\n' ∷ []) ++ v.after) more
      ∙ ap (λ t. v.before ++ t) (append_assoc (v.body ++ b'\n' ∷ []) v.after more);
}

-- Calls that have found nothing yet make no difference to the next.
probe_feed-append :
    (bytes more : Bytes) (s : ProbeState)
    → (probe_feed bytes s).0 ≡ false
    → probe_feed (bytes ++ more) s ≡ probe_feed more (probe_feed bytes s).1
unfolding probe_feed
probe_feed-append [] more s none_yet = refl
probe_feed-append (byte ∷ bytes) more s none_yet = elim (Bool-cases (probe_byte s byte).0) [
  | inl found ↦ absurd (cc (first found, none_yet))
  | inr not_yet ↦
      rw (not_yet, probe_feed)
        (probe_feed-append bytes more (probe_byte s byte).1 (rest not_yet none_yet))
]
  where
    first : (probe_byte s byte).0 ≡ true → (probe_feed (byte ∷ bytes) s).0 ≡ true
    first e = rw (e, probe_feed) refl

    rest :
        (probe_byte s byte).0 ≡ false
        → (probe_feed (byte ∷ bytes) s).0 ≡ false
        → (probe_feed bytes (probe_byte s byte).1).0 ≡ false
    rest e k =
        ap
          (λ (c : Bool).
            (if c then (true, (probe_byte s byte).1) else probe_feed bytes (probe_byte s byte).1).0)
          (sym e)
        ∙ k

probe_feed_sound :
    (bytes heard : Bytes) (s : ProbeState)
    → Heard heard s
    → ((probe_feed bytes s).0 ≡ true → HasValidLine (heard ++ bytes))
      × ((probe_feed bytes s).0 ≡ false → Heard (heard ++ bytes) (probe_feed bytes s).1)
unfolding probe_feed
probe_feed_sound [] heard s h =
    (λ ok. absurd cc, λ no. subst (λ t. Heard t s) (sym (append-nil heard)) h)
probe_feed_sound (byte ∷ bytes) heard s h =
    let step = byte-Outcome heard s byte h in
    let whole = append_assoc heard (byte ∷ []) bytes in
    let rest = probe_feed_sound bytes (heard ++ byte ∷ []) (probe_byte s byte).1 step.1 in
    on_test
      (λ (r : Bool × ProbeState).
        (r.0 ≡ true → HasValidLine (heard ++ byte ∷ bytes))
        × (r.0 ≡ false → Heard (heard ++ byte ∷ bytes) r.1))
      (probe_byte s byte).0 _ _
      (λ found. (
        λ ok.
            subst HasValidLine whole (more-HasValidLine (heard ++ byte ∷ []) bytes (step.0 found)),
        λ no. absurd cc,
      ))
      (λ none_yet. (
        λ ok. subst HasValidLine whole (rest.0 ok),
        λ no. subst (λ t. Heard t (probe_feed bytes (probe_byte s byte).1).1) whole (rest.1 no),
      ))

-- What has been heard since the probe was reset stays its only ground: where `nmea_probe_feed`
-- returns true, the bytes of this and of the earlier calls contain, byte for byte, a line of one of
-- the six types with a valid checksum. Where it returns false, the same holds of the next call; and
-- the next call, with any bytes, returns what one call with all the bytes would have returned, so
-- that a line may be cut between two calls anywhere.
pub probe_feed-Heard :
    (bytes heard : Bytes) (s : ProbeState)
    → Heard heard s
    → ((probe_feed bytes s).0 ≡ true → HasValidLine (heard ++ bytes))
      × ((probe_feed bytes s).0 ≡ false → Heard (heard ++ bytes) (probe_feed bytes s).1)
      × ((more : Bytes)
          → (probe_feed bytes s).0 ≡ false
          → probe_feed more (probe_feed bytes s).1 ≡ probe_feed (bytes ++ more) s)
probe_feed-Heard bytes heard s h =
    let (sound, stays) = probe_feed_sound bytes heard s h in
    (sound, stays, λ more none_yet. sym (probe_feed-append bytes more s none_yet))
