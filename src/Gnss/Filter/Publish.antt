-- ===== src/Gnss/Filter/Publish.antt =====
-- What a publication holds.
use esp32_wifi_gnss.Prelude.{
  ℕ, ◌+◌, ◌≤◌, ◌≡◌, refl, ap, ap₂, ◌∙◌, sym, subst, inl, inr, Bool-cases, All, true, false, List,
  [], ◌∷◌, ◌++◌, Bytes, length, take, drop, ◌==◌, arith, length-take, length-append,
  take-append_self, append_assoc,
}
use esp32_wifi_gnss.Gnss.{Candidate, Publication, u16, u32, copy_bytes, zero_bytes}
use esp32_wifi_gnss.Gnss.Copy.{length-copy_bytes, take-copy_bytes}
use esp32_wifi_gnss.Gnss.Parser.Invariant.{Fits}
use esp32_wifi_gnss.Gnss.Filter.Window.{IsBest, of_epoch, window-IsBest, window-none}
use esp32_wifi_gnss.Gnss.Filter.{
  FilterState, still_best, consider_candidate, consider_all, publication_of, publish_best_candidate,
  publication_max_len,
}

-- The sizes of a candidate that the parser sends.
pub record Sized (c : Candidate) : Type 0 where
  pub gga_fits : Fits c.gga c.gga_len
  pub rmc_fits : Fits c.rmc c.rmc_len

-- A second copy behind the first leaves the first as it is.
take-copy_behind :
    (dst : Bytes) (n : ℕ) (src : Bytes) (m : ℕ)
    → n ≤ length dst
    → m ≤ length src
    → take (n + m) (copy_bytes dst n src m) ≡ take n dst ++ take m src
unfolding copy_bytes
take-copy_behind dst n src m h l =
    ap₂ take
      (omega (arith, length-append (take n dst) (take m src), length-take n dst, length-take m src))
      (sym (append_assoc (take n dst) (take m src) (drop (n + m) dst)))
    ∙ take-append_self (take n dst ++ take m src) (drop (n + m) dst)

-- A publication holds the original bytes of the GGA and then of the RMC, nothing less and nothing
-- between, within its array, and its length does not wrap.
pub record Holds (c : Candidate) (p : Publication) : Type 0 where
  pub len : p.len ≡ c.gga_len + c.rmc_len
  pub size : length p.body ≡ publication_max_len
  pub bytes : take p.len p.body ≡ take c.gga_len c.gga ++ take c.rmc_len c.rmc
  pub hdop : p.hdop_milli ≡ c.hdop_milli

pub publication_of-Holds :
    (sequence : ℕ) (c : Candidate) → Sized c → Holds c (publication_of sequence c)
publication_of-Holds sequence c z = record {
  len = whole;
  size = omega (arith, second, first);
  bytes =
      ap (λ n. take n (publication_of sequence c).body) whole
      ∙ take-copy_behind once c.gga_len c.rmc c.rmc_len (omega (arith, first)) (omega arith)
      ∙ ap (λ l. l ++ take c.rmc_len c.rmc)
          (take-copy_bytes (zero_bytes publication_max_len) c.gga c.gga_len (omega arith));
  hdop = refl;
}
  where
    open z use {gga_fits, rmc_fits}

    once : Bytes
    once = copy_bytes (zero_bytes publication_max_len) 0 c.gga c.gga_len

    whole : u16 (c.gga_len + c.rmc_len) ≡ c.gga_len + c.rmc_len
    whole = omega arith

    first : length once ≡ publication_max_len
    first =
        length-copy_bytes (zero_bytes publication_max_len) 0 c.gga c.gga_len (omega arith)
          (omega arith)

    second : length (copy_bytes once c.gga_len c.rmc c.rmc_len) ≡ length once
    second = length-copy_bytes once c.gga_len c.rmc c.rmc_len (omega (arith, first)) (omega arith)

sequence-consider_all :
    (epoch : ℕ) (s : FilterState) (cs : List Candidate)
    → (consider_all epoch s cs).next_sequence ≡ s.next_sequence
unfolding consider_all consider_candidate
sequence-consider_all epoch s [] = refl
sequence-consider_all epoch s (c ∷ cs) =
    sequence-consider_all epoch (consider_candidate epoch s c) cs ∙ ground arith

of_epoch-Sized : (epoch : ℕ) (cs : List Candidate) → All Sized cs → All Sized (of_epoch epoch cs)
unfolding of_epoch
of_epoch-Sized epoch [] h = tt
of_epoch-Sized epoch (c ∷ cs) h = elim (Bool-cases (c.input_epoch == epoch)) [
  | inl e ↦ rw e (h.0, of_epoch-Sized epoch cs h.1)
  | inr e ↦ rw e (of_epoch-Sized epoch cs h.1)
]

All-middle : (xs ys : List Candidate) (c : Candidate) → All Sized (xs ++ c ∷ ys) → Sized c
All-middle [] ys c h = h.0
All-middle (x ∷ xs) ys c h = All-middle xs ys c h.1

IsBest-Sized : (c : Candidate) (cs : List Candidate) → IsBest c cs → All Sized cs → Sized c
IsBest-Sized c cs b h = All-middle b.before b.behind c (subst (All Sized) b.listed h)

module _ {Q : Type 0} (publish : Q → Publication → Q) (epoch : ℕ) (s : FilterState) (q : Q) where
  pub publish-held :
      still_best epoch s ≡ true
      → publish_best_candidate publish epoch (s, q) ≡ (
        record s { has_best_candidate = false; next_sequence = u32 (s.next_sequence + 1) },
        publish q (publication_of s.next_sequence s.best_candidate),
      )
  unfolding publish_best_candidate
  publish-held h = ground arith

  pub publish-empty :
      still_best epoch s ≡ false
      → publish_best_candidate publish epoch (s, q) ≡ (record s { has_best_candidate = false }, q)
  unfolding publish_best_candidate
  publish-empty h = ground arith

  -- What a timer window leaves behind: the state `s'` and the queue `q'`.
  pub data Outcome (cs : List Candidate) : FilterState × Q → Type 0 where
    silent :
        (s' : FilterState)
        → of_epoch epoch cs ≡ []
        → s'.has_best_candidate ≡ false
        → s'.next_sequence ≡ s.next_sequence
        → Outcome cs (s', q)
    published :
        (s' : FilterState) (c : Candidate) (p : Publication)
        → IsBest c (of_epoch epoch cs)
        → Holds c p
        → p.sequence ≡ s.next_sequence
        → s'.has_best_candidate ≡ false
        → s'.next_sequence ≡ u32 (s.next_sequence + 1)
        → Outcome cs (s', publish q p)

-- A timer window: from a filter that holds nothing for the current source, the candidates `cs` are
-- considered and then the best is published. If none of them came from the current source, nothing
-- is sent and the sequence number stays. Otherwise exactly one publication is sent, under the next
-- sequence number, with the original bytes and the HDOP of the first of the current source's
-- candidates with the least HDOP. Either way nothing is held for the next window.
pub window-Outcome :
    {Q : Type 0} (publish : Q → Publication → Q) (epoch : ℕ) (s : FilterState) (q : Q)
    (cs : List Candidate)
    → still_best epoch s ≡ false
    → All Sized cs
    → Outcome publish epoch s q cs
        (publish_best_candidate publish epoch (consider_all epoch s cs, q))
window-Outcome publish epoch s q cs empty sizes =
    elim (Bool-cases (still_best epoch (consider_all epoch s cs))) [
      | inl full ↦
          let b = window-IsBest epoch s cs empty full in
          subst (Outcome publish epoch s q cs)
            (sym (publish-held publish epoch (consider_all epoch s cs) q full))
            (published _ _ _ b
              (publication_of-Holds _ _ (IsBest-Sized _ _ b (of_epoch-Sized epoch cs sizes)))
              (sequence-consider_all epoch s cs) refl
              (ap (λ n. u32 (n + 1)) (sequence-consider_all epoch s cs)))
      | inr none_held ↦
          subst (Outcome publish epoch s q cs)
            (sym (publish-empty publish epoch (consider_all epoch s cs) q none_held))
            (silent _ (window-none epoch s cs none_held) refl (sequence-consider_all epoch s cs))
    ]
