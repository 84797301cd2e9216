-- ===== src/Client/Exchange/Reads.antt =====
-- What a connReadMore takes, and the first check that tells more than a part.
use cor_rest.Base.{
  ltb, leb, if◌then◌else◌, leb→le, Bool-cases, Bytes, length, take, drop, append-take-drop, ℕ, zero,
  suc, ◌+◌, ◌-◌, ◌*◌, ◌^◌, ◌≤◌, ◌<◌, ◌≡◌, refl, ◌≢◌, ◌⊎◌, inl, inr, Bool, true, false, List, [],
  ◌∷◌, ◌++◌, arith,
}
use cor_rest.Response.Complete.{
  response_complete, Answer, whole, partial, malformed_body, no_answer,
}
use cor_rest.Client.Exchange.{
  ensure_buf, look_loop, after_answer, from_receipt, ensured, Look, look_reads, look_blocked,
  wait_ends, wait_breaks, peer_closes, read_breaks, LookEnd, read_more, Receipt, Link, Exchanged,
}
use cor_rest.Client.Exchange.Outcome.{verdict, verdict_of-verdict}

abbrev pub starts_reading : List Look → Bool
starts_reading (look_reads n ∷ ls) = true
starts_reading _ = false

-- With memory, there is room for 4096 bytes more.
pub ensure_buf-ensured :
    (room : ℕ → Bool) (size len : ℕ)
    → ((n : ℕ) → room n ≡ true)
    → len + 4096 < 2 ^ 30
    → (size' : ℕ) × ((ensure_buf room size len 4096 ≡ ensured size') × (4096 ≤ size' - len))
unfolding ensure_buf
ensure_buf-ensured room size len rooms small =
    let least = len + 4096 in
    let wanted = if ltb (size * 2) least then least else size * 2 in
    elim (Bool-cases (leb 4096 (size - len))) [
      | inl fits ↦ (size, (rw fits refl, leb→le _ _ fits))
      | inr full ↦ (
        wanted,
        (
          (let low : leb (2 ^ 31) wanted ≡ false = ground (arith, small, full) in
              rw (full, low, rooms wanted) refl),
          ground (arith, small, full),
        ),
      )
    ]

-- The bytes that a read asks for, at most
abbrev pub most : List Look → ℕ
most (look_reads n ∷ ls) = n + 1
most _ = 0

-- One read takes some bytes at the front of those that have arrived, and no more than it asks for.
pub record IsRead (ls : List Look) (size : ℕ) (buf arrives : Bytes) (end : LookEnd) : Type 0 where
  pub piece : Bytes
  pub later : Bytes
  pub in_order : piece ++ later ≡ arrives
  pub some_bytes : 0 < length piece
  pub not_more : length piece ≤ most ls
  pub is_end : end ≡ read_more size (buf ++ piece) later

length-take-le : (k : ℕ) (s : Bytes) → length (take k s) ≤ k
length-take-le zero s = omega arith
length-take-le (suc k) [] = omega arith
length-take-le (suc k) (c ∷ s) = omega (arith, length-take-le k s)

length-take-pos : (k c : ℕ) (s : Bytes) → 0 < k → 0 < length (take k (c ∷ s))
length-take-pos zero c s h = absurd (omega arith)
length-take-pos (suc k) c s h = omega arith

pub look_loop-IsRead :
    (ls : List Look) (size : ℕ) (buf arrives : Bytes)
    → starts_reading ls ≡ true
    → 0 < length arrives
    → 0 < size - length buf
    → IsRead ls size buf arrives (look_loop ls size buf arrives)
unfolding look_loop
look_loop-IsRead [] size buf arrives starts some_left space = absurd (ground (arith, starts))
look_loop-IsRead (look_reads n ∷ ls) size buf [] starts some_left space = absurd (omega arith)
look_loop-IsRead (look_reads n ∷ ls) size buf (c ∷ s) starts some_left space =
    let k = if ltb n (size - length buf) then n + 1 else size - length buf in
    let k_pos : 0 < k = ground arith in
    let k_most : k ≤ n + 1 = ground arith in
    record {
      piece = take k (c ∷ s);
      later = drop k (c ∷ s);
      in_order = append-take-drop k (c ∷ s);
      some_bytes = length-take-pos k c s k_pos;
      not_more = omega (arith, length-take-le k (c ∷ s), k_most);
      is_end = refl;
    }
look_loop-IsRead (look_blocked ∷ ls) size buf arrives starts l0 l1 = absurd (ground (arith, starts))
look_loop-IsRead (wait_ends ∷ ls) size buf arrives starts l0 l1 = absurd (ground (arith, starts))
look_loop-IsRead (wait_breaks ∷ ls) size buf arrives starts l0 l1 = absurd (ground (arith, starts))
look_loop-IsRead (peer_closes ∷ ls) size buf arrives starts l0 l1 = absurd (ground (arith, starts))
look_loop-IsRead (read_breaks ∷ ls) size buf arrives starts l0 l1 = absurd (ground (arith, starts))

-- Read after read, each of at least one byte and at most as many as it asks for: `seen` is the first
-- front of the bytes, of those that a read ends at, that is more than a part of a response.
abbrev pub FirstFront : List (List Look) → Bytes → Bytes → Bytes → Type 0
FirstFront [] buf arrives seen = ⊥
FirstFront (ls ∷ lss) buf arrives seen =
    (piece : Bytes) × ((later : Bytes) × ((piece ++ later ≡ arrives)
        × ((0 < length piece)
            × ((length piece ≤ most ls)
                × (((response_complete (buf ++ piece) ≢ partial) × (seen ≡ buf ++ piece))
                    ⊎ ((response_complete (buf ++ piece) ≡ partial)
                        × FirstFront lss (buf ++ piece) later seen))))))

-- The outcome is what the client makes of that front.
abbrev pub Heard : Link → List (List Look) → Bytes → Bytes → Exchanged → Type 0
Heard l lss buf arrives e =
    (seen : Bytes) × (FirstFront lss buf arrives seen × (e ≡ verdict l seen))

-- One answer, where the later reads are told of
abbrev pub Judged : Link → Answer → List (List Look) → Bytes → Bytes → Exchanged → Type 0
Judged l a lss buf later e =
    (seen : Bytes) × ((((a ≢ partial) × (seen ≡ buf))
        ⊎ ((a ≡ partial) × FirstFront lss buf later seen))
      × (e ≡ verdict l seen))

pub after_answer-Judged :
    (l : Link) (a : Answer) (lss : List (List Look)) (size : ℕ) (buf later : Bytes)
    (next : ℕ → Bytes → Bytes → Receipt)
    → response_complete buf ≡ a
    → (a ≡ partial → Heard l lss buf later (from_receipt l (next size buf later)))
    → Judged l a lss buf later (from_receipt l (after_answer a size buf later next))
unfolding from_receipt
after_answer-Judged l partial lss size buf later next e rest =
    let (seen, (first, told)) = rest refl in (seen, (inr (refl, first), told))
after_answer-Judged l whole lss size buf later next e rest =
    let more : whole ≢ partial = λ p. ground (arith, p) in
    (buf, (inl (more, refl), verdict_of-verdict l _ buf e))
after_answer-Judged l malformed_body lss size buf later next e rest =
    let more : malformed_body ≢ partial = λ p. ground (arith, p) in
    (buf, (inl (more, refl), verdict_of-verdict l _ buf e))
after_answer-Judged l no_answer lss size buf later next e rest =
    let more : no_answer ≢ partial = λ p. ground (arith, p) in
    (buf, (inl (more, refl), verdict_of-verdict l _ buf e))
