-- ===== src/Client/Headers/Owned.antt =====
-- The vector of the headers is freed once, and only where malloc gave it.
use cor_rest.Base.{
  ltb, ◌==◌, if◌then◌else◌, ltb→lt, Bool-cases, Bytes, length, length-append, ℕ, ◌+◌, ◌≤◌, ◌<◌, ◌≡◌,
  refl, sym, ap, ◌∙◌, inl, inr, Bool, true, false, not, ◌&&◌, Option, none, some, List, [], ◌∷◌,
  ◌++◌, arith,
}
use cor_rest.Verb.{Verb}
use cor_rest.Client.Headers.{
  request_init, is_inline, free_vector, new_vector, taken_block, request_header, request_cleanup,
  Vector, inline_vector, arena_vector, heap_vector, Memory, mallocs, frees, ClientRequest,
}

-- Headers, one after the other
unfoldable pub add_headers :
    (ℕ → Bool) → List (Bytes × Bytes) → ClientRequest → List Memory × ClientRequest
unfolding request_header
add_headers room [] r = ([], r)
add_headers room ((name, value) ∷ hs) r =
    let (calls, r') = request_header room name value r in
    let (more, r'') = add_headers room hs r' in (calls ++ more, r'')

-- What a call does to the block k, which is in use or not; `none` is a free of what malloc did not
-- give, or of what was freed before.
abbrev pub block_step : ℕ → Memory → Bool → Option Bool
block_step k (mallocs j) used = if j == k then (if used then none else some true) else some used
block_step k (frees inline_vector) used = none
block_step k (frees arena_vector) used = none
block_step k (frees (heap_vector j)) used =
    if j == k then (if used then some false else none) else some used

unfoldable pub block_after : ℕ → List Memory → Option Bool → Option Bool
block_after k [] o = o
block_after k (call ∷ calls) none = none
block_after k (call ∷ calls) (some used) = block_after k calls (block_step k call used)

block_after-none : (k : ℕ) (calls : List Memory) → block_after k calls none ≡ none
unfolding block_after
block_after-none k [] = refl
block_after-none k (call ∷ calls) = refl

block_after-append :
    (k : ℕ) (xs ys : List Memory) (o : Option Bool)
    → block_after k (xs ++ ys) o ≡ block_after k ys (block_after k xs o)
unfolding block_after
block_after-append k [] ys o = refl
block_after-append k (call ∷ xs) ys none = sym (block_after-none k ys)
block_after-append k (call ∷ xs) ys (some used) =
    block_after-append k xs ys (block_step k call used)

abbrev holds : ℕ → Vector → Bool
holds k inline_vector = false
holds k arena_vector = false
holds k (heap_vector j) = j == k

-- Where a vector may be, with an allocator or without, and n blocks given so far
abbrev Suits : Bool → ℕ → Vector → Type 0
Suits alloc n inline_vector = Unit
Suits alloc n arena_vector = alloc ≡ true
Suits alloc n (heap_vector j) = (alloc ≡ false) × (j < n)

-- The calls of a growth
grown-block :
    (k n : ℕ) (alloc : Bool) (v : Vector)
    → Suits alloc n v
    → block_after k
        (taken_block alloc n ++ (if not (is_inline v) && not alloc then frees v ∷ [] else []))
        (some (holds k v))
      ≡ some (holds k (new_vector alloc n))
unfolding block_after
grown-block k n true inline_vector h = refl
grown-block k n true arena_vector h = refl
grown-block k n true (heap_vector j) h = absurd (ground (arith, h.0))
grown-block k n false inline_vector h = ground arith
grown-block k n false arena_vector h = absurd (ground (arith, h))
grown-block k n false (heap_vector j) h = ground (arith, h.1)

-- The calls of a cleanup
freed-block :
    (k n : ℕ) (alloc : Bool) (v : Vector)
    → Suits alloc n v
    → block_after k (if not (is_inline v) && not alloc then frees v ∷ [] else []) (some (holds k v))
      ≡ some false
unfolding block_after
freed-block k n true inline_vector h = refl
freed-block k n true arena_vector h = refl
freed-block k n true (heap_vector j) h = absurd (ground (arith, h.0))
freed-block k n false inline_vector h = refl
freed-block k n false arena_vector h = absurd (ground (arith, h))
freed-block k n false (heap_vector j) h = ground arith

Suits-new_vector : (alloc : Bool) (n : ℕ) → Suits alloc (n + 1) (new_vector alloc n)
Suits-new_vector true n = refl
Suits-new_vector false n = (refl, omega arith)

-- The headers fit into their vector, which is where it may be.
record IsOwned (r : ClientRequest) : Type 0 where
  fits : length r.header_v ≤ r.header_size
  suits : Suits r.has_alloc r.next_block r.vector

-- One header keeps that, and the blocks in use are the one of the vector.
Kept : ℕ → ClientRequest → List Memory × ClientRequest → Type 0
Kept k r s = IsOwned s.1 × (block_after k s.0 (some (holds k r.vector)) ≡ some (holds k s.1.vector))

request_header-Kept :
    (k : ℕ) (room : ℕ → Bool) (name value : Bytes) (r : ClientRequest)
    → IsOwned r
    → Kept k r (request_header room name value r)
unfolding request_header free_vector Kept block_after
request_header-Kept k room name value r h =
    let longer = length-append r.header_v ((name, value) ∷ []) in
    elim (Bool-cases (ltb (length r.header_v) r.header_size)) [
      | inl free ↦
          rw free (record { fits = omega (arith, longer, ltb→lt _ _ free); suits = h.suits }, refl)
      | inr full ↦ elim (Bool-cases (room (r.header_size + 5))) [
        | inl more ↦
            rw (full, more)
              (
                record {
                  fits = omega (arith, longer, h.fits);
                  suits = Suits-new_vector r.has_alloc r.next_block;
                },
                grown-block k r.next_block r.has_alloc r.vector h.suits,
              )
        | inr none_left ↦ rw (full, none_left) (h, refl)
      ]
    ]

add_headers-Kept :
    (k : ℕ) (room : ℕ → Bool) (hs : List (Bytes × Bytes)) (r : ClientRequest)
    → IsOwned r
    → Kept k r (add_headers room hs r)
unfolding add_headers Kept
add_headers-Kept k room [] r h = (h, unfold block_after in refl)
add_headers-Kept k room ((name, value) ∷ hs) r h =
    let one = request_header room name value r in
    let first = request_header-Kept k room name value r h in
    let more = add_headers room hs one.1 in
    let later = add_headers-Kept k room hs one.1 first.0 in
    (
      later.0,
      block_after-append k one.0 more.0 (some (holds k r.vector))
          ∙ ap (block_after k more.0) first.1
          ∙ later.1,
    )

-- Over a request's life, whatever its headers and whatever memory there is: no block is freed that
-- malloc did not give or that was freed before, neither the vector inside the request nor one of its
-- allocator is ever freed, no block is left behind by the cleanup, and the headers never pass the
-- end of their vector.
pub request_cleanup-released :
    (timeout : ℕ) (verb : Verb) (url : Option Bytes) (has_alloc : Bool) (room : ℕ → Bool)
    (hs : List (Bytes × Bytes)) (k : ℕ)
    → (let (calls, r) = add_headers room hs (request_init timeout verb url has_alloc) in
        (block_after k (calls ++ (request_cleanup r).0) (some false) ≡ some false)
        × (length r.header_v ≤ r.header_size))
unfolding request_cleanup request_init Kept free_vector
request_cleanup-released timeout verb url has_alloc room hs k =
    let r0 = request_init timeout verb url has_alloc in
    let start : IsOwned r0 = record { fits = omega arith; suits = tt } in
    let added = add_headers room hs r0 in
    let kept = add_headers-Kept k room hs r0 start in
    (
      block_after-append k added.0 (request_cleanup added.1).0 (some false)
          ∙ ap (block_after k (request_cleanup added.1).0) kept.1
          ∙ freed-block k added.1.next_block added.1.has_alloc added.1.vector kept.0.suits,
      kept.0.fits,
    )
